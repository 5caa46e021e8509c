-- ===== src/MemoryFs/Runs/Inodes.antt =====
-- Inode numbers: which node of a file system carries which, and when no two carry the same.
use rustsmb.Base.{
  ℕ, ◌+◌, ◌<◌, ◌≡◌, ◌⊎◌, refl, sym, ap, ◌∙◌, Option, none, some, List, [], ◌∷◌, ◌++◌, append-nil,
  list_key, ◌==◌, Bool-cases, Option-cases, inl, inr, arith,
}
use rustsmb.Vfs.{Text}
use rustsmb.MemoryFs.Node.{MemoryNode}
use rustsmb.MemoryFs.Node.Sight.{Sight, a_file, a_directory, a_symlink, at, see, below, grafted}
use rustsmb.MemoryFs.Node.Entries.{pruned, see-below}

abbrev own_ino : Sight → ℕ
own_ino (a_file content m x) = m.ino
own_ino (a_directory m x) = m.ino
own_ino (a_symlink target m) = m.ino

abbrev pub ino_of : Option Sight → Option ℕ
ino_of none = none
ino_of (some node) = some (own_ino node)

-- The inode number of the node at a path.
abbrev pub ino_at : List Text → MemoryNode → Option ℕ
ino_at names root = ino_of (see names root)

-- All inode numbers have been given out, and no two nodes have the same.
pub record Inodes (root : MemoryNode) (counter : ℕ) : Type 0 where
  pub given : (names : List Text) (i : ℕ) → ino_at names root ≡ some i → i < counter
  pub unique :
      (names others : List Text) (i : ℕ)
      → ino_at names root ≡ some i
      → ino_at others root ≡ some i
      → names ≡ others

-- Every node of the later tree was one of the earlier tree, no two the same one.
pub record Traced (root root' : MemoryNode) : Type 0 where
  origin : List Text → List Text
  pub same :
      (names : List Text) (i : ℕ)
      → ino_at names root' ≡ some i
      → ino_at (origin names) root ≡ some i
  pub apart :
      (names others : List Text) (i : ℕ)
      → ino_at names root' ≡ some i
      → ino_at others root' ≡ some i
      → origin names ≡ origin others
      → names ≡ others

pub Traced-Inodes :
    (root root' : MemoryNode) (counter : ℕ)
    → Inodes root counter
    → Traced root root'
    → Inodes root' counter
Traced-Inodes root root' counter inodes traced = record {
  given = λ names i e. inodes.given (traced.origin names) i (traced.same names i e);
  unique = λ names others i e e'. traced.apart names others i e e' (
      inodes.unique (traced.origin names) (traced.origin others) i (traced.same names i e)
        (traced.same others i e'));
}

pub kept-Traced :
    (root root' : MemoryNode)
    → ((names : List Text) → ino_at names root' ≡ ino_at names root)
    → Traced root root'
kept-Traced root root' keeps = record {
  origin = λ names. names;
  same = λ names i e. sym (keeps names) ∙ e;
  apart = λ names others i e e' h. h;
}

-- What leads on from a path stands at the path and what leads on.
below_some :
    (front names : List Text) {rest : List Text}
    → below front names ≡ some rest
    → names ≡ front ++ rest
below_some [] names e = ground (arith, e)
below_some (f ∷ front) [] e = cc
below_some (f ∷ front) (o ∷ names) {rest} e = elim (Bool-cases (f == o)) [
  | inl hit ↦
      let later = below_some front names {rest = rest} (rw (hit, below) at e) in
      let same = (list_key.same_iff f o).0 hit in cc (later, same)
  | inr miss ↦ cc (rw (miss, below) at e)
]

below-front : (front rest : List Text) → below front (front ++ rest) ≡ some rest
below-front [] rest = refl
below-front (f ∷ front) rest = rw ((list_key.same_iff f f).1 refl) (below-front front rest)

module _ (root root' : MemoryNode) (old : List Text) where
  pub pruned-Traced :
      ((names : List Text) → see names root' ≡ pruned (below old names) (see names root))
      → Traced root root'
  pruned-Traced sights = record {
    origin = λ names. names;
    same = λ names i e. elim (Option-cases (below old names)) [
      | inl away ↦
          let stays : see names root' ≡ see names root = sights names ∙ rw away refl in
          sym (ap ino_of stays) ∙ e
      | inr (rest, leads) ↦
          let gone : see names root' ≡ none = sights names ∙ rw leads refl in
          absurd (cc (ap ino_of gone, e))
    ];
    apart = λ names others i e e' h. h;
  }

  module _ (new : List Text) (node : MemoryNode) (found : at old root ≡ some node)
      (sights : (names : List Text)
        → see names root'
          ≡ grafted (below new names) (pruned (below old names) (see names root)) node) where
    abbrev source : Option (List Text) → List Text → List Text
    source none names = names
    source (some rest) names = old ++ rest

    -- A node is where it was, off both paths, or has come from the old path.
    moved_cases :
        (names : List Text) (i : ℕ)
        → ino_at names root' ≡ some i
        → ((below new names ≡ none) × ((below old names ≡ none) × (ino_at names root ≡ some i)))
          ⊎ ((rest : List Text) × ((below new names ≡ some rest)
                × (ino_at (old ++ rest) root ≡ some i)))
    moved_cases names i e = elim (Option-cases (below new names)) [
      | inr (rest, leads) ↦
          let here : see names root' ≡ see rest node = sights names ∙ rw leads refl in
          inr (
            rest,
            (
              leads,
              ap ino_of
                    (see-below old (old ++ rest) root node found (below-front old rest) ∙ sym here)
                  ∙ e,
            ),
          )
      | inl away ↦ elim (Option-cases (below old names)) [
        | inl off ↦
            let stays : see names root' ≡ see names root = sights names ∙ rw (away, off) refl in
            inl (away, (off, ap ino_of (sym stays) ∙ e))
        | inr (rest, leads) ↦
            let gone : see names root' ≡ none = sights names ∙ rw (away, leads) refl in
            absurd (cc (ap ino_of gone, e))
      ]
    ]

    pub moved-Traced : Traced root root'
    moved-Traced = record {
      origin = λ names. source (below new names) names;
      same = λ names i e. elim (moved_cases names i e) [
        | inl (away, (off, was)) ↦ rw away was
        | inr (rest, (leads, was)) ↦ rw leads was
      ];
      apart = λ names others i e e' h. elim (moved_cases names i e) [
        | inl (away, (off, was)) ↦ elim (moved_cases others i e') [
          | inl (away', (off', was')) ↦ rw (away, away') at h
          | inr (rest', (leads', was')) ↦
              let same : names ≡ old ++ rest' = rw (away, leads') at h in
              absurd (cc (off, ap (below old) same, below-front old rest'))
        ]
        | inr (rest, (leads, was)) ↦ elim (moved_cases others i e') [
          | inl (away', (off', was')) ↦
              let same : old ++ rest ≡ others = rw (leads, away') at h in
              absurd (cc (off', ap (below old) same, below-front old rest))
          | inr (rest', (leads', was')) ↦
              let same : old ++ rest ≡ old ++ rest' = rw (leads, leads') at h in
              let rests : rest ≡ rest' =
                cc (sym (below-front old rest), ap (below old) same, below-front old rest') in
              below_some new names leads
              ∙ ap (λ r. new ++ r) rests
              ∙ sym (below_some new others leads')
        ]
      ];
    }

module _ (root root' : MemoryNode) (counter : ℕ) (new : List Text) (node : MemoryNode)
    (own : ino_at [] node ≡ some counter)
    (bare : (name : Text) (rest : List Text) → see (name ∷ rest) node ≡ none)
    (sights : (names : List Text)
      → see names root' ≡ grafted (below new names) (see names root) node) where
  -- A node is new, or where it was.
  made_cases :
      (names : List Text) (i : ℕ)
      → ino_at names root' ≡ some i
      → ((names ≡ new) × (i ≡ counter)) ⊎ (ino_at names root ≡ some i)
  made_cases names i e = elim (Option-cases (below new names)) [
    | inl away ↦
        let stays : see names root' ≡ see names root = sights names ∙ rw away refl in
        inr (ap ino_of (sym stays) ∙ e)
    | inr (rest, leads) ↦ inl (here rest leads)
  ]
    where
      here : (rest : List Text) → below new names ≡ some rest → (names ≡ new) × (i ≡ counter)
      here [] leads =
          let stands : see names root' ≡ see [] node = sights names ∙ rw leads refl in
          (below_some new names leads ∙ append-nil new, cc (ap ino_of stands, own, e))
      here (name ∷ rest) leads =
          let stands : see names root' ≡ see (name ∷ rest) node = sights names ∙ rw leads refl in
          absurd (cc (ap ino_of (stands ∙ bare name rest), e))

  pub made-Inodes : Inodes root counter → Inodes root' (counter + 1)
  made-Inodes inodes = record {
    given = λ names i e. elim (made_cases names i e) [
      | inl (here, fresh) ↦ omega (arith, fresh)
      | inr was ↦ omega (arith, inodes.given names i was)
    ];
    unique = λ names others i e e'. elim (made_cases names i e) [
      | inl (here, fresh) ↦ elim (made_cases others i e') [
        | inl (here', fresh') ↦ here ∙ sym here'
        | inr was' ↦ absurd (omega (arith, fresh, inodes.given others i was'))
      ]
      | inr was ↦ elim (made_cases others i e') [
        | inl (here', fresh') ↦ absurd (omega (arith, fresh', inodes.given names i was))
        | inr was' ↦ inodes.unique names others i was was'
      ]
    ];
  }
