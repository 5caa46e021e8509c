-- ===== src/MemoryFs/Runs/Opened.antt =====
-- What an open changes of the inode numbers: nothing, or a new file or directory has a new one.
use rustsmb.Base.{
  ℕ, ◌≡◌, ◌⊎◌, nat_key, refl, sym, ap, ◌∙◌, Bool, true, false, ◌&&◌, none, some, List, [], ◌∷◌,
  ◌++◌, All, list_key, Bool-cases, Option-cases, inl, inr, add_u64,
}
use rustsmb.Core.Action.{Result, ok, err, Action}
use rustsmb.Vfs.{
  Text, VfsError, not_found, not_a_directory, already_exists, is_a_directory, is_create, is_excl,
  is_trunc,
}
use rustsmb.MemoryFs.Path.{join}
use rustsmb.MemoryFs.Path.Clean.{IsName}
use rustsmb.MemoryFs.Node.{
  NodeMetadata, new_metadata, Xattrs, MemoryNode, file, directory, symlink, Children, get_child,
  set_child, insert_child, visit,
}
use rustsmb.MemoryFs.Node.Sight.{see, below, grafted}
use rustsmb.MemoryFs.Node.Entries.{see-below, grafted-insert_child}
use rustsmb.MemoryFs.{MemoryBackend, visit_parent}
use rustsmb.MemoryFs.Changes.{Dir, visit_parent_found, visit_parent_still, Dir-cases}
use rustsmb.MemoryFs.Handles.{emptied, open_child, open_in}
use rustsmb.MemoryFs.Runs.Inodes.{ino_of, ino_at}
use rustsmb.MemoryFs.Runs.Kept.{Keeps, visit-Keeps, KeepsAll}

-- A change in a directory that keeps its entries and their inode numbers.
visit_parent_kept :
    {A : Type 0} (front : List Text) (names : All IsName front) (act : Action Children VfsError A)
    (root : MemoryNode) (d : Dir front root)
    → ((rest : List Text)
        → ino_at rest (directory (act d.children).1 d.own d.extra)
          ≡ ino_at rest (directory d.children d.own d.extra))
    → (others : List Text)
    → ino_at others (visit_parent (join front) act root).1 ≡ ino_at others root
visit_parent_kept front names act root d same others =
    let sights = (visit_parent_found front names act root d).1 in
    elim (Option-cases (below front others)) [
      | inl away ↦
          let stays : see others (visit_parent (join front) act root).1 ≡ see others root =
            sights others ∙ rw away refl in
          ap ino_of stays
      | inr (rest, leads) ↦
          let there : see others (visit_parent (join front) act root).1
              ≡ see rest (directory (act d.children).1 d.own d.extra) =
            sights others ∙ rw leads refl in
          ap ino_of there
          ∙ same rest
          ∙ sym (
              ap ino_of
                (see-below front others root (directory d.children d.own d.extra) d.here leads))
    ]

abbrev emptying : ℕ → Action MemoryNode VfsError (Unit {0})
emptying now node = (ok tt, emptied now node)

emptying-Keeps : (now : ℕ) → Keeps (emptying now)
emptying-Keeps now (file content m x) [] = refl
emptying-Keeps now (file content m x) (n ∷ rest) = refl
emptying-Keeps now (directory children m x) rest = refl
emptying-Keeps now (symlink target m) rest = refl

emptied_kept :
    (now : ℕ) (name : Text) (node : MemoryNode) (children : Children) (m : NodeMetadata)
    (x : Xattrs)
    → get_child name children ≡ some node
    → (rest : List Text)
    → ino_at rest (directory (set_child name (emptied now node) children) m x)
      ≡ ino_at rest (directory children m x)
unfolding visit
emptied_kept now name node children m x found rest =
    let kept =
      visit-Keeps (not_found []) (not_a_directory []) (emptying now) (emptying-Keeps now)
        (name ∷ []) (directory children m x) rest in
    rw found at kept

module _ (now flags : ℕ) (path : Text) (front : List Text) (names : All IsName front) (name : Text)
    (s : MemoryBackend) where
  abbrev act : Action Children VfsError (ℕ × Bool)
  act = open_child now flags path name s.inode_counter

  abbrev after : MemoryBackend
  after = (open_in now flags path (join front) name s).1

  -- A new file with the next inode number, the counter moved on.
  pub record NewFile : Type 0 where
    pub sights :
        (others : List Text)
        → see others after.root
          ≡ grafted
              (below (front ++ (name ∷ [])) others)
              (see others s.root)
              (file [] (new_metadata now 0o644 s.inode_counter) [])
    pub counter : after.inode_counter ≡ add_u64 s.inode_counter 1

  still :
      (d : Dir front s.root) (e : VfsError)
      → act d.children ≡ (err e, d.children)
      → KeepsAll s after ⊎ NewFile
  unfolding open_in
  still d e same = inl (record {
    nodes = λ others.
        ap (λ (r : Result VfsError (ℕ × Bool) × MemoryNode). ino_at others r.1)
          (visit_parent_still front names act s.root d e same);
    counter = rw (visit_parent_still front names act s.root d e same) refl;
  })

  kept :
      (d : Dir front s.root) (i : ℕ) (children : Children)
      → act d.children ≡ (ok (i, false), children)
      → ((rest : List Text)
          → ino_at rest (directory children d.own d.extra)
            ≡ ino_at rest (directory d.children d.own d.extra))
      → KeepsAll s after ⊎ NewFile
  unfolding open_in
  kept d i children does same =
      let answer : (visit_parent (join front) act s.root).0 ≡ ok (i, false) =
        (visit_parent_found front names act s.root d).0
        ∙ ap (λ (r : Result VfsError (ℕ × Bool) × Children). r.0) does in
      inl (record {
        nodes = visit_parent_kept front names act s.root d (λ rest.
            ap
              (λ (r : Result VfsError (ℕ × Bool) × Children).
                ino_at rest (directory r.1 d.own d.extra))
              does
            ∙ same rest);
        counter = rw answer refl;
      })

  found_entry :
      (d : Dir front s.root) (node : MemoryNode)
      → get_child name d.children ≡ some node
      → (is_create flags && is_excl flags) ≡ false
      → KeepsAll s after ⊎ NewFile
  found_entry d (directory inner m x) found both =
      still d (is_a_directory path) (rw (found, both, open_child) refl)
  found_entry d (symlink target m) found both =
      kept d m.ino d.children (rw (found, both, open_child) refl) (λ rest. refl)
  found_entry d (file content m x) found both = elim (Bool-cases (is_trunc flags)) [
    | inr whole ↦ kept d m.ino d.children (rw (found, both, whole, open_child) refl) (λ rest. refl)
    | inl cut ↦
        kept d m.ino (set_child name (emptied now (file content m x)) d.children)
          (rw (found, both, cut, open_child) refl)
          (emptied_kept now name (file content m x) d.children d.own d.extra found)
  ]

  made :
      (d : Dir front s.root) → get_child name d.children ≡ none → is_create flags ≡ true → NewFile
  unfolding open_in
  made d free create =
      let does : act d.children ≡ (
        ok (s.inode_counter, true),
        insert_child name (file [] (new_metadata now 0o644 s.inode_counter) []) d.children,
      ) =
        rw (free, create, open_child) refl in
      let (answer, sights) = visit_parent_found front names act s.root d in
      let said : (visit_parent (join front) act s.root).0 ≡ ok (s.inode_counter, true) =
        answer ∙ ap (λ (r : Result VfsError (ℕ × Bool) × Children). r.0) does in
      record {
        sights = λ others.
            sights others
            ∙ ap
                (λ (r : Result VfsError (ℕ × Bool) × Children).
                  grafted (below front others) (see others s.root) (directory r.1 d.own d.extra))
                does
            ∙ grafted-insert_child front name s.root d.children d.own d.extra d.here
                (file [] (new_metadata now 0o644 s.inode_counter) []) others;
        counter = rw said refl;
      }

  pub open_in-cases : KeepsAll s after ⊎ NewFile
  unfolding open_in
  open_in-cases = elim (Dir-cases front names act s.root) [
    | inr (away, (e, same)) ↦ inl (record {
      nodes =
          λ others. ap (λ (r : Result VfsError (ℕ × Bool) × MemoryNode). ino_at others r.1) same;
      counter = rw same refl;
    })
    | inl d ↦ elim (Option-cases (get_child name d.children)) [
      | inl free ↦ elim (Bool-cases (is_create flags)) [
        | inl create ↦ inr (made d free create)
        | inr only ↦ still d (not_found path) (rw (free, only, open_child) refl)
      ]
      | inr (node, found) ↦ elim (Bool-cases (is_create flags && is_excl flags)) [
        | inl both ↦ still d (already_exists path) (rw (found, both, open_child) refl)
        | inr not_both ↦ found_entry d node found not_both
      ]
    ]
  ]
