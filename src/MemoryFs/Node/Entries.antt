-- ===== src/MemoryFs/Node/Entries.antt =====
-- What putting an entry into a directory, or taking one out, changes of a file system.
use rustsmb.Base.{
  ◌≡◌, refl, ap, ◌∙◌, subst, Option, none, some, List, [], ◌∷◌, ◌++◌, list_key, ◌==◌, Bool-cases,
  Option-cases, inl, inr, if◌then◌else◌, arith,
}
use rustsmb.Vfs.{Text}
use rustsmb.MemoryFs.Node.{
  NodeMetadata, Xattrs, MemoryNode, file, directory, symlink, Children, end, child, get_child,
  remove_child, insert_child,
}
use rustsmb.MemoryFs.Node.Sight.{Sight, sight_of, at, at_child, see, below, grafted}

get_child-remove_child :
    (name j : Text) (children : Children)
    → get_child j (remove_child name children) ≡ (if name == j then none else get_child j children)
get_child-remove_child name j end = ground arith
get_child-remove_child name j (child n x rest) = ground (
  arith,
  list_key.same_iff n name,
  list_key.same_iff n j,
  list_key.same_iff name j,
  get_child-remove_child name j rest,
)

get_child-insert_child :
    (name j : Text) (node : MemoryNode) (children : Children)
    → get_child j (insert_child name node children)
      ≡ (if name == j then some node else get_child j children)
get_child-insert_child name j node children = ground (arith, get_child-remove_child name j children)

-- What stands at a path, where what stands at another path, and below it, is gone.
abbrev pub pruned : Option (List Text) → Option Sight → Option Sight
pruned none old = old
pruned (some rest) old = none

-- What leads on from an entry of a directory, from what leads on from the directory.
abbrev entered : Text → Option (List Text) → Option (List Text)
entered name none = none
entered name (some []) = none
entered name (some (o ∷ rest)) = if name == o then some rest else none

below-append :
    (front : List Text) (name : Text) (names : List Text)
    → below (front ++ (name ∷ [])) names ≡ entered name (below front names)
below-append [] name [] = refl
below-append [] name (o ∷ names) = refl
below-append (f ∷ front) name [] = refl
below-append (f ∷ front) name (o ∷ names) = elim (Bool-cases (f == o)) [
  | inl hit ↦ rw hit (below-append front name names)
  | inr miss ↦ rw miss refl
]

-- What stands at a path is what stands below a node that it leads through.
pub see-below :
    (front names : List Text) (root node : MemoryNode) {rest : List Text}
    → at front root ≡ some node
    → below front names ≡ some rest
    → see names root ≡ see rest node
see-below [] names root node e b = ground (arith, e, b)
see-below (f ∷ front) [] root node e b = cc
see-below (f ∷ front) (o ∷ names) (file content m x) node e b = cc
see-below (f ∷ front) (o ∷ names) (symlink target m) node e b = cc
see-below (f ∷ front) (o ∷ names) (directory children m x) node {rest} e b =
    elim (Bool-cases (f == o)) [
      | inr miss ↦ cc (rw (miss, below) at b)
      | inl hit ↦ elim (Option-cases (get_child f children)) [
        | inl gone ↦ cc (rw (gone, at) at e)
        | inr (inner, found) ↦
            let here : get_child o children ≡ some inner =
              subst (λ n. get_child n children ≡ some inner) ((list_key.same_iff f o).0 hit)
                found in
            ap (λ (c : Option MemoryNode). sight_of (at_child names c)) here
            ∙ see-below front names inner node (rw (found, at) at e) (rw (hit, below) at b)
      ]
    ]

module _ (name : Text) (children : Children) (m : NodeMetadata) (x : Xattrs) where
  see-insert_child :
      (node : MemoryNode) (others : List Text)
      → see others (directory (insert_child name node children) m x)
        ≡ grafted (entered name (some others)) (see others (directory children m x)) node
  see-insert_child node [] = refl
  see-insert_child node (o ∷ others) = elim (Bool-cases (name == o)) [
    | inl hit ↦
        let there : get_child o (insert_child name node children) ≡ some node =
          get_child-insert_child name o node children ∙ rw hit refl in
        rw hit (ap (λ (c : Option MemoryNode). sight_of (at_child others c)) there)
    | inr miss ↦
        let there : get_child o (insert_child name node children) ≡ get_child o children =
          get_child-insert_child name o node children ∙ rw miss refl in
        rw miss (ap (λ (c : Option MemoryNode). sight_of (at_child others c)) there)
  ]

  see-remove_child :
      (others : List Text)
      → see others (directory (remove_child name children) m x)
        ≡ pruned (entered name (some others)) (see others (directory children m x))
  see-remove_child [] = refl
  see-remove_child (o ∷ others) = elim (Bool-cases (name == o)) [
    | inl hit ↦
        let there : get_child o (remove_child name children) ≡ none =
          get_child-remove_child name o children ∙ rw hit refl in
        rw hit (ap (λ (c : Option MemoryNode). sight_of (at_child others c)) there)
    | inr miss ↦
        let there : get_child o (remove_child name children) ≡ get_child o children =
          get_child-remove_child name o children ∙ rw miss refl in
        rw miss (ap (λ (c : Option MemoryNode). sight_of (at_child others c)) there)
  ]

module _ (front : List Text) (name : Text) (root : MemoryNode) (children : Children)
    (m : NodeMetadata) (x : Xattrs) (here : at front root ≡ some (directory children m x)) where
  pub grafted-insert_child :
      (node : MemoryNode) (others : List Text)
      → grafted
          (below front others)
          (see others root)
          (directory (insert_child name node children) m x)
        ≡ grafted (below (front ++ (name ∷ [])) others) (see others root) node
  grafted-insert_child node others = elim (Option-cases (below front others)) [
    | inl away ↦ rw (below-append front name others, away) refl
    | inr (rest, leads) ↦
        rw
          (
            below-append front name others,
            leads,
            see-below front others root (directory children m x) here leads,
          )
          (see-insert_child name children m x node rest)
  ]

  pub grafted-remove_child :
      (others : List Text)
      → grafted (below front others) (see others root) (directory (remove_child name children) m x)
        ≡ pruned (below (front ++ (name ∷ [])) others) (see others root)
  grafted-remove_child others = elim (Option-cases (below front others)) [
    | inl away ↦ rw (below-append front name others, away) refl
    | inr (rest, leads) ↦
        rw
          (
            below-append front name others,
            leads,
            see-below front others root (directory children m x) here leads,
          )
          (see-remove_child name children m x rest)
  ]
