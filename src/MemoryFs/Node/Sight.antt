-- ===== src/MemoryFs/Node/Sight.antt =====
-- A file system as a function from paths to what stands there, and what a visit changes of it.
use rustsmb.Base.{
  ℕ, ◌≡◌, ◌⊎◌, refl, sym, ap, ◌∙◌, subst, Option, none, some, List, [], ◌∷◌, list_key, ◌==◌,
  Bool-cases, Option-cases, inl, inr, if◌then◌else◌, arith,
}
use rustsmb.Core.Action.{Result, err, Action}
use rustsmb.Vfs.{Text, VfsError}
use rustsmb.MemoryFs.Node.{
  NodeMetadata, Xattrs, MemoryNode, file, directory, symlink, Children, end, child, get_child,
  set_child, visit,
}

-- A node without the nodes below it.
pub data Sight : Type 0 where
  a_file : List ℕ → NodeMetadata → Xattrs → Sight
  a_directory : NodeMetadata → Xattrs → Sight
  a_symlink : Text → NodeMetadata → Sight

abbrev pub sight : MemoryNode → Sight
sight (file content m x) = a_file content m x
sight (directory children m x) = a_directory m x
sight (symlink target m) = a_symlink target m

-- The node at the end of the components.
abbrev pub at : List Text → MemoryNode → Option MemoryNode
at [] node = some node
at (name ∷ names) (file content m x) = none
at (name ∷ names) (symlink target m) = none
at (name ∷ names) (directory children m x) = elim (get_child name children) [
  | none ↦ none
  | some node ↦ at names node
]

abbrev pub sight_of : Option MemoryNode → Option Sight
sight_of none = none
sight_of (some node) = some (sight node)

abbrev pub at_child : List Text → Option MemoryNode → Option MemoryNode
at_child names none = none
at_child names (some node) = at names node

-- What stands at a path.
abbrev pub see : List Text → MemoryNode → Option Sight
see names node = sight_of (at names node)

-- What is left of `names` below the path `front`, where it leads there.
abbrev pub below : List Text → List Text → Option (List Text)
below [] names = some names
below (f ∷ front) [] = none
below (f ∷ front) (n ∷ names) = if f == n then below front names else none

get_child-set_child :
    (name j : Text) (node old : MemoryNode) (children : Children)
    → get_child name children ≡ some old
    → get_child j (set_child name node children)
      ≡ (if name == j then some node else get_child j children)
get_child-set_child name j node old end e = cc
get_child-set_child name j node old (child n x rest) e = ground (
  arith,
  list_key.same_iff n name,
  list_key.same_iff n j,
  list_key.same_iff name j,
  get_child-set_child name j node old rest,
)

set_child_self :
    (name : Text) (node : MemoryNode) (children : Children)
    → get_child name children ≡ some node
    → set_child name node children ≡ children
set_child_self name node end e = refl
set_child_self name node (child n x rest) e = ground (arith, set_child_self name node rest)

-- What stands at a path, where a node at another path is put in anew: `rest` is what leads on from it.
abbrev pub grafted : Option (List Text) → Option Sight → MemoryNode → Option Sight
grafted none old node = old
grafted (some rest) old node = see rest node

see-set_child :
    (name : Text) (names others : List Text) (inner left node : MemoryNode) (children : Children)
    (m : NodeMetadata) (x : Xattrs)
    → get_child name children ≡ some inner
    → ((rest : List Text) → see rest left ≡ grafted (below names rest) (see rest inner) node)
    → see others (directory (set_child name left children) m x)
      ≡ grafted (below (name ∷ names) others) (see others (directory children m x)) node
see-set_child name names [] inner left node children m x found same = refl
see-set_child name names (o ∷ others) inner left node children m x found same =
    elim (Bool-cases (name == o)) [
      | inl hit ↦
          let here : get_child o children ≡ some inner =
            subst (λ n. get_child n children ≡ some inner) ((list_key.same_iff name o).0 hit)
              found in
          let put : get_child o (set_child name left children) ≡ some left =
            ground (arith, get_child-set_child name o left inner children found) in
          rw hit (
            ap (λ (c : Option MemoryNode). sight_of (at_child others c)) put
            ∙ same others
            ∙ ap
                (λ (c : Option MemoryNode).
                  grafted (below names others) (sight_of (at_child others c)) node)
                (sym here))
      | inr miss ↦
          let same_child : get_child o (set_child name left children) ≡ get_child o children =
            ground (arith, get_child-set_child name o left inner children found) in
          rw miss (ap (λ (c : Option MemoryNode). sight_of (at_child others c)) same_child)
    ]

module _ {A : Type 0} (missing blocked : VfsError) (act : Action MemoryNode VfsError A) where
  -- Where a path leads to a node, a visit answers what is done there, and leaves just what that
  -- leaves, at the path and below; all else stays.
  pub visit_found :
      (names : List Text) (root node : MemoryNode)
      → at names root ≡ some node
      → ((visit missing blocked names act root).0 ≡ (act node).0)
        × ((others : List Text)
            → see others (visit missing blocked names act root).1
              ≡ grafted (below names others) (see others root) (act node).1)
  unfolding visit
  visit_found [] root node e =
      let same : root ≡ node = ground arith in
      (
        ap (λ (n : MemoryNode). (act n).0) same,
        λ others. ap (λ (n : MemoryNode). see others (act n).1) same,
      )
  visit_found (name ∷ names) (file content m x) node e = cc
  visit_found (name ∷ names) (symlink target m) node e = cc
  visit_found (name ∷ names) (directory children m x) node e =
      elim (Option-cases (get_child name children)) [
        | inl gone ↦ cc (rw (gone, at) at e)
        | inr (inner, found) ↦
            let (answer, sights) = visit_found names inner node (rw (found, at) at e) in
            rw found (
              answer,
              λ others.
                  see-set_child name names others inner (visit missing blocked names act inner).1
                    (act node).1 children m x found sights,
            )
      ]

  -- Where it leads to none, the visit fails and changes nothing.
  pub visit_nowhere :
      (names : List Text) (root : MemoryNode)
      → at names root ≡ none
      → ((visit missing blocked names act root ≡ (err missing, root))
          ⊎ (visit missing blocked names act root ≡ (err blocked, root)))
  unfolding visit
  visit_nowhere [] root e = cc
  visit_nowhere (name ∷ names) (file content m x) e = inr refl
  visit_nowhere (name ∷ names) (symlink target m) e = inr refl
  visit_nowhere (name ∷ names) (directory children m x) e =
      elim (Option-cases (get_child name children)) [
        | inl gone ↦ inl (rw gone refl)
        | inr (inner, found) ↦ elim (visit_nowhere names inner (rw (found, at) at e)) [
          | inl h ↦ inl (rw found rw h rw (set_child_self name inner children found) refl)
          | inr h ↦ inr (rw found rw h rw (set_child_self name inner children found) refl)
        ]
      ]

  -- What changes nothing where the path leads, changes nothing.
  pub visit_still :
      (names : List Text) (root node : MemoryNode) (r : Result VfsError A)
      → at names root ≡ some node
      → act node ≡ (r, node)
      → visit missing blocked names act root ≡ (r, root)
  unfolding visit
  visit_still [] root node r e same =
      let here : root ≡ node = ground arith in
      subst (λ (n : MemoryNode). act n ≡ (r, n)) (sym here) same
  visit_still (name ∷ names) (file content m x) node r e same = cc
  visit_still (name ∷ names) (symlink target m) node r e same = cc
  visit_still (name ∷ names) (directory children m x) node r e same =
      elim (Option-cases (get_child name children)) [
        | inl gone ↦ cc (rw (gone, at) at e)
        | inr (inner, found) ↦
            rw found rw (visit_still names inner node r (rw (found, at) at e) same) rw
              (set_child_self name inner children found) refl
      ]
