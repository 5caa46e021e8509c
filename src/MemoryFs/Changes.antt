-- ===== src/MemoryFs/Changes.antt =====
-- What the operations that make and remove entries change: just the entry that the path names.
pub mod Entry
pub mod Made
pub mod Removed
pub mod Moved
use rustsmb.Base.{
  ℕ, ◌≡◌, ◌≢◌, ◌⊎◌, refl, sym, ap, ◌∙◌, subst, Bool, true, false, Option, none, some, List, [], ◌∷◌,
  ◌++◌, All, list_key, ◌==◌, Bool-cases, Option-cases, inl, inr, add_u64, if◌then◌else◌, arith,
}
use rustsmb.Core.Action.{Result, ok, err, Action, or_fail, fail, pure, ◌>>=◌}
use rustsmb.Vfs.{
  Text, VfsError, not_found, not_a_directory, already_exists, invalid_path, directory_not_empty,
  is_a_directory,
}
use rustsmb.MemoryFs.Path.{is_empty, join, components, normalize_path, split_path}
use rustsmb.MemoryFs.Path.Clean.{
  IsName, parts, Leads, parts-Leads, components-join, normalize_path-join, normalize_path-parts,
}
use rustsmb.MemoryFs.Node.{
  NodeMetadata, new_metadata, Xattrs, MemoryNode, file, directory, symlink, Children, end, child,
  get_child, remove_child, insert_child, visit,
}
use rustsmb.MemoryFs.Node.Sight.{
  Sight, at, see, below, grafted, visit_found, visit_nowhere, visit_still,
}
use rustsmb.MemoryFs.Node.Entries.{pruned, grafted-insert_child, grafted-remove_child}
use rustsmb.MemoryFs.{
  MemoryBackend, Op, on_root, in_children, visit_parent, counted, add_child, create_in, with_parent,
  no_text, mkdir, make_symlink, remove_directory, rmdir, remove_file, unlink,
}

-- The directory at a path.
pub record Dir (front : List Text) (root : MemoryNode) : Type 0 where
  pub children : Children
  pub own : NodeMetadata
  pub extra : Xattrs
  pub here : at front root ≡ some (directory children own extra)

module _ {A : Type 0} (front : List Text) (names : All IsName front)
    (act : Action Children VfsError A) (root : MemoryNode) where
  walked :
      visit_parent (join front) act root
      ≡ visit
          (not_found (join front))
          (not_a_directory (join front))
          front
          (in_children (not_a_directory (join front)) act)
          root
  unfolding visit_parent
  walked = rw (normalize_path-join front names, components-join front names) refl

  -- What is done in a directory changes it, and what is below it.
  pub visit_parent_found :
      (d : Dir front root)
      → ((visit_parent (join front) act root).0 ≡ (act d.children).0)
        × ((others : List Text)
            → see others (visit_parent (join front) act root).1
              ≡ grafted
                  (below front others)
                  (see others root)
                  (directory (act d.children).1 d.own d.extra))
  visit_parent_found d = rw walked (
      visit_found (not_found (join front)) (not_a_directory (join front))
        (in_children (not_a_directory (join front)) act) front root
        (directory d.children d.own d.extra) d.here)

  pub visit_parent_still :
      (d : Dir front root) (e : VfsError)
      → act d.children ≡ (err e, d.children)
      → visit_parent (join front) act root ≡ (err e, root)
  visit_parent_still d e same = rw walked (
      visit_still (not_found (join front)) (not_a_directory (join front))
        (in_children (not_a_directory (join front)) act) front root
        (directory d.children d.own d.extra) (err e) d.here
        (ap (λ (r : Result VfsError A × Children). (r.0, directory r.1 d.own d.extra)) same))

  -- There is a directory, or nothing is done.
  pub Dir-cases :
      Dir front root
      ⊎ ((Dir front root → ⊥)
          × ((e : VfsError) × (visit_parent (join front) act root ≡ (err e, root))))
  Dir-cases = elim (Option-cases (at front root)) [
    | inl gone ↦ inr (
      (λ d. cc (gone, d.here)),
      elim (visit_nowhere (not_found (join front)) (not_a_directory (join front))
          (in_children (not_a_directory (join front)) act) front root gone) [
            | inl h ↦ (not_found (join front), walked ∙ h)
            | inr h ↦ (not_a_directory (join front), walked ∙ h)
          ],
    )
    | inr (node, found) ↦ by_node node found
  ]
    where
      by_node :
          (node : MemoryNode)
          → at front root ≡ some node
          → Dir front root
            ⊎ ((Dir front root → ⊥)
                × ((e : VfsError) × (visit_parent (join front) act root ≡ (err e, root))))
      by_node (directory children m x) found =
          inl (record { children = children; own = m; extra = x; here = found })
      by_node (file content m x) found = inr (
        (λ d. cc (found, d.here)),
        (
          not_a_directory (join front),
          walked
              ∙ visit_still (not_found (join front)) (not_a_directory (join front))
                  (in_children (not_a_directory (join front)) act) front root (file content m x)
                  (err (not_a_directory (join front))) found refl,
        ),
      )
      by_node (symlink target m) found = inr (
        (λ d. cc (found, d.here)),
        (
          not_a_directory (join front),
          walked
              ∙ visit_still (not_found (join front)) (not_a_directory (join front))
                  (in_children (not_a_directory (join front)) act) front root (symlink target m)
                  (err (not_a_directory (join front))) found refl,
        ),
      )

pub snoc_cases :
    (ts : List Text)
    → (ts ≡ []) ⊎ ((front : List Text) × ((name : Text) × (ts ≡ front ++ (name ∷ []))))
snoc_cases [] = inl refl
snoc_cases (t ∷ ts) = elim (snoc_cases ts) [
  | inl last ↦ inr ([], (t, ap (λ (r : List Text). t ∷ r) last))
  | inr (front, (name, e)) ↦ inr (t ∷ front, (name, ap (λ (r : List Text). t ∷ r) e))
]

pub at_root : (path : Text) → parts path ≡ [] → is_empty (normalize_path path) ≡ true
at_root path e = ap is_empty (normalize_path-parts path ∙ ap join e)

-- A path is the root's, or leads to an entry of a directory.
pub path_cases :
    (path : Text)
    → (is_empty (normalize_path path) ≡ true)
      ⊎ ((front : List Text) × ((name : Text) × (parts path ≡ front ++ (name ∷ []))))
path_cases path = elim (snoc_cases (parts path)) [
  | inl root ↦ inl (at_root path root)
  | inr leads ↦ inr leads
]
