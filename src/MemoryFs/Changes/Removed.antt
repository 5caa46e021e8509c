-- ===== src/MemoryFs/Changes/Removed.antt =====
-- `rmdir` and `unlink`: one entry less, or nothing.
use rustsmb.Base.{
  ◌≡◌, ◌⊎◌, refl, sym, ap, ◌∙◌, Bool, true, false, some, List, [], ◌∷◌, ◌++◌, All, list_key,
  Option-cases, inl, inr,
}
use rustsmb.Core.Action.{Result, ok, err, Action}
use rustsmb.Vfs.{
  Text, VfsError, invalid_path, not_found, not_a_directory, directory_not_empty, is_a_directory,
}
use rustsmb.MemoryFs.Path.{join, normalize_path}
use rustsmb.MemoryFs.Path.Clean.{IsName, parts, parts-Leads}
use rustsmb.MemoryFs.Node.{
  MemoryNode, file, directory, symlink, Children, end, child, get_child, remove_child,
}
use rustsmb.MemoryFs.Node.Sight.{at, see, below, grafted}
use rustsmb.MemoryFs.Node.Entries.{pruned, grafted-remove_child}
use rustsmb.MemoryFs.{
  MemoryBackend, no_text, on_root, visit_parent, remove_directory, rmdir, remove_file, unlink,
}
use rustsmb.MemoryFs.Changes.{
  snoc_cases, at_root, visit_parent_found, visit_parent_still, Dir-cases,
}
use rustsmb.MemoryFs.Changes.Entry.{at_entry, at_parent}
use rustsmb.MemoryFs.Changes.Made.{Refused}

-- What stood at a path is gone, and that is all that has changed.
pub record Removed (front : List Text) (name : Text) (s : MemoryBackend)
    (out : Result VfsError (Unit {0}) × MemoryBackend) : Type 0 where
  pub answer : out.0 ≡ ok tt
  pub sights :
      (others : List Text)
      → see others out.1.root ≡ pruned (below (front ++ (name ∷ [])) others) (see others s.root)
  pub kept : out.1 ≡ record s { root = out.1.root }

-- A node of some kind that a path names is removed, and where there is none of this kind, nothing is
-- done.
abbrev pub RemovesOnly :
    (MemoryNode → Bool)
    → List Text
    → Text
    → MemoryBackend
    → Result VfsError (Unit {0}) × MemoryBackend
    → Type 0
RemovesOnly kind front name s out =
    (((node : MemoryNode) × ((at (front ++ (name ∷ [])) s.root ≡ some node) × (kind node ≡ true)))
      × Removed front name s out)
    ⊎ (((node : MemoryNode) → at (front ++ (name ∷ [])) s.root ≡ some node → (kind node ≡ true) → ⊥)
        × Refused s out)

-- What a removal does in a directory.
abbrev TakesFrom :
    (MemoryNode → Bool) → Text → Action Children VfsError (Unit {0}) → Children → Type 0
TakesFrom kind name act children =
    (((node : MemoryNode) × ((get_child name children ≡ some node) × (kind node ≡ true)))
      × (act children ≡ (ok tt, remove_child name children)))
    ⊎ (((node : MemoryNode) → get_child name children ≡ some node → kind node ≡ true → ⊥)
        × ((e : VfsError) × (act children ≡ (err e, children))))

module _ (kind : MemoryNode → Bool) (front : List Text) (name : Text) (names : All IsName front)
    (act : Action Children VfsError (Unit {0}))
    (takes : (children : Children) → TakesFrom kind name act children) (s : MemoryBackend) where
  visit_parent-RemovesOnly :
      RemovesOnly kind front name s (on_root (visit_parent (join front) act) s)
  visit_parent-RemovesOnly = elim (Dir-cases front names act s.root) [
    | inr (away, (e, same)) ↦
        inr ((λ node found k. away (at_parent front name s.root node found)), (e, rw same refl))
    | inl d ↦ elim (takes d.children) [
      | inl ((node, (found, k)), does) ↦
          let (answer, sights) = visit_parent_found front names act s.root d in
          inl (
            (node, (at_entry front name s.root d ∙ found, k)),
            record {
              answer = answer ∙ ap (λ (r : Result VfsError (Unit {0}) × Children). r.0) does;
              sights = λ others.
                  sights others
                  ∙ ap
                      (λ (r : Result VfsError (Unit {0}) × Children).
                        grafted (below front others) (see others s.root)
                          (directory r.1 d.own d.extra))
                      does
                  ∙ grafted-remove_child front name s.root d.children d.own d.extra d.here others;
              kept = refl;
            },
          )
      | inr (other, (e, same)) ↦ inr (
        (λ node found k. other node (sym (at_entry front name s.root d) ∙ found) k),
        (e, rw (visit_parent_still front names act s.root d e same) refl),
      )
    ]
  ]

abbrev pub is_empty_directory : MemoryNode → Bool
is_empty_directory (directory end m x) = true
is_empty_directory (directory (child n c rest) m x) = false
is_empty_directory (file content m x) = false
is_empty_directory (symlink target m) = false

abbrev is_leaf : MemoryNode → Bool
is_leaf (directory children m x) = false
is_leaf (file content m x) = true
is_leaf (symlink target m) = true

module _ (path name : Text) where
  remove_file-TakesFrom :
      (children : Children) → TakesFrom is_leaf name (remove_file path name) children
  remove_file-TakesFrom children = elim (Option-cases (get_child name children)) [
    | inl gone ↦
        inr ((λ node found k. cc (gone, found)), (not_found path, rw (gone, remove_file) refl))
    | inr (node, found) ↦ by_node node found
  ]
    where
      by_node :
          (node : MemoryNode)
          → get_child name children ≡ some node
          → TakesFrom is_leaf name (remove_file path name) children
      by_node (directory inner m x) found =
          inr ((λ node h k. cc (found, h, k)), (is_a_directory path, rw (found, remove_file) refl))
      by_node (file content m x) found =
          inl ((file content m x, (found, refl)), rw (found, remove_file) refl)
      by_node (symlink target m) found =
          inl ((symlink target m, (found, refl)), rw (found, remove_file) refl)

  remove_directory-TakesFrom :
      (children : Children)
      → TakesFrom is_empty_directory name (remove_directory path name) children
  remove_directory-TakesFrom children = elim (Option-cases (get_child name children)) [
    | inl gone ↦
        inr ((λ node found k. cc (gone, found)), (not_found path, rw (gone, remove_directory) refl))
    | inr (node, found) ↦ by_node node found
  ]
    where
      by_node :
          (node : MemoryNode)
          → get_child name children ≡ some node
          → TakesFrom is_empty_directory name (remove_directory path name) children
      by_node (directory end m x) found =
          inl ((directory end m x, (found, refl)), rw (found, remove_directory) refl)
      by_node (directory (child n c rest) m x) found = inr (
        (λ node h k. cc (found, h, k)),
        (directory_not_empty path, rw (found, remove_directory) refl),
      )
      by_node (file content m x) found = inr (
        (λ node h k. cc (found, h, k)),
        (not_a_directory path, rw (found, remove_directory) refl),
      )
      by_node (symlink target m) found = inr (
        (λ node h k. cc (found, h, k)),
        (not_a_directory path, rw (found, remove_directory) refl),
      )

module _ (path : Text) (s : MemoryBackend) (front : List Text) (name : Text)
    (leads : parts path ≡ front ++ (name ∷ [])) where
  -- `unlink` removes what its path names where that is no directory, and nothing else changes;
  -- where the path names a directory or nothing, it answers an error and changes nothing.
  pub unlink_lem : RemovesOnly is_leaf front name s (unlink path s)
  unfolding unlink
  unlink_lem =
      let l = parts-Leads path front name leads in
      rw (l.named, l.cut)
        (visit_parent-RemovesOnly is_leaf front name l.front_names
          (remove_file (normalize_path path) name)
          (remove_file-TakesFrom (normalize_path path) name) s)

  pub rmdir_entry : RemovesOnly is_empty_directory front name s (rmdir path s)
  unfolding rmdir
  rmdir_entry =
      let l = parts-Leads path front name leads in
      rw (l.named, l.cut)
        (visit_parent-RemovesOnly is_empty_directory front name l.front_names
          (remove_directory (normalize_path path) name)
          (remove_directory-TakesFrom (normalize_path path) name) s)

-- `rmdir` of a path that names the root answers an error, whatever the root has. Any other path leads
-- to a name in a directory: where an empty directory stands there, `rmdir` removes it, and nothing
-- else changes; where anything else stands there, or nothing, it answers an error and changes nothing.
pub rmdir_lem :
    (path : Text) (s : MemoryBackend)
    → ((parts path ≡ []) × (rmdir path s ≡ (err (invalid_path no_text), s)))
      ⊎ ((front : List Text) × (name : Text) × (parts path ≡ front ++ (name ∷ []))
          × RemovesOnly is_empty_directory front name s (rmdir path s))
unfolding rmdir
rmdir_lem path s = elim (snoc_cases (parts path)) [
  | inl root ↦ inl (root, rw (at_root path root) refl)
  | inr (front, (name, leads)) ↦ inr (front, name, leads, rmdir_entry path s front name leads)
]
