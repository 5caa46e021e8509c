-- ===== src/MemoryFs.antt =====
-- crates/rustsmb-backend-memory/src/lib.rs: the in-memory file system. An operation is one step, with
-- no other between the accesses of its three tables; `now` is what the clock reads. Memory does not
-- run out, but for the largest capacity of a `Vec`.
pub mod Path
pub mod Node
pub mod Attributes
pub mod Handles
pub mod Changes
pub mod Runs
mod Examples
use rustsmb.Base.{
  ℕ, ◌+◌, ◌-◌, ◌%◌, ◌^◌, min, Bool, true, false, not, ◌&&◌, ◌||◌, Option, none, some, List, [], ◌∷◌,
  ◌++◌, nat_key, list_key, ◌==◌, nat_eq, ltb, leb, length, anyb, filterb, add_u64, if◌then◌else◌,
}
use rustsmb.Base.Bytes.{resize, take, drop, write_at}
use rustsmb.Base.Map
use rustsmb.Base.Map.{Map}
use rustsmb.Core.Action.{Result, ok, err, Action, pure, fail, or_fail, ◌>>=◌, ◌>>◌}
use rustsmb.Vfs.{
  Text, VfsError, not_found, already_exists, not_a_directory, is_a_directory, directory_not_empty,
  invalid_path, lock_conflict, invalid_handle, not_supported, Metadata, DirEntry, LockType,
  exclusive, shared, FileLock, FileHandle, CreateParams, is_create, is_excl, is_trunc,
  is_for_directory, to_open_flags,
}
use rustsmb.MemoryFs.Path.{slash, is_empty, normalize_path, split_path, components}
use rustsmb.MemoryFs.Node.{
  NodeMetadata, new_metadata, Xattrs, MemoryNode, file, directory, symlink, Children, end, child,
  get_child, remove_child, insert_child, to_vfs_metadata, metadata, change_metadata, xattrs, visit,
}

pub record OpenFileInfo : Type 0 where
  pub path : Text
  pub ref_count : ℕ

pub record MemoryBackend : Type 0 where
  pub root : MemoryNode
  pub open_files : Map ℕ OpenFileInfo
  pub inode_counter : ℕ
  pub locks : Map ℕ (List FileLock)

abbrev pub Op : Type 0 → Type 0
Op A = Action MemoryBackend VfsError A

unfoldable pub new : ℕ → MemoryBackend
new now = record {
  root = directory end (new_metadata now 0o755 1) [];
  open_files = [];
  inode_counter = 2;
  locks = [];
}

-- The node at a path.
unfoldable pub get_node : Text → MemoryNode → Result VfsError MemoryNode
get_node path root =
    let path' = normalize_path path in
    (visit (not_found path') (not_a_directory path') (components path') (λ node. (ok node, node))
      root).0

module _ {A : Type 0} where
  -- A change of the tree alone.
  abbrev pub on_root : Action MemoryNode VfsError A → Op A
  on_root act s = let (r, root) = act s.root in (r, record s { root = root })

  abbrev pub in_children : VfsError → Action Children VfsError A → Action MemoryNode VfsError A
  in_children blocked act (directory children m x) =
      let (r, children') = act children in (r, directory children' m x)
  in_children blocked act (file content m x) = (err blocked, file content m x)
  in_children blocked act (symlink target m) = (err blocked, symlink target m)

  -- What is done to the children of the directory at a path.
  unfoldable pub visit_parent : Text → Action Children VfsError A → Action MemoryNode VfsError A
  visit_parent parent act =
      let path = normalize_path parent in
      visit (not_found path) (not_a_directory path) (components path)
        (in_children (not_a_directory path) act)

abbrev pub counted : {A : Type 0} → Result VfsError A → ℕ → ℕ
counted (ok a) n = add_u64 n 1
counted (err e) n = n

abbrev pub add_child : VfsError → Text → MemoryNode → Action Children VfsError (Unit {0})
add_child exists name node children = elim (get_child name children) [
  | some old ↦ (err exists, children)
  | none ↦ (ok tt, insert_child name node children)
]

-- A new entry, with the next inode number.
unfoldable pub create_in : Text → VfsError → Text → (ℕ → MemoryNode) → Op (Unit {0})
unfolding visit_parent
create_in parent exists name make s =
    let ino = s.inode_counter in
    let (r, root) = visit_parent parent (add_child exists name (make ino)) s.root in
    (r, record s { root = root; inode_counter = counted r ino })

-- The parent and the name that a path names, for paths other than the root.
abbrev pub with_parent : {A : Type 0} → VfsError → Text → (Text → Text → Op A) → Op A
with_parent at_root path act =
    if is_empty path
    then fail at_root
    else (or_fail (split_path path) (invalid_path path) >>= λ cut. act cut.0 cut.1)

unfoldable pub mkdir : ℕ → Text → ℕ → Op (Unit {0})
unfolding create_in
mkdir now path mode =
    let path' = normalize_path path in
    with_parent (already_exists (slash ∷ [])) path' (λ parent name.
      create_in parent (already_exists path') name
        (λ ino. directory end (new_metadata now mode ino) []))

-- Texts that errors carry for a human reader only are left out.
abbrev pub no_text : Text
no_text = []

abbrev pub remove_directory : Text → Text → Action Children VfsError (Unit {0})
remove_directory path name children = elim (get_child name children) [
  | none ↦ (err (not_found path), children)
  | some node ↦ elim node [
    | directory inner m x ↦ elim inner [
      | end ↦ (ok tt, remove_child name children)
      | child n c rest ↦ (err (directory_not_empty path), children)
    ]
    | file content m x ↦ (err (not_a_directory path), children)
    | symlink target m ↦ (err (not_a_directory path), children)
  ]
]

unfoldable pub rmdir : Text → Op (Unit {0})
unfolding visit_parent
rmdir path =
    let path' = normalize_path path in
    with_parent (invalid_path no_text) path'
      (λ parent name. on_root (visit_parent parent (remove_directory path' name)))

abbrev pub remove_file : Text → Text → Action Children VfsError (Unit {0})
remove_file path name children = elim (get_child name children) [
  | none ↦ (err (not_found path), children)
  | some node ↦ elim node [
    | directory inner m x ↦ (err (is_a_directory path), children)
    | file content m x ↦ (ok tt, remove_child name children)
    | symlink target m ↦ (ok tt, remove_child name children)
  ]
]

unfoldable pub unlink : Text → Op (Unit {0})
unfolding visit_parent
unlink path =
    let path' = normalize_path path in
    with_parent (invalid_path no_text) path'
      (λ parent name. on_root (visit_parent parent (remove_file path' name)))

unfoldable pub make_symlink : ℕ → Text → Text → Op (Unit {0})
unfolding create_in
make_symlink now target linkpath =
    let path' = normalize_path linkpath in
    with_parent (invalid_path no_text) path' (λ parent name.
      create_in parent (already_exists path') name
        (λ ino. symlink target (new_metadata now 0o777 ino)))

abbrev pub take_child : VfsError → Text → Action Children VfsError MemoryNode
take_child missing name children = elim (get_child name children) [
  | none ↦ (err missing, children)
  | some node ↦ (ok node, remove_child name children)
]

abbrev pub put_child : Text → MemoryNode → Action Children VfsError (Unit {0})
put_child name node children = (ok tt, insert_child name node children)

-- The node is taken out of its directory before the other one is looked for.
abbrev pub move_node : Text → Text × Text → Text × Text → Op (Unit {0})
move_node old_path old target =
    on_root (visit_parent old.0 (take_child (not_found old_path) old.1)) >>= λ node.
    on_root (visit_parent target.0 (put_child target.1 node))

unfoldable pub rename : Text → Text → Op (Unit {0})
unfolding visit_parent
rename old_path new_path =
    let from = normalize_path old_path in
    let to = normalize_path new_path in
    if is_empty from || is_empty to
    then fail (invalid_path no_text)
    else if from == to
    then pure tt
    else (or_fail (split_path from) (invalid_path from) >>= λ old.
        or_fail (split_path to) (invalid_path to) >>= λ target. move_node from old target)
