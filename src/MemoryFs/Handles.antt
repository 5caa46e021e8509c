-- ===== src/MemoryFs/Handles.antt =====
-- crates/rustsmb-backend-memory/src/lib.rs, lines 257-543 and 1020-1087: opening, reading, writing,
-- closing and locking. Open files stand under their inode numbers. `id` is what a global counter
-- gives a new handle.
pub mod Bytes
pub mod Contents
use rustsmb.Base.{
  ℕ, ◌+◌, ◌-◌, ◌%◌, ◌^◌, min, Bool, true, false, not, ◌&&◌, ◌||◌, Option, none, some, List, [], ◌∷◌,
  ◌++◌, nat_key, list_key, ◌==◌, nat_eq, ltb, leb, length, anyb, filterb, add_u64, if◌then◌else◌,
}
use rustsmb.Base.Bytes.{resize, take, drop, write_at}
use rustsmb.Base.Map
use rustsmb.Base.Map.{Map, is_stored}
use rustsmb.Core.Action.{Result, ok, err, Action, pure, fail, or_fail, ◌>>=◌, ◌>>◌}
use rustsmb.Vfs.{
  Text, VfsError, not_found, already_exists, not_a_directory, is_a_directory, invalid_path,
  lock_conflict, invalid_handle, Metadata, LockType, exclusive, shared, FileLock, FileHandle,
  CreateParams, is_create, is_excl, is_trunc, is_for_directory, to_open_flags,
}
use rustsmb.MemoryFs.Path.{is_empty, split_path, normalize_path, components}
use rustsmb.MemoryFs.Node.{
  NodeMetadata, new_metadata, MemoryNode, file, directory, symlink, Children, get_child, set_child,
  insert_child, to_vfs_metadata, metadata, visit,
}
use rustsmb.MemoryFs.{
  OpenFileInfo, MemoryBackend, Op, get_node, on_root, visit_parent, mkdir, no_text,
}

-- `ref_count += 1` on 32 bits.
abbrev pub count_open : OpenFileInfo → OpenFileInfo
count_open i = record i { ref_count = (i.ref_count + 1) % 2 ^ 32 }

unfoldable pub register : ℕ → Text → Map ℕ OpenFileInfo → Map ℕ OpenFileInfo
register node_id path files = elim (Map.get node_id files) [
  | some info ↦ Map.modify node_id count_open files
  | none ↦ Map.insert node_id (record { path = path; ref_count = 1 }) files
]

abbrev pub handle_for : ℕ → ℕ → FileHandle
handle_for id node_id = record {
  id = id;
  persistent_id = 0;
  volatile_id = 0;
  backend_internal_id = some node_id;
}

-- The end of an open: the file is registered, and its handle made.
abbrev pub opened : ℕ → Text → ℕ → Op FileHandle
opened id path node_id s =
    (ok (handle_for id node_id), record s { open_files = register node_id path s.open_files })

-- A new directory is registered as not open before.
abbrev pub opened_new : ℕ → Text → ℕ → Op FileHandle
opened_new id path node_id s = (
  ok (handle_for id node_id),
  record s { open_files = Map.insert node_id (record { path = path; ref_count = 1 }) s.open_files },
)

abbrev pub open_found : ℕ → ℕ → Text → MemoryNode → Op FileHandle
open_found id flags path (directory children m x) =
    if is_create flags && is_excl flags then fail (already_exists path) else opened id path m.ino
open_found id flags path (file content m x) = fail (not_a_directory path)
open_found id flags path (symlink target m) = fail (not_a_directory path)

abbrev pub open_missing : ℕ → ℕ → ℕ → Text → VfsError → Op FileHandle
open_missing now id flags path (not_found t) =
    if is_create flags
    then (mkdir now path 0o755 >> (λ s. (get_node path s.root, s)) >>= λ node.
        opened_new id path (metadata node).ino)
    else fail (not_found t)
open_missing now id flags path e = fail e

unfoldable pub open_directory : ℕ → ℕ → ℕ → Text → Op FileHandle
open_directory now id flags path s = elim (get_node path s.root) [
  | ok node ↦ open_found id flags path node s
  | err e ↦ open_missing now id flags path e s
]

abbrev pub emptied : ℕ → MemoryNode → MemoryNode
emptied now (file content m x) = file [] (record m { mtime = now; ctime = now }) x
emptied now (directory children m x) = directory children m x
emptied now (symlink target m) = symlink target m

-- An entry that is there: its inode number, and whether it is new.
abbrev pub open_entry :
    ℕ → ℕ → Text → Text → Children → MemoryNode → Result VfsError (ℕ × Bool) × Children
open_entry now flags path name children (directory inner m x) =
    (err (is_a_directory path), children)
open_entry now flags path name children (file content m x) = (
  ok (m.ino, false),
  if is_trunc flags then set_child name (emptied now (file content m x)) children else children,
)
open_entry now flags path name children (symlink target m) = (ok (m.ino, false), children)

abbrev pub open_child : ℕ → ℕ → Text → Text → ℕ → Action Children VfsError (ℕ × Bool)
open_child now flags path name ino children = elim (get_child name children) [
  | some node ↦
      if is_create flags && is_excl flags
      then (err (already_exists path), children)
      else open_entry now flags path name children node
  | none ↦
      if is_create flags
      then (ok (ino, true), insert_child name (file [] (new_metadata now 0o644 ino) []) children)
      else (err (not_found path), children)
]

abbrev counted_new : Result VfsError (ℕ × Bool) → ℕ → ℕ
counted_new (ok (node_id, created)) n = if created then add_u64 n 1 else n
counted_new (err e) n = n

unfoldable pub open_in : ℕ → ℕ → Text → Text → Text → Op (ℕ × Bool)
open_in now flags path parent name s =
    let ino = s.inode_counter in
    let (r, root) = visit_parent parent (open_child now flags path name ino) s.root in
    (r, record s { root = root; inode_counter = counted_new r ino })

-- `open`
unfoldable pub open_path : ℕ → ℕ → Text → CreateParams → Op FileHandle
unfolding open_directory open_in
open_path now id path params =
    let path' = normalize_path path in
    let flags = to_open_flags params in
    if is_for_directory flags
    then open_directory now id flags path'
    else (or_fail (split_path path') (invalid_path no_text) >>= λ cut.
        open_in now flags path' cut.0 cut.1 >>= λ found. opened id path' found.0)

-- The open file of a handle.
unfoldable pub open_file : FileHandle → Op OpenFileInfo
open_file handle s =
    (or_fail handle.backend_internal_id invalid_handle >>= λ node_id s.
    or_fail (Map.get node_id s.open_files) invalid_handle s)
      s

abbrev pub part_of : ℕ → ℕ → Text → MemoryNode → Result VfsError (List ℕ)
part_of offset length_ path (file content m x) =
    if leb (length content) offset
    then ok []
    else ok (take (min (offset + length_) (length content) - offset) (drop offset content))
part_of offset length_ path (directory children m x) = err (is_a_directory path)
part_of offset length_ path (symlink target m) = err invalid_handle

unfoldable pub read : FileHandle → ℕ → ℕ → Op (List ℕ)
unfolding open_file
read handle offset length_ = open_file handle >>= λ info s.
    ((λ s. (get_node info.path s.root, s)) >>= λ node s. (part_of offset length_ info.path node, s))
      s

-- The largest capacity of a `Vec<u8>`.
abbrev isize_max : ℕ
isize_max = 2 ^ 63 - 1

-- Whether a write panics: its end, which wraps on 64 bits, comes before its offset, or the content would
-- have to grow past the largest capacity.
unfoldable pub write_panics : ℕ → List ℕ → List ℕ → Bool
write_panics offset bytes content =
    let last = add_u64 offset (length bytes) in
    ltb last offset || (ltb (length content) last && ltb isize_max last)

-- The bytes of a file after a write. One that panics may have made the content longer.
unfoldable pub overwritten : ℕ → List ℕ → List ℕ → List ℕ
unfolding write_panics
overwritten offset bytes content =
    let last = add_u64 offset (length bytes) in
    let longer =
      if ltb (length content) last && leb last isize_max then resize last content else content in
    if write_panics offset bytes content then longer else write_at offset bytes longer

-- The answer `none` stands for a panic, with which the call ends.
abbrev pub write_node : ℕ → ℕ → List ℕ → Text → Action MemoryNode VfsError (Option ℕ)
write_node now offset bytes path (file content m x) =
    let panics = write_panics offset bytes content in
    (
      ok (if panics then none else some (length bytes % 2 ^ 32)),
      file (overwritten offset bytes content)
          (record m {
            mtime = if panics then m.mtime else now;
            ctime = if panics then m.ctime else now;
          })
          x,
    )
write_node now offset bytes path (directory children m x) =
    (err (is_a_directory path), directory children m x)
write_node now offset bytes path (symlink target m) = (err invalid_handle, symlink target m)

unfoldable pub write : ℕ → FileHandle → ℕ → List ℕ → Op (Option ℕ)
unfolding open_file
write now handle offset bytes = open_file handle >>= λ info.
    if is_empty info.path
    then fail (is_a_directory info.path)
    else on_root (
        visit (not_found info.path) (not_a_directory info.path) (components info.path)
          (write_node now offset bytes info.path))

-- `ref_count -= 1`, and 0 is the end of the entry. A count of 0 wraps.
abbrev release : ℕ → Option OpenFileInfo → Map ℕ OpenFileInfo → Map ℕ OpenFileInfo
release node_id none files = files
release node_id (some info) files =
    let left = (info.ref_count + (2 ^ 32 - 1)) % 2 ^ 32 in
    if nat_eq left 0
    then Map.remove node_id files
    else Map.modify node_id (λ i. record i { ref_count = left }) files

unfoldable pub close : FileHandle → Op (Unit {0})
close handle = or_fail handle.backend_internal_id invalid_handle >>= λ node_id s. (
  ok tt,
  record s {
    open_files = release node_id (Map.get node_id s.open_files) s.open_files;
    locks = Map.remove node_id s.locks;
  },
)

unfoldable pub fsync : FileHandle → Op (Unit {0})
unfolding open_file
fsync handle = open_file handle >> pure tt

unfoldable pub fstat : FileHandle → Op Metadata
unfolding open_file
fstat handle = open_file handle >>= λ info s.
    ((λ s. (get_node info.path s.root, s)) >>= λ node. pure (to_vfs_metadata node)) s

abbrev lock_end : FileLock → ℕ
lock_end l = if nat_eq l.length 0 then 2 ^ 64 - 1 else add_u64 l.start l.length

abbrev is_exclusive : LockType → Bool
is_exclusive exclusive = true
is_exclusive shared = false

unfoldable pub locks_conflict : FileLock → FileLock → Bool
locks_conflict lock existing =
    ltb lock.start (lock_end existing)
    && ltb existing.start (lock_end lock)
    && (is_exclusive existing.lock_type || is_exclusive lock.lock_type)

abbrev or_none : Option (List FileLock) → List FileLock
or_none none = []
or_none (some ls) = ls

abbrev pub locks_of : ℕ → MemoryBackend → List FileLock
locks_of node_id s = or_none (Map.get node_id s.locks)

abbrev pub with_lock : ℕ → FileLock → Op (Unit {0})
with_lock node_id lock s =
    if anyb (locks_conflict lock) (locks_of node_id s) then (err lock_conflict, s) else (
      ok tt,
      record s { locks = Map.insert node_id (locks_of node_id s ++ (lock ∷ [])) s.locks },
    )

abbrev pub on_open_node : {A : Type 0} → FileHandle → (ℕ → Op A) → Op A
on_open_node handle act = or_fail handle.backend_internal_id invalid_handle >>= λ node_id s.
    if Map.contains_key node_id s.open_files then act node_id s else (err invalid_handle, s)

unfoldable pub lock_range : FileHandle → FileLock → Op (Unit {0})
unfolding locks_conflict
lock_range handle lock = on_open_node handle (λ node_id. with_lock node_id lock)

abbrev pub other_range : FileLock → FileLock → Bool
other_range lock l = not (nat_eq l.start lock.start && nat_eq l.length lock.length)

unfoldable pub unlock_range : FileHandle → FileLock → Op (Unit {0})
unlock_range handle lock = on_open_node handle (λ node_id s.
    (ok tt, record s { locks = Map.modify node_id (filterb (other_range lock)) s.locks }))
