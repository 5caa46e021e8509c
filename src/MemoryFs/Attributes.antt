-- ===== src/MemoryFs/Attributes.antt =====
-- crates/rustsmb-backend-memory/src/lib.rs, lines 523-679, 790-808 and 1009-1217: the operations of the
-- in-memory file system on a node that a path names.
use rustsmb.Base.{
  ltb, length, ◌^◌, ◌&&◌, ℕ, ◌^◌, ◌-◌, true, false, Option, none, some, List, [], ◌∷◌, list_key,
  if◌then◌else◌,
}
use rustsmb.Base.Bytes.{resize}
use rustsmb.Base.Map
use rustsmb.Base.Map.{Map, keys}
use rustsmb.Core.Action.{Result, ok, err, Action, pure, fail, ◌>>=◌}
use rustsmb.Vfs.{
  Text, VfsError, not_found, not_a_directory, is_a_directory, invalid_path, not_supported, Metadata,
  DirEntry, BackendCapabilities, FsStats,
}
use rustsmb.MemoryFs.Path.{is_empty, normalize_path, components}
use rustsmb.MemoryFs.Node.{
  NodeMetadata, Xattrs, MemoryNode, file, directory, symlink, Children, end, child, to_vfs_metadata,
  change_metadata, xattrs, visit,
}
use rustsmb.MemoryFs.{Op, get_node, on_root, no_text}

-- A read of the node at a path.
abbrev read_node : {A : Type 0} → Text → (MemoryNode → Result VfsError A) → Op A
read_node path look = (λ s. (get_node path s.root, s)) >>= λ node s. (look node, s)

unfoldable pub stat : Text → Op Metadata
stat path = read_node path (λ node. ok (to_vfs_metadata node))

abbrev listing : Children → List DirEntry
listing end = []
listing (child name node rest) =
    record { name = name; metadata = to_vfs_metadata node } ∷ listing rest

abbrev entries_of : Text → MemoryNode → Result VfsError (List DirEntry)
entries_of path (directory children m x) = ok (listing children)
entries_of path (file content m x) = err (not_a_directory path)
entries_of path (symlink target m) = err (not_a_directory path)

unfoldable pub readdir : Text → Op (List DirEntry)
readdir path = read_node path (entries_of (normalize_path path))

abbrev target_of : MemoryNode → Result VfsError Text
target_of (symlink target m) = ok target
target_of (file content m x) = err (invalid_path no_text)
target_of (directory children m x) = err (invalid_path no_text)

unfoldable pub readlink : Text → Op Text
readlink path = read_node path target_of

-- A change of the node at a path.
unfoldable pub at_path : {A : Type 0} → Text → Action MemoryNode VfsError A → Op A
at_path path act =
    let path' = normalize_path path in
    on_root (visit (not_found path') (not_a_directory path') (components path') act)

abbrev pub changing : (NodeMetadata → NodeMetadata) → Action MemoryNode VfsError (Unit {0})
changing f node = (ok tt, change_metadata f node)

unfoldable pub chmod : ℕ → Text → ℕ → Op (Unit {0})
unfolding at_path
chmod now path mode = at_path path (changing (λ m. record m { mode = mode; ctime = now }))

unfoldable pub chown : ℕ → Text → ℕ → ℕ → Op (Unit {0})
unfolding at_path
chown now path uid gid =
    at_path path (changing (λ m. record m { uid = uid; gid = gid; ctime = now }))

unfoldable pub utimes : ℕ → Text → ℕ → ℕ → Op (Unit {0})
unfolding at_path
utimes now path atime mtime =
    at_path path (changing (λ m. record m { atime = atime; mtime = mtime; ctime = now }))

-- The answer `none` stands for a panic: the content would have to grow past the largest capacity.
abbrev pub resized : ℕ → Text → ℕ → Action MemoryNode VfsError (Option (Unit {0}))
resized now path size (file content m x) =
    if ltb (length content) size && ltb (2 ^ 63 - 1) size
    then (ok none, file content m x)
    else (ok (some tt), file (resize size content) (record m { mtime = now; ctime = now }) x)
resized now path size (directory children m x) = (err (is_a_directory path), directory children m x)
resized now path size (symlink target m) = (err (invalid_path path), symlink target m)

unfoldable pub truncate : ℕ → Text → ℕ → Op (Option (Unit {0}))
unfolding at_path
truncate now path size =
    let path' = normalize_path path in
    if is_empty path' then fail (is_a_directory path') else at_path path (resized now path' size)

abbrev xattrs_of : {A : Type 0} → (Xattrs → Result VfsError A) → MemoryNode → Result VfsError A
xattrs_of look node = elim (xattrs node) [ none ↦ err not_supported | some x ↦ look x ]

abbrev or_missing : {A : Type 0} → Option A → Result VfsError A
or_missing none = err (not_found no_text)
or_missing (some a) = ok a

unfoldable pub getxattr : Text → Text → Op (List ℕ)
getxattr path name = read_node path (xattrs_of (λ x. or_missing (Map.get name x)))

unfoldable pub listxattr : Text → Op (List Text)
listxattr path = read_node path (xattrs_of (λ x. ok (keys x)))

abbrev pub putting_xattr : Text → List ℕ → Action MemoryNode VfsError (Unit {0})
putting_xattr name value (file content m x) = (ok tt, file content m (Map.insert name value x))
putting_xattr name value (directory children m x) =
    (ok tt, directory children m (Map.insert name value x))
putting_xattr name value (symlink target m) = (err not_supported, symlink target m)

unfoldable pub setxattr : Text → Text → List ℕ → Op (Unit {0})
unfolding at_path
setxattr path name value = at_path path (putting_xattr name value)

abbrev pub without : Text → Xattrs → Result VfsError (Unit {0}) × Xattrs
without name x = elim (Map.get name x) [
  | none ↦ (err (not_found no_text), x)
  | some value ↦ (ok tt, Map.remove name x)
]

abbrev pub removing_xattr : Text → Action MemoryNode VfsError (Unit {0})
removing_xattr name (file content m x) = let (r, x') = without name x in (r, file content m x')
removing_xattr name (directory children m x) =
    let (r, x') = without name x in (r, directory children m x')
removing_xattr name (symlink target m) = (err not_supported, symlink target m)

unfoldable pub removexattr : Text → Text → Op (Unit {0})
unfolding at_path
removexattr path name = at_path path (removing_xattr name)

unfoldable pub link : Text → Text → Op (Unit {0})
link src dst = fail not_supported

unfoldable pub capabilities : BackendCapabilities
capabilities = record {
  locking = true;
  notify = false;
  sparse = false;
  xattr = true;
  hard_links = false;
  symlinks = true;
  max_file_size = 2 ^ 64 - 1;
  max_path_length = 4096;
  case_sensitive = true;
  atomic_rename = true;
}

unfoldable pub statfs : Op FsStats
statfs = pure (record {
  blocks = 2 ^ 64 - 1;
  blocks_free = 2 ^ 64 - 1;
  blocks_available = 2 ^ 64 - 1;
  block_size = 4096;
  files = 2 ^ 64 - 1;
  files_free = 2 ^ 64 - 1;
  fsid = 0x4D454D4F;
  namelen = 255;
})
