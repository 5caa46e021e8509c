-- ===== src/MemoryFs/Node.antt =====
-- crates/rustsmb-backend-memory/src/lib.rs, lines 43-168 and 226-247: the nodes of the in-memory file
-- system, and the walk from a node along the components of a path.
pub mod Sight
pub mod Entries
use rustsmb.Base.{
  ℕ, ◌+◌, ◌*◌, ◌/◌, Bool, true, false, Option, none, some, List, [], ◌∷◌, list_key, ◌==◌, length,
  if◌then◌else◌,
}
use rustsmb.Base.Map.{Map}
use rustsmb.Core.Action.{Result, ok, err, Action}
use rustsmb.Vfs.{Text, VfsError, Metadata, FileType, regular, directory_type, symlink_type}

pub record NodeMetadata : Type 0 where
  pub mode : ℕ
  pub uid : ℕ
  pub gid : ℕ
  pub nlink : ℕ
  pub ino : ℕ
  pub atime : ℕ
  pub mtime : ℕ
  pub ctime : ℕ
  pub crtime : ℕ

-- `NodeMetadata::new` at the time `now`.
unfoldable pub new_metadata : ℕ → ℕ → ℕ → NodeMetadata
new_metadata now mode ino = record {
  mode = mode;
  uid = 0;
  gid = 0;
  nlink = 1;
  ino = ino;
  atime = now;
  mtime = now;
  ctime = now;
  crtime = now;
}

abbrev pub Xattrs : Type 0
Xattrs = Map Text (List ℕ)

-- A file's content, a directory's children, a link's target; and what all nodes carry.
mutual
  pub data MemoryNode : Type 0 where
    file : List ℕ → NodeMetadata → Xattrs → MemoryNode
    directory : Children → NodeMetadata → Xattrs → MemoryNode
    symlink : Text → NodeMetadata → MemoryNode

  pub data Children : Type 0 where
    end : Children
    child : Text → MemoryNode → Children → Children

abbrev pub get_child : Text → Children → Option MemoryNode
get_child name end = none
get_child name (child n node rest) = if n == name then some node else get_child name rest

abbrev pub remove_child : Text → Children → Children
remove_child name end = end
remove_child name (child n node rest) =
    let later = remove_child name rest in if n == name then later else child n node later

abbrev pub insert_child : Text → MemoryNode → Children → Children
insert_child name node children = child name node (remove_child name children)

-- What a write through `get_mut` leaves.
abbrev pub set_child : Text → MemoryNode → Children → Children
set_child name node end = end
set_child name node (child n old rest) =
    let later = set_child name node rest in
    if n == name then child n node rest else child n old later

abbrev pub count : Children → ℕ
count end = 0
count (child name node rest) = count rest + 1

unfoldable pub file_type : MemoryNode → FileType
file_type (file content m x) = regular
file_type (directory children m x) = directory_type
file_type (symlink target m) = symlink_type

-- The length of a link's target is that of its code points, where all are ASCII.
unfoldable pub size : MemoryNode → ℕ
size (file content m x) = length content
size (directory children m x) = count children
size (symlink target m) = length target

abbrev pub metadata : MemoryNode → NodeMetadata
metadata (file content m x) = m
metadata (directory children m x) = m
metadata (symlink target m) = m

-- A write through `metadata_mut`.
abbrev pub change_metadata : (NodeMetadata → NodeMetadata) → MemoryNode → MemoryNode
change_metadata f (file content m x) = file content (f m) x
change_metadata f (directory children m x) = directory children (f m) x
change_metadata f (symlink target m) = symlink target (f m)

unfoldable pub to_vfs_metadata : MemoryNode → Metadata
unfolding file_type size
to_vfs_metadata node =
    let m = metadata node in
    record {
      file_type = file_type node;
      size = size node;
      blocks = (size node + 4095) / 4096;
      block_size = 4096;
      mode = m.mode;
      uid = m.uid;
      gid = m.gid;
      nlink = m.nlink;
      rdev = 0;
      ino = m.ino;
      atime = m.atime;
      mtime = m.mtime;
      ctime = m.ctime;
      crtime = some m.crtime;
    }

abbrev pub xattrs : MemoryNode → Option Xattrs
xattrs (file content m x) = some x
xattrs (directory children m x) = some x
xattrs (symlink target m) = none

module _ {A : Type 0} where
  -- On into a child, which is put back as it is left.
  abbrev pub descend :
      VfsError
      → Text
      → Children
      → NodeMetadata
      → Xattrs
      → Action MemoryNode VfsError A
      → Option MemoryNode
      → Result VfsError A × MemoryNode
  descend missing name children m x act none = (err missing, directory children m x)
  descend missing name children m x act (some node) =
      let (r, node') = act node in (r, directory (set_child name node' children) m x)

  -- The walk to the node at the end of the components, and what is done there. It fails with
  -- `missing` where a name has no entry, and with `blocked` where it would pass through what is no
  -- directory.
  unfoldable pub visit :
      VfsError → VfsError → List Text → Action MemoryNode VfsError A → Action MemoryNode VfsError A
  visit missing blocked [] act node = act node
  visit missing blocked (name ∷ names) act (file content m x) = (err blocked, file content m x)
  visit missing blocked (name ∷ names) act (symlink target m) = (err blocked, symlink target m)
  visit missing blocked (name ∷ names) act (directory children m x) =
      descend missing name children m x (visit missing blocked names act) (get_child name children)
