-- ===== src/Vfs.antt =====
-- crates/rustsmb-vfs/src/types.rs, and the errors of file systems in crates/rustsmb-core/src/error.rs.
-- A text is the list of its code points; times are numbers.
mod Flags
mod Examples
use rustsmb.Base.{
  ℕ, ◌+◌, Bool, true, false, not, ◌||◌, Option, List, nat_eq, bit_and, bit_or, if◌then◌else◌, none,
  add_u64,
}

abbrev pub Text : Type 0
Text = List ℕ

-- Of the errors that carry a text for a human reader only, the text is left out.
pub data VfsError : Type 0 where
  not_found access_denied already_exists not_a_directory is_a_directory directory_not_empty
        invalid_path sharing_violation :
      Text → VfsError
  disk_full file_too_large lock_conflict invalid_handle backend_error io_error not_supported :
      VfsError

pub data FileType : Type 0 where
  regular directory_type symlink_type block_device char_device fifo socket : FileType

pub record Metadata : Type 0 where
  pub file_type : FileType
  pub size : ℕ
  pub blocks : ℕ
  pub block_size : ℕ
  pub mode : ℕ
  pub uid : ℕ
  pub gid : ℕ
  pub nlink : ℕ
  pub rdev : ℕ
  pub ino : ℕ
  pub atime : ℕ
  pub mtime : ℕ
  pub ctime : ℕ
  pub crtime : Option ℕ

pub record DirEntry : Type 0 where
  pub name : Text
  pub metadata : Metadata

pub data LockType : Type 0 where
  shared exclusive : LockType

pub record FileLock : Type 0 where
  pub lock_type : LockType
  pub start : ℕ
  pub length : ℕ
  pid : ℕ

pub record FileHandle : Type 0 where
  pub id : ℕ
  pub persistent_id : ℕ
  pub volatile_id : ℕ
  pub backend_internal_id : Option ℕ

-- Each constructor of a handle has a counter of its own.
pub record HandleCounters : Type 0 where
  pub for_new : ℕ
  pub for_ids : ℕ
  pub for_backend_id : ℕ

unfoldable pub new_handle : HandleCounters → FileHandle × HandleCounters
new_handle c = (
  record {
    id = c.for_new;
    persistent_id = c.for_new;
    volatile_id = c.for_new;
    backend_internal_id = none;
  },
  record c { for_new = add_u64 c.for_new 1 },
)

unfoldable pub with_ids : ℕ → ℕ → HandleCounters → FileHandle × HandleCounters
with_ids persistent_id volatile_id c = (
  record {
    id = c.for_ids;
    persistent_id = persistent_id;
    volatile_id = volatile_id;
    backend_internal_id = none;
  },
  record c { for_ids = add_u64 c.for_ids 1 },
)

unfoldable pub with_backend_id : ℕ → ℕ → Option ℕ → HandleCounters → FileHandle × HandleCounters
with_backend_id persistent_id volatile_id backend_internal_id c = (
  record {
    id = c.for_backend_id;
    persistent_id = persistent_id;
    volatile_id = volatile_id;
    backend_internal_id = backend_internal_id;
  },
  record c { for_backend_id = add_u64 c.for_backend_id 1 },
)

pub record BackendCapabilities : Type 0 where
  pub locking : Bool
  pub notify : Bool
  pub sparse : Bool
  pub xattr : Bool
  pub hard_links : Bool
  pub symlinks : Bool
  pub max_file_size : ℕ
  pub max_path_length : ℕ
  pub case_sensitive : Bool
  pub atomic_rename : Bool

pub record FsStats : Type 0 where
  pub blocks : ℕ
  pub blocks_free : ℕ
  pub blocks_available : ℕ
  pub block_size : ℕ
  pub files : ℕ
  pub files_free : ℕ
  pub fsid : ℕ
  pub namelen : ℕ

pub record CreateParams : Type 0 where
  pub desired_access : ℕ
  pub share_access : ℕ
  pub create_disposition : ℕ
  pub create_options : ℕ
  pub file_attributes : ℕ

abbrev has : ℕ → ℕ → Bool
has flags flag = not (nat_eq (bit_and flags flag) 0)

-- The tests of `OpenFlags`.
unfoldable pub is_read : ℕ → Bool
is_read flags = has flags 0x1

unfoldable pub is_write : ℕ → Bool
is_write flags = has flags 0x2

unfoldable pub is_create : ℕ → Bool
is_create flags = has flags 0x40

unfoldable pub is_excl : ℕ → Bool
is_excl flags = has flags 0x80

unfoldable pub is_trunc : ℕ → Bool
is_trunc flags = has flags 0x200

unfoldable pub is_for_directory : ℕ → Bool
is_for_directory flags = has flags 0x10000

unfoldable pub is_directory : CreateParams → Bool
is_directory p = has p.create_options 0x1

unfoldable pub wants_read : CreateParams → Bool
wants_read p =
    has p.desired_access 0x1 || has p.desired_access 0x80000000 || has p.desired_access 0x10000000

unfoldable pub wants_write : CreateParams → Bool
wants_write p =
    has p.desired_access 0x2 || has p.desired_access 0x40000000 || has p.desired_access 0x10000000

-- SUPERSEDE, OPEN, CREATE, OPEN_IF, OVERWRITE and OVERWRITE_IF are 0 to 5.
abbrev disposition_flags : ℕ → ℕ
disposition_flags d =
    if nat_eq d 2
    then bit_or 0x40 0x80
    else if nat_eq d 1
    then 0
    else if nat_eq d 3
    then 0x40
    else if nat_eq d 4
    then 0x200
    else if nat_eq d 5 || nat_eq d 0
    then bit_or 0x40 0x200
    else 0

abbrev flag_if : Bool → ℕ → ℕ
flag_if b flag = if b then flag else 0

abbrev pub flags_of : Bool → Bool → Bool → ℕ → ℕ
flags_of reads writes directory disposition =
    bit_or
      (bit_or (bit_or (flag_if reads 0x1) (flag_if writes 0x2)) (disposition_flags disposition))
      (flag_if directory 0x10000)

unfoldable pub to_open_flags : CreateParams → ℕ
to_open_flags p = flags_of (wants_read p) (wants_write p) (is_directory p) p.create_disposition
