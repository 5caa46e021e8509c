-- ===== src/MemoryFs/Examples.antt =====
-- Tests of the in-memory file system.
use rustsmb.Base.{
  ℕ, ◌-◌, ◌^◌, ◌++◌, ◌≤◌, ◌≡◌, ◌⊎◌, refl, false, none, some, List, [], ◌∷◌, All, list_key, ◌==◌,
  nat_key, arith,
}
use rustsmb.Base.Map
use rustsmb.Core.Action.{ok, err}
use rustsmb.Vfs.{already_exists, invalid_path, Text, FileHandle, CreateParams}
use rustsmb.MemoryFs.Path.{slash, components, normalize_path, split_path, join}
use rustsmb.MemoryFs.Path.Clean.{IsName, parts, components-normalize_path}
use rustsmb.MemoryFs.Node.{NodeMetadata, new_metadata, file, directory, end, child, visit}
use rustsmb.MemoryFs.Node.Sight.{see, below, grafted}
use rustsmb.MemoryFs.{MemoryBackend, get_node, no_text, new, mkdir, rmdir, rename}
use rustsmb.MemoryFs.Changes.Made.{Vacant, Made, Refused, mkdir_lem}
use rustsmb.MemoryFs.Changes.Removed.{RemovesOnly, is_empty_directory, rmdir_lem}
use rustsmb.MemoryFs.Changes.Moved.{RenameOutcome, rename_lem}
use rustsmb.MemoryFs.Handles.{open_path, read, write, write_panics, overwritten}
use rustsmb.MemoryFs.Handles.Bytes.{Overwritten}
use rustsmb.MemoryFs.Handles.Contents.{OpenOn, write_lem, read-write}
use rustsmb.MemoryFs.Runs.{started, stepped, mkdirs, opens, renames}
use rustsmb.MemoryFs.Runs.Inodes.{Inodes}
use rustsmb.MemoryFs.Runs.Distinct.{Run-Inodes}

abbrev a : Text
a = b'a' ∷ []

abbrev b : Text
b = b'b' ∷ []

abbrev c : Text
c = b'c' ∷ []

-- "/a//./b/"
abbrev long_path : Text
long_path = slash ∷ b'a' ∷ slash ∷ slash ∷ b'.' ∷ slash ∷ b'b' ∷ slash ∷ []

components-normalize_path_example :
    (components (normalize_path long_path) ≡ parts long_path) × All IsName (parts long_path)
components-normalize_path_example = components-normalize_path long_path

parts-long_path : parts long_path ≡ a ∷ b ∷ []
parts-long_path = refl

-- A directory "a" with a file "b", and an empty directory "c".
abbrev meta : ℕ → NodeMetadata
meta ino = record {
  mode = 0o755;
  uid = 0;
  gid = 0;
  nlink = 1;
  ino = ino;
  atime = 0;
  mtime = 0;
  ctime = 0;
  crtime = 0;
}

abbrev content : List ℕ
content = 1 ∷ 2 ∷ []

abbrev some_files : MemoryBackend
some_files = record {
  root =
      directory
        (child a (directory (child b (file content (meta 3) []) end) (meta 2) [])
          (child c (directory end (meta 4) []) end))
        (meta 1) [];
  open_files = (3, record { path = join (a ∷ b ∷ []); ref_count = 1 }) ∷ [];
  inode_counter = 5;
  locks = [];
}

mkdir_lem_example :
    ((parts (join (a ∷ c ∷ [])) ≡ [])
      × (mkdir 7 (join (a ∷ c ∷ [])) 0o700 some_files
          ≡ (err (already_exists (slash ∷ [])), some_files)))
    ⊎ ((front : List Text) × (name : Text) × (parts (join (a ∷ c ∷ [])) ≡ front ++ (name ∷ []))
        × ((Vacant front name some_files.root
              × Made front name
                  (directory end (new_metadata 7 0o700 5) [])
                  some_files
                  (mkdir 7 (join (a ∷ c ∷ [])) 0o700 some_files))
            ⊎ ((Vacant front name some_files.root → ⊥)
                × Refused some_files (mkdir 7 (join (a ∷ c ∷ [])) 0o700 some_files))))
mkdir_lem_example = mkdir_lem 7 (join (a ∷ c ∷ [])) some_files 0o700

mkdir_root_test :
    mkdir 7 (slash ∷ []) 0o700 some_files ≡ (err (already_exists (slash ∷ [])), some_files)
unfolding mkdir normalize_path
mkdir_root_test = refl

rmdir_lem_example :
    ((parts c ≡ []) × (rmdir c some_files ≡ (err (invalid_path no_text), some_files)))
    ⊎ ((front : List Text) × (name : Text) × (parts c ≡ front ++ (name ∷ []))
        × RemovesOnly is_empty_directory front name some_files (rmdir c some_files))
rmdir_lem_example = rmdir_lem c some_files

-- "c/a" is another path.
rename_differs : (normalize_path long_path == normalize_path (join (c ∷ a ∷ []))) ≡ false
unfolding normalize_path
rename_differs = refl

rename_lem_example :
    RenameOutcome
      (a ∷ b ∷ [])
      (c ∷ [])
      a
      some_files
      (rename long_path (join (c ∷ a ∷ [])) some_files)
rename_lem_example =
    rename_lem long_path (join (c ∷ a ∷ [])) some_files (a ∷ []) b (c ∷ []) a refl refl
      rename_differs

-- A directory that is moved into itself is gone.
rename_loses : (see (a ∷ []) (rename a (join (a ∷ c ∷ [])) some_files).1.root) ≡ none
unfolding rename normalize_path split_path visit components
rename_loses = refl

abbrev handle : FileHandle
handle = record { id = 1; persistent_id = 0; volatile_id = 0; backend_internal_id = some 3 }

b_is_open : OpenOn handle (a ∷ b ∷ []) content (meta 3) [] some_files
unfolding Map.get
b_is_open = record {
  node_id = 3;
  info = record { path = join (a ∷ b ∷ []); ref_count = 1 };
  has_node = refl;
  is_open = refl;
  path = refl;
  good = (
    record { named = refl; plain = (refl, tt); no_dot = refl; no_dot_dot = refl },
    (record { named = refl; plain = (refl, tt); no_dot = refl; no_dot_dot = refl }, tt),
  );
  named = refl;
  here = refl;
}

read-write_example :
    read handle 4 2 (write 9 handle 4 (8 ∷ 9 ∷ []) some_files).1
    ≡ (ok (8 ∷ 9 ∷ []), (write 9 handle 4 (8 ∷ 9 ∷ []) some_files).1)
read-write_example =
    read-write (a ∷ b ∷ []) content (meta 3) [] some_files handle b_is_open 9 4 (8 ∷ 9 ∷ [])
      (omega arith) handle b_is_open

write_lem_example :
    (bytes : List ℕ) × (Overwritten 4 (8 ∷ 9 ∷ []) content bytes
      × ((write 9 handle 4 (8 ∷ 9 ∷ []) some_files ≡ (
        ok (some 2),
        record some_files { root = (write 9 handle 4 (8 ∷ 9 ∷ []) some_files).1.root },
      ))
          × ((others : List Text)
              → see others (write 9 handle 4 (8 ∷ 9 ∷ []) some_files).1.root
                ≡ grafted
                    (below (a ∷ b ∷ []) others)
                    (see others some_files.root)
                    (file bytes (record (meta 3) { mtime = 9; ctime = 9 }) []))))
write_lem_example =
    write_lem (a ∷ b ∷ []) content (meta 3) [] some_files handle b_is_open 9 4 (8 ∷ 9 ∷ [])
      (omega arith)

-- The bytes between the old end and the place of the write are zeros.
write_with_gap :
    read handle 0 9 (write 9 handle 4 (8 ∷ 9 ∷ []) some_files).1
    ≡ (ok (1 ∷ 2 ∷ 0 ∷ 0 ∷ 8 ∷ 9 ∷ []), (write 9 handle 4 (8 ∷ 9 ∷ []) some_files).1)
unfolding read Map.get write get_node visit components normalize_path overwritten
write_with_gap = refl

-- A write whose end wraps panics, and so does one that would end past the largest capacity.
write_wraps : (write 9 handle (2 ^ 64 - 1) (8 ∷ 9 ∷ []) some_files).0 ≡ ok none
unfolding Map.get write visit components overwritten write_panics
write_wraps = refl

write_too_far : (write 9 handle (2 ^ 63 - 1) (8 ∷ 9 ∷ []) some_files).0 ≡ ok none
unfolding Map.get write visit components overwritten write_panics
write_too_far = refl

abbrev create_new : CreateParams
create_new = record {
  desired_access = 3;
  share_access = 0;
  create_disposition = 2;
  create_options = 0;
  file_attributes = 0;
}

abbrev after_open : MemoryBackend
after_open = (open_path 6 1 (join (a ∷ b ∷ [])) create_new (mkdir 5 a 0o755 (new 0)).1).1

Run-Inodes_example :
    Inodes (rename a c after_open).1.root (rename a c after_open).1.inode_counter
    × ((rename a c after_open).1.inode_counter ≤ 5)
Run-Inodes_example =
    Run-Inodes 3 (rename a c after_open).1
      (stepped
        (stepped (stepped (started 0) (mkdirs 5 a 0o755))
          (opens 6 1 (join (a ∷ b ∷ [])) create_new))
        (renames a c))
      (omega arith)
