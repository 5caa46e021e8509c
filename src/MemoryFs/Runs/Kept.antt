-- ===== src/MemoryFs/Runs/Kept.antt =====
-- What keeps every node and its inode number: changes of a node's content and attributes.
use rustsmb.Base.{
  ltb, length, ◌^◌, ◌&&◌, ◌-◌, ℕ, ◌≡◌, ◌⊎◌, nat_key, refl, sym, ap, ◌∙◌, some, List, [], ◌∷◌,
  list_key, Bool-cases, Option-cases, inl, inr,
}
use rustsmb.Base.Bytes.{resize}
use rustsmb.Base.Map
use rustsmb.Core.Action.{Result, ok, err, Action}
use rustsmb.Vfs.{Text, VfsError, FileHandle, not_found, invalid_handle, not_a_directory}
use rustsmb.MemoryFs.Path.{is_empty, normalize_path, components}
use rustsmb.MemoryFs.Node.{NodeMetadata, MemoryNode, file, directory, symlink, visit}
use rustsmb.MemoryFs.Node.Sight.{at, see, below, visit_found, visit_nowhere}
use rustsmb.MemoryFs.Node.Entries.{see-below}
use rustsmb.MemoryFs.{OpenFileInfo, MemoryBackend}
use rustsmb.MemoryFs.Attributes.{
  at_path, changing, chmod, chown, utimes, resized, truncate, putting_xattr, setxattr,
  removing_xattr, removexattr,
}
use rustsmb.MemoryFs.Handles.{open_file, write_node, write}
use rustsmb.MemoryFs.Runs.Inodes.{ino_of, ino_at}

-- An action on a node that keeps its inode number, and what is below it.
abbrev pub Keeps : {A : Type 0} → Action MemoryNode VfsError A → Type 0
Keeps act = (node : MemoryNode) (rest : List Text) → ino_at rest (act node).1 ≡ ino_at rest node

module _ {A : Type 0} (missing blocked : VfsError) (act : Action MemoryNode VfsError A)
    (keeps : Keeps act) where
  pub visit-Keeps : (names : List Text) → Keeps (visit missing blocked names act)
  visit-Keeps names root others = elim (Option-cases (at names root)) [
    | inl gone ↦ elim (visit_nowhere missing blocked act names root gone) [
      | inl same ↦ ap (λ (r : Result VfsError A × MemoryNode). ino_at others r.1) same
      | inr same ↦ ap (λ (r : Result VfsError A × MemoryNode). ino_at others r.1) same
    ]
    | inr (node, found) ↦
        let sights = (visit_found missing blocked act names root node found).1 in
        elim (Option-cases (below names others)) [
          | inl away ↦
              let stays : see others (visit missing blocked names act root).1 ≡ see others root =
                sights others ∙ rw away refl in
              ap ino_of stays
          | inr (rest, leads) ↦
              let there : see others (visit missing blocked names act root).1
                  ≡ see rest (act node).1 =
                sights others ∙ rw leads refl in
              ap ino_of there
              ∙ keeps node rest
              ∙ sym (ap ino_of (see-below names others root node found leads))
        ]
  ]

changing-Keeps :
    (f : NodeMetadata → NodeMetadata)
    → ((m : NodeMetadata) → (f m).ino ≡ m.ino)
    → Keeps (changing f)
changing-Keeps f same (file content m x) [] = ap some (same m)
changing-Keeps f same (directory children m x) [] = ap some (same m)
changing-Keeps f same (symlink target m) [] = ap some (same m)
changing-Keeps f same (file content m x) (name ∷ rest) = refl
changing-Keeps f same (directory children m x) (name ∷ rest) = refl
changing-Keeps f same (symlink target m) (name ∷ rest) = refl

resized-Keeps : (now : ℕ) (path : Text) (size : ℕ) → Keeps (resized now path size)
resized-Keeps now path size (file content m x) rest =
    elim (Bool-cases (ltb (length content) size && ltb (2 ^ 63 - 1) size)) [
      | inl panics ↦ rw (panics, resized) refl
      | inr fits ↦ rw (fits, resized) (resized_file rest)
    ]
  where
    resized_file :
        (rest : List Text)
        → ino_at rest (file (resize size content) (record m { mtime = now; ctime = now }) x)
          ≡ ino_at rest (file content m x)
    resized_file [] = refl
    resized_file (name ∷ rest) = refl
resized-Keeps now path size (directory children m x) rest = refl
resized-Keeps now path size (symlink target m) rest = refl

putting_xattr-Keeps : (name : Text) (value : List ℕ) → Keeps (putting_xattr name value)
putting_xattr-Keeps name value (file content m x) [] = refl
putting_xattr-Keeps name value (file content m x) (n ∷ rest) = refl
putting_xattr-Keeps name value (directory children m x) [] = refl
putting_xattr-Keeps name value (directory children m x) (n ∷ rest) = refl
putting_xattr-Keeps name value (symlink target m) rest = refl

removing_xattr-Keeps : (name : Text) → Keeps (removing_xattr name)
removing_xattr-Keeps name (file content m x) [] = refl
removing_xattr-Keeps name (file content m x) (n ∷ rest) = refl
removing_xattr-Keeps name (directory children m x) [] = refl
removing_xattr-Keeps name (directory children m x) (n ∷ rest) = refl
removing_xattr-Keeps name (symlink target m) rest = refl

write_node-Keeps :
    (now offset : ℕ) (bytes : List ℕ) (path : Text) → Keeps (write_node now offset bytes path)
write_node-Keeps now offset bytes path (file content m x) [] = refl
write_node-Keeps now offset bytes path (file content m x) (n ∷ rest) = refl
write_node-Keeps now offset bytes path (directory children m x) rest = refl
write_node-Keeps now offset bytes path (symlink target m) rest = refl

-- An operation that keeps all nodes, their inode numbers, and the counter.
pub record KeepsAll (s s' : MemoryBackend) : Type 0 where
  pub nodes : (names : List Text) → ino_at names s'.root ≡ ino_at names s.root
  pub counter : s'.inode_counter ≡ s.inode_counter

module _ {A : Type 0} (path : Text) (act : Action MemoryNode VfsError A) (keeps : Keeps act)
    (s : MemoryBackend) where
  at_path-KeepsAll : KeepsAll s (at_path path act s).1
  unfolding at_path
  at_path-KeepsAll = record {
    nodes =
        visit-Keeps (not_found (normalize_path path)) (not_a_directory (normalize_path path)) act
          keeps (components (normalize_path path)) s.root;
    counter = refl;
  }

open_file-cases :
    (handle : FileHandle) (s : MemoryBackend)
    → ((info : OpenFileInfo) × (open_file handle s ≡ (ok info, s)))
      ⊎ ((e : VfsError) × (open_file handle s ≡ (err e, s)))
unfolding open_file
open_file-cases handle s = elim (Option-cases handle.backend_internal_id) [
  | inl no_node ↦ inr (invalid_handle, rw no_node refl)
  | inr (node_id, has) ↦ elim (Option-cases (Map.get node_id s.open_files)) [
    | inl closed ↦ inr (invalid_handle, rw (has, closed) refl)
    | inr (info, there) ↦ inl (info, rw (has, there) refl)
  ]
]

module _ (s : MemoryBackend) where
  pub chmod-KeepsAll : (now : ℕ) (path : Text) (mode : ℕ) → KeepsAll s (chmod now path mode s).1
  unfolding chmod
  chmod-KeepsAll now path mode =
      at_path-KeepsAll path (changing (λ m. record m { mode = mode; ctime = now }))
        (changing-Keeps (λ m. record m { mode = mode; ctime = now }) (λ m. refl)) s

  pub chown-KeepsAll :
      (now : ℕ) (path : Text) (uid gid : ℕ) → KeepsAll s (chown now path uid gid s).1
  unfolding chown
  chown-KeepsAll now path uid gid =
      at_path-KeepsAll path (changing (λ m. record m { uid = uid; gid = gid; ctime = now }))
        (changing-Keeps (λ m. record m { uid = uid; gid = gid; ctime = now }) (λ m. refl)) s

  pub utimes-KeepsAll :
      (now : ℕ) (path : Text) (atime mtime : ℕ) → KeepsAll s (utimes now path atime mtime s).1
  unfolding utimes
  utimes-KeepsAll now path atime mtime =
      at_path-KeepsAll path (changing (λ m. record m { atime = atime; mtime = mtime; ctime = now }))
        (changing-Keeps (λ m. record m { atime = atime; mtime = mtime; ctime = now }) (λ m. refl)) s

  pub truncate-KeepsAll :
      (now : ℕ) (path : Text) (size : ℕ) → KeepsAll s (truncate now path size s).1
  unfolding truncate
  truncate-KeepsAll now path size = elim (Bool-cases (is_empty (normalize_path path))) [
    | inl at_root ↦ rw at_root (record { nodes = λ names. refl; counter = refl })
    | inr named ↦ rw named (
        at_path-KeepsAll path (resized now (normalize_path path) size)
          (resized-Keeps now (normalize_path path) size) s)
  ]

  pub setxattr-KeepsAll :
      (path name : Text) (value : List ℕ) → KeepsAll s (setxattr path name value s).1
  unfolding setxattr
  setxattr-KeepsAll path name value =
      at_path-KeepsAll path (putting_xattr name value) (putting_xattr-Keeps name value) s

  pub removexattr-KeepsAll : (path name : Text) → KeepsAll s (removexattr path name s).1
  unfolding removexattr
  removexattr-KeepsAll path name =
      at_path-KeepsAll path (removing_xattr name) (removing_xattr-Keeps name) s

  pub write-KeepsAll :
      (now : ℕ) (handle : FileHandle) (offset : ℕ) (bytes : List ℕ)
      → KeepsAll s (write now handle offset bytes s).1
  unfolding write
  write-KeepsAll now handle offset bytes = elim (open_file-cases handle s) [
    | inr (e, failed) ↦ rw failed (record { nodes = λ names. refl; counter = refl })
    | inl (info, opened) ↦ rw opened (elim (Bool-cases (is_empty info.path)) [
      | inl at_root ↦ rw at_root (record { nodes = λ names. refl; counter = refl })
      | inr named ↦ rw named (record {
        nodes =
            visit-Keeps (not_found info.path) (not_a_directory info.path)
              (write_node now offset bytes info.path) (write_node-Keeps now offset bytes info.path)
              (components info.path) s.root;
        counter = refl;
      })
    ])
  ]
