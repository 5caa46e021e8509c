-- ===== src/MemoryFs/Runs/Opens.antt =====
-- An open keeps inode numbers apart.
use rustsmb.Base.{
  ℕ, ◌≡◌, ◌⊎◌, nat_key, refl, true, false, ◌&&◌, List, [], ◌∷◌, ◌++◌, list_key, Bool-cases, inl,
  inr, arith,
}
use rustsmb.Core.Action.{Result, ok, err, ◌>>=◌, ◌>>◌}
use rustsmb.Vfs.{
  Text, VfsError, CreateParams, not_found, is_create, is_excl, to_open_flags, is_for_directory,
}
use rustsmb.MemoryFs.Path.{is_empty, join, normalize_path, split_path}
use rustsmb.MemoryFs.Path.Clean.{parts, parts-Leads}
use rustsmb.MemoryFs.Node.{new_metadata, MemoryNode, file, directory, symlink, metadata}
use rustsmb.MemoryFs.{MemoryBackend, mkdir, get_node}
use rustsmb.MemoryFs.Handles.{
  open_found, open_missing, opened_new, open_directory, open_in, opened, open_path,
}
use rustsmb.MemoryFs.Runs.Opened.{open_in-cases}
use rustsmb.MemoryFs.Changes.{path_cases}
use rustsmb.MemoryFs.Runs.Steps.{Sound, KeepsAll-Sound, same_tree-Sound, new-Sound, mkdir-Sound}

Result-cases : {E A : Type 0} (r : Result E A) → ((a : A) × (r ≡ ok a)) ⊎ ((e : E) × (r ≡ err e))
Result-cases (ok a) = inl (a, refl)
Result-cases (err e) = inr (e, refl)

-- The tree and the counter are as they were.
pub record SameTree (s s' : MemoryBackend) : Type 0 where
  pub root : s'.root ≡ s.root
  pub counter : s'.inode_counter ≡ s.inode_counter

module _ (s : MemoryBackend) where
  pub same-Sound : (s' : MemoryBackend) → SameTree s s' → Sound s s'
  same-Sound s' same =
      same_tree-Sound s s s' same.root same.counter (λ inodes small. (inodes, omega arith))

  open_found-Sound :
      (id flags : ℕ) (path : Text) (node : MemoryNode) → Sound s (open_found id flags path node s).1
  open_found-Sound id flags path (file content m x) =
      same-Sound s (record { root = refl; counter = refl })
  open_found-Sound id flags path (symlink target m) =
      same-Sound s (record { root = refl; counter = refl })
  open_found-Sound id flags path (directory children m x) =
      elim (Bool-cases (is_create flags && is_excl flags)) [
        | inl both ↦ rw both (same-Sound s (record { root = refl; counter = refl }))
        | inr not_both ↦
            rw not_both
              (same-Sound (opened id path m.ino s).1 (record { root = refl; counter = refl }))
      ]

  -- A directory that an open makes is the one that `mkdir` makes.
  made_directory-Sound :
      (now id : ℕ) (path : Text)
      → Sound s
          ((mkdir now path 0o755 >> (λ s. (get_node path s.root, s)) >>= λ node.
              opened_new id path (metadata node).ino)
            s).1
  made_directory-Sound now id path = elim (Result-cases (mkdir now path 0o755 s).0) [
    | inr (e, failed) ↦ rw failed (mkdir-Sound s now path 0o755)
    | inl (u, done) ↦ elim (Result-cases (get_node path (mkdir now path 0o755 s).1.root)) [
      | inr (e, gone) ↦ rw (done, gone) (mkdir-Sound s now path 0o755)
      | inl (node, found) ↦
          rw (done, found)
            (same_tree-Sound s (mkdir now path 0o755 s).1
              (opened_new id path (metadata node).ino (mkdir now path 0o755 s).1).1 refl refl
              (mkdir-Sound s now path 0o755))
    ]
  ]

  open_missing-Sound :
      (now id flags : ℕ) (path : Text) (e : VfsError)
      → Sound s (open_missing now id flags path e s).1
  open_missing-Sound now id flags path (not_found t) = elim (Bool-cases (is_create flags)) [
    | inl create ↦ rw create (made_directory-Sound now id path)
    | inr only ↦ rw only (same-Sound s (record { root = refl; counter = refl }))
  ]
  open_missing-Sound now id flags path _ = same-Sound s (record { root = refl; counter = refl })

  open_directory-Sound :
      (now id flags : ℕ) (path : Text) → Sound s (open_directory now id flags path s).1
  unfolding open_directory
  open_directory-Sound now id flags path = elim (Result-cases (get_node path s.root)) [
    | inl (node, found) ↦
        let step : open_directory now id flags path s ≡ open_found id flags path node s =
          rw (found, open_directory) refl in
        rw step (open_found-Sound id flags path node)
    | inr (e, gone) ↦
        let step : open_directory now id flags path s ≡ open_missing now id flags path e s =
          rw (gone, open_directory) refl in
        rw step (open_missing-Sound now id flags path e)
  ]

  open_in-Sound :
      (now flags : ℕ) (path : Text) (front : List Text) (name : Text)
      → parts path ≡ front ++ (name ∷ [])
      → Sound s (open_in now flags (normalize_path path) (join front) name s).1
  unfolding new_metadata
  open_in-Sound now flags path front name leads =
      let l = parts-Leads path front name leads in
      elim (open_in-cases now flags (normalize_path path) front l.front_names name s) [
        | inl kept ↦
            KeepsAll-Sound s (open_in now flags (normalize_path path) (join front) name s).1 kept
        | inr made ↦
            new-Sound s (open_in now flags (normalize_path path) (join front) name s).1
              (front ++ (name ∷ [])) (file [] (new_metadata now 0o644 s.inode_counter) []) refl
              (λ n rest. refl) made.sights made.counter
      ]

  open_directory_path :
      (now id : ℕ) (path : Text) (params : CreateParams)
      → is_for_directory (to_open_flags params) ≡ true
      → open_path now id path params s
        ≡ open_directory now id (to_open_flags params) (normalize_path path) s
  unfolding open_path
  open_directory_path now id path params wanted = rw wanted refl

  module _ (now id : ℕ) (path : Text) (params : CreateParams)
      (file_wanted : is_for_directory (to_open_flags params) ≡ false) where
    abbrev flags : ℕ
    flags = to_open_flags params

    -- An open of a file is the search in its directory, and the handle for what that finds.
    open_file_path :
        (front : List Text) (name : Text)
        → parts path ≡ front ++ (name ∷ [])
        → open_path now id path params s
          ≡ (open_in now flags (normalize_path path) (join front) name
                >>= (λ found. opened id (normalize_path path) found.0))
              s
    unfolding open_path
    open_file_path front name leads = rw (file_wanted, (parts-Leads path front name leads).cut) refl

    open_file-Sound :
        (front : List Text) (name : Text)
        → parts path ≡ front ++ (name ∷ [])
        → Sound s (open_path now id path params s).1
    open_file-Sound front name leads =
        let opening = open_in now flags (normalize_path path) (join front) name s in
        let sound = open_in-Sound now flags path front name leads in
        rw (open_file_path front name leads) elim (Result-cases opening.0) [
          | inr (e, failed) ↦ rw failed sound
          | inl (found, done) ↦ rw done (
              same_tree-Sound s opening.1 (opened id (normalize_path path) found.0 opening.1).1 refl
                refl sound)
        ]

    is_empty_nil : (t : Text) → is_empty t ≡ true → t ≡ []
    is_empty_nil [] e = refl
    is_empty_nil (c ∷ t) e = cc

    -- The root has no name, and is not opened as a file.
    open_root-Sound :
        is_empty (normalize_path path) ≡ true → Sound s (open_path now id path params s).1
    unfolding open_path split_path
    open_root-Sound at_root =
        rw (file_wanted, is_empty_nil (normalize_path path) at_root)
          (same-Sound s (record { root = refl; counter = refl }))

  pub open_path-Sound :
      (now id : ℕ) (path : Text) (params : CreateParams)
      → Sound s (open_path now id path params s).1
  open_path-Sound now id path params = elim (Bool-cases (is_for_directory (to_open_flags params))) [
    | inr file_wanted ↦ elim (path_cases path) [
      | inl at_root ↦ open_root-Sound now id path params file_wanted at_root
      | inr (front, (name, leads)) ↦ open_file-Sound now id path params file_wanted front name leads
    ]
    | inl directory_wanted ↦
        rw (open_directory_path now id path params directory_wanted)
          (open_directory-Sound now id (to_open_flags params) (normalize_path path))
  ]
