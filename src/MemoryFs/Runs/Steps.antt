-- ===== src/MemoryFs/Runs/Steps.antt =====
-- What each operation that makes, removes or moves entries does to the inode numbers.
use rustsmb.Base.{
  ℕ, ◌+◌, ◌^◌, ◌≤◌, ◌<◌, ◌≡◌, nat_key, refl, sym, ap, subst, false, none, some, List, [], ◌∷◌, ◌++◌,
  list_key, ◌==◌, Bool-cases, inl, inr, add_u64, arith,
}
use rustsmb.Core.Action.{Result}
use rustsmb.Vfs.{Text, VfsError}
use rustsmb.MemoryFs.Path.{normalize_path}
use rustsmb.MemoryFs.Path.Clean.{parts, parts-Leads}
use rustsmb.MemoryFs.Node.{new_metadata, MemoryNode, directory, symlink, end}
use rustsmb.MemoryFs.Node.Sight.{see, below, grafted}
use rustsmb.MemoryFs.{MemoryBackend, mkdir, rmdir, unlink, make_symlink, rename}
use rustsmb.MemoryFs.Changes.{path_cases}
use rustsmb.MemoryFs.Changes.Made.{Refused, mkdir_entry, make_symlink_lem}
use rustsmb.MemoryFs.Changes.Removed.{Removed, unlink_lem, rmdir_entry}
use rustsmb.MemoryFs.Changes.Moved.{rename_lem}
use rustsmb.MemoryFs.Runs.Inodes.{
  ino_at, Inodes, Traced, Traced-Inodes, kept-Traced, pruned-Traced, moved-Traced, made-Inodes,
}
use rustsmb.MemoryFs.Runs.Kept.{KeepsAll}

-- A change that keeps inode numbers apart, and gives out one at most.
abbrev pub Sound : MemoryBackend → MemoryBackend → Type 0
Sound s s' =
    Inodes s.root s.inode_counter
    → s.inode_counter + 1 < 2 ^ 64
    → Inodes s'.root s'.inode_counter × (s'.inode_counter ≤ s.inode_counter + 1)

pub KeepsAll-Sound : (s s' : MemoryBackend) → KeepsAll s s' → Sound s s'
KeepsAll-Sound s s' kept inodes small = (
  subst (Inodes s'.root) (sym kept.counter)
      (Traced-Inodes s.root s'.root s.inode_counter inodes (kept-Traced s.root s'.root kept.nodes)),
  omega (arith, kept.counter),
)

Traced-Sound :
    (s s' : MemoryBackend) → s'.inode_counter ≡ s.inode_counter → Traced s.root s'.root → Sound s s'
Traced-Sound s s' same traced inodes small = (
  subst (Inodes s'.root) (sym same) (Traced-Inodes s.root s'.root s.inode_counter inodes traced),
  omega (arith, same),
)

Refused-Sound :
    {A : Type 0} (s : MemoryBackend) (out : Result VfsError A × MemoryBackend)
    → Refused s out
    → Sound s out.1
Refused-Sound {A = A} s out (e, same) =
    subst (λ (r : Result VfsError A × MemoryBackend). Sound s r.1) (sym same)
      (λ inodes small. (inodes, omega arith))

pub same_tree-Sound :
    (s s' s'' : MemoryBackend)
    → s''.root ≡ s'.root
    → s''.inode_counter ≡ s'.inode_counter
    → Sound s s'
    → Sound s s''
same_tree-Sound s s' s'' root counter sound inodes small =
    let (after, bound) = sound inodes small in
    (rw (root, counter) after, omega (arith, bound, counter))

pub new-Sound :
    (s s' : MemoryBackend) (at_path : List Text) (node : MemoryNode)
    → ino_at [] node ≡ some s.inode_counter
    → ((name : Text) (rest : List Text) → see (name ∷ rest) node ≡ none)
    → ((others : List Text)
        → see others s'.root ≡ grafted (below at_path others) (see others s.root) node)
    → s'.inode_counter ≡ add_u64 s.inode_counter 1
    → Sound s s'
new-Sound s s' at_path node own bare sights counter inodes small =
    let next : s'.inode_counter ≡ s.inode_counter + 1 = omega (arith, counter, small) in
    (
      subst (Inodes s'.root) (sym next)
          (made-Inodes s.root s'.root s.inode_counter at_path node own bare sights inodes),
      omega (arith, next),
    )

module _ (s : MemoryBackend) where
  pub mkdir-Sound : (now : ℕ) (path : Text) (mode : ℕ) → Sound s (mkdir now path mode s).1
  unfolding mkdir new_metadata
  mkdir-Sound now path mode = elim (path_cases path) [
    | inl at_root ↦ rw at_root (λ inodes small. (inodes, omega arith))
    | inr (front, (name, leads)) ↦ elim (mkdir_entry now path s front name leads mode) [
      | inl (vacant, made) ↦
          new-Sound s (mkdir now path mode s).1 (front ++ (name ∷ []))
            (directory end (new_metadata now mode s.inode_counter) []) refl (λ n rest. refl)
            made.sights (ap (λ (b : MemoryBackend). b.inode_counter) made.kept)
      | inr (taken, refused) ↦ Refused-Sound s (mkdir now path mode s) refused
    ]
  ]

  pub make_symlink-Sound :
      (now : ℕ) (target path : Text) → Sound s (make_symlink now target path s).1
  unfolding make_symlink new_metadata
  make_symlink-Sound now target path = elim (path_cases path) [
    | inl at_root ↦ rw at_root (λ inodes small. (inodes, omega arith))
    | inr (front, (name, leads)) ↦ elim (make_symlink_lem now path s front name leads target) [
      | inl (vacant, made) ↦
          new-Sound s (make_symlink now target path s).1 (front ++ (name ∷ []))
            (symlink target (new_metadata now 0o777 s.inode_counter)) refl (λ n rest. refl)
            made.sights (ap (λ (b : MemoryBackend). b.inode_counter) made.kept)
      | inr (taken, refused) ↦ Refused-Sound s (make_symlink now target path s) refused
    ]
  ]

  Removed-Sound :
      (front : List Text) (name : Text) (out : Result VfsError (Unit {0}) × MemoryBackend)
      → Removed front name s out
      → Sound s out.1
  Removed-Sound front name out removed =
      Traced-Sound s out.1 (ap (λ (b : MemoryBackend). b.inode_counter) removed.kept)
        (pruned-Traced s.root out.1.root (front ++ (name ∷ [])) removed.sights)

  pub unlink-Sound : (path : Text) → Sound s (unlink path s).1
  unfolding unlink
  unlink-Sound path = elim (path_cases path) [
    | inl at_root ↦ rw at_root (λ inodes small. (inodes, omega arith))
    | inr (front, (name, leads)) ↦ elim (unlink_lem path s front name leads) [
      | inl (there, removed) ↦ Removed-Sound front name (unlink path s) removed
      | inr (other, refused) ↦ Refused-Sound s (unlink path s) refused
    ]
  ]

  pub rmdir-Sound : (path : Text) → Sound s (rmdir path s).1
  unfolding rmdir
  rmdir-Sound path = elim (path_cases path) [
    | inl at_root ↦ rw at_root (λ inodes small. (inodes, omega arith))
    | inr (front, (name, leads)) ↦ elim (rmdir_entry path s front name leads) [
      | inl (there, removed) ↦ Removed-Sound front name (rmdir path s) removed
      | inr (other, refused) ↦ Refused-Sound s (rmdir path s) refused
    ]
  ]

  rename_between-Sound :
      (from to : Text) (front : List Text) (name : Text) (front' : List Text) (name' : Text)
      → parts from ≡ front ++ (name ∷ [])
      → parts to ≡ front' ++ (name' ∷ [])
      → (normalize_path from == normalize_path to) ≡ false
      → Sound s (rename from to s).1
  rename_between-Sound from to front name front' name' leads leads' differ =
      elim (rename_lem from to s front name front' name' leads leads' differ) [
        | inr (gone, refused) ↦ Refused-Sound s (rename from to s) refused
        | inl (node, (found, done)) ↦ elim done [
          | inl (can, moved) ↦
              Traced-Sound s (rename from to s).1
                (ap (λ (b : MemoryBackend). b.inode_counter) moved.kept)
                (moved-Traced s.root (rename from to s).1.root (front ++ (name ∷ []))
                  (front' ++ (name' ∷ [])) node found moved.sights)
          | inr (cannot, lost) ↦
              Traced-Sound s (rename from to s).1
                (ap (λ (b : MemoryBackend). b.inode_counter) lost.kept)
                (pruned-Traced s.root (rename from to s).1.root (front ++ (name ∷ [])) lost.sights)
        ]
      ]

  pub rename-Sound : (from to : Text) → Sound s (rename from to s).1
  unfolding rename
  rename-Sound from to = elim (path_cases from) [
    | inl at_root ↦ rw at_root (λ inodes small. (inodes, omega arith))
    | inr (front, (name, leads)) ↦ elim (path_cases to) [
      | inl at_root' ↦
          rw ((parts-Leads from front name leads).named, at_root')
            (λ inodes small. (inodes, omega arith))
      | inr (front', (name', leads')) ↦
          elim (Bool-cases (normalize_path from == normalize_path to)) [
            | inl same ↦
                rw
                  (
                    (parts-Leads from front name leads).named,
                    (parts-Leads to front' name' leads').named,
                    same,
                  )
                  (λ inodes small. (inodes, omega arith))
            | inr differ ↦ rename_between-Sound from to front name front' name' leads leads' differ
          ]
    ]
  ]
