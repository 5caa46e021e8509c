-- ===== src/MemoryFs/Runs/Distinct.antt =====
-- In every run each node has its own inode number.
use rustsmb.Base.{
  ℕ, suc, ◌+◌, ◌^◌, ◌≤◌, ◌<◌, ◌≡◌, nat_key, refl, sym, ◌∙◌, anyb, filterb, some, List, [], ◌∷◌,
  list_key, Bool-cases, Option-cases, inl, inr, arith,
}
use rustsmb.Base.Map
use rustsmb.Core.Action.{ok}
use rustsmb.Vfs.{Text, FileHandle, FileLock}
use rustsmb.MemoryFs.Node.{new_metadata}
use rustsmb.MemoryFs.{MemoryBackend, Op, new}
use rustsmb.MemoryFs.Handles.{
  write, close, other_range, with_lock, locks_of, locks_conflict, on_open_node, lock_range,
  unlock_range,
}
use rustsmb.MemoryFs.Runs.Inodes.{ino_at, Inodes}
use rustsmb.MemoryFs.Runs.Kept.{
  chmod-KeepsAll, chown-KeepsAll, utimes-KeepsAll, truncate-KeepsAll, setxattr-KeepsAll,
  removexattr-KeepsAll, write-KeepsAll,
}
use rustsmb.MemoryFs.Runs.Steps.{
  Sound, KeepsAll-Sound, mkdir-Sound, make_symlink-Sound, unlink-Sound, rmdir-Sound, rename-Sound,
}
use rustsmb.MemoryFs.Runs.{
  Step, opens, writes, closes, locks, unlocks, mkdirs, rmdirs, unlinks, symlinks, renames, chmods,
  chowns, touches, truncates, sets_xattr, removes_xattr, Run, started, stepped,
}
use rustsmb.MemoryFs.Runs.Opens.{SameTree, same-Sound, open_path-Sound}

module _ (s : MemoryBackend) where
  close-Sound : (handle : FileHandle) → Sound s (close handle s).1
  unfolding close
  close-Sound handle = elim (Option-cases handle.backend_internal_id) [
    | inl no_node ↦ rw no_node (same-Sound s s (record { root = refl; counter = refl }))
    | inr (node_id, has) ↦ rw has (λ inodes small. (inodes, omega arith))
  ]

  on_open_node-Sound :
      (handle : FileHandle) (act : ℕ → Op (Unit {0}))
      → ((node_id : ℕ) → SameTree s (act node_id s).1)
      → Sound s (on_open_node handle act s).1
  on_open_node-Sound handle act same = elim (Option-cases handle.backend_internal_id) [
    | inl no_node ↦ rw no_node (same-Sound s s (record { root = refl; counter = refl }))
    | inr (node_id, has) ↦ elim (Bool-cases (Map.contains_key node_id s.open_files)) [
      | inl there ↦ rw (has, there) (same-Sound s (act node_id s).1 (same node_id))
      | inr closed ↦ rw (has, closed) (same-Sound s s (record { root = refl; counter = refl }))
    ]
  ]

  with_lock-SameTree : (lock : FileLock) (node_id : ℕ) → SameTree s (with_lock node_id lock s).1
  with_lock-SameTree lock node_id =
      elim (Bool-cases (anyb (locks_conflict lock) (locks_of node_id s))) [
        | inl taken ↦ rw taken (record { root = refl; counter = refl })
        | inr free ↦ rw free (record { root = refl; counter = refl })
      ]

  lock_range-Sound : (handle : FileHandle) (lock : FileLock) → Sound s (lock_range handle lock s).1
  unfolding lock_range
  lock_range-Sound handle lock =
      on_open_node-Sound handle (λ node_id. with_lock node_id lock) (with_lock-SameTree lock)

  unlock_range-Sound :
      (handle : FileHandle) (lock : FileLock) → Sound s (unlock_range handle lock s).1
  unfolding unlock_range
  unlock_range-Sound handle lock =
      on_open_node-Sound handle
        (λ node_id s.
          (ok tt, record s { locks = Map.modify node_id (filterb (other_range lock)) s.locks }))
        (λ node_id. record { root = refl; counter = refl })

Step-Sound : (s s' : MemoryBackend) → Step s s' → Sound s s'
Step-Sound s _ (opens now id path params) = open_path-Sound s now id path params
Step-Sound s _ (writes now handle offset bytes) =
    KeepsAll-Sound s (write now handle offset bytes s).1 (write-KeepsAll s now handle offset bytes)
Step-Sound s _ (closes handle) = close-Sound s handle
Step-Sound s _ (locks handle lock) = lock_range-Sound s handle lock
Step-Sound s _ (unlocks handle lock) = unlock_range-Sound s handle lock
Step-Sound s _ (mkdirs now path mode) = mkdir-Sound s now path mode
Step-Sound s _ (rmdirs path) = rmdir-Sound s path
Step-Sound s _ (unlinks path) = unlink-Sound s path
Step-Sound s _ (symlinks now target path) = make_symlink-Sound s now target path
Step-Sound s _ (renames old_path new_path) = rename-Sound s old_path new_path
Step-Sound s s' (chmods now path mode) = KeepsAll-Sound s s' (chmod-KeepsAll s now path mode)
Step-Sound s s' (chowns now path uid gid) = KeepsAll-Sound s s' (chown-KeepsAll s now path uid gid)
Step-Sound s s' (touches now path atime mtime) =
    KeepsAll-Sound s s' (utimes-KeepsAll s now path atime mtime)
Step-Sound s s' (truncates now path size) = KeepsAll-Sound s s' (truncate-KeepsAll s now path size)
Step-Sound s s' (sets_xattr path name value) =
    KeepsAll-Sound s s' (setxattr-KeepsAll s path name value)
Step-Sound s s' (removes_xattr path name) = KeepsAll-Sound s s' (removexattr-KeepsAll s path name)

-- A new file system is its root.
new_only :
    (now : ℕ) (names : List Text) (i : ℕ)
    → ino_at names (new now).root ≡ some i
    → (names ≡ []) × (i ≡ 1)
unfolding new new_metadata
new_only now [] i e = (refl, ground (arith, e))
new_only now (name ∷ names) i e = absurd cc

new-Inodes : (now : ℕ) → Inodes (new now).root 2
new-Inodes now = record {
  given = λ names i e. omega (arith, (new_only now names i e).1);
  unique = λ names others i e e'. (new_only now names i e).0 ∙ sym (new_only now others i e').0;
}

-- After any run of fewer than 2 ^ 64 - 2 operations each node of the tree has its own inode number, which
-- is less than the next one to be given out.
pub Run-Inodes :
    (n : ℕ) (s : MemoryBackend)
    → Run n s
    → n + 2 < 2 ^ 64
    → Inodes s.root s.inode_counter × (s.inode_counter ≤ n + 2)
unfolding new
Run-Inodes _ _ (started now) small = (new-Inodes now, omega arith)
Run-Inodes (suc n) s' (stepped {s = s} run step) small =
    let (inodes, bound) = Run-Inodes n s run (omega arith) in
    let (inodes', bound') = Step-Sound s s' step inodes (omega arith) in (inodes', omega arith)
