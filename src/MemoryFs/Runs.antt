-- ===== src/MemoryFs/Runs.antt =====
-- Runs of the in-memory file system: from a new one, any operations in any order, each at any time and
-- with any arguments, whatever they answer.
pub mod Inodes
pub mod Kept
pub mod Opened
pub mod Steps
pub mod Opens
pub mod Distinct
use rustsmb.Base.{ℕ, suc, List}
use rustsmb.Vfs.{Text, FileHandle, FileLock, CreateParams}
use rustsmb.MemoryFs.{MemoryBackend, new, mkdir, rmdir, unlink, make_symlink, rename}
use rustsmb.MemoryFs.Attributes.{chmod, chown, utimes, truncate, setxattr, removexattr}
use rustsmb.MemoryFs.Handles.{open_path, write, close, lock_range, unlock_range}

pub data Step (s : MemoryBackend) : MemoryBackend → Type 0 where
  opens :
      (now id : ℕ) (path : Text) (params : CreateParams) → Step s (open_path now id path params s).1
  writes :
      (now : ℕ) (handle : FileHandle) (offset : ℕ) (bytes : List ℕ)
      → Step s (write now handle offset bytes s).1
  closes : (handle : FileHandle) → Step s (close handle s).1
  locks : (handle : FileHandle) (lock : FileLock) → Step s (lock_range handle lock s).1
  unlocks : (handle : FileHandle) (lock : FileLock) → Step s (unlock_range handle lock s).1
  mkdirs : (now : ℕ) (path : Text) (mode : ℕ) → Step s (mkdir now path mode s).1
  rmdirs : (path : Text) → Step s (rmdir path s).1
  unlinks : (path : Text) → Step s (unlink path s).1
  symlinks : (now : ℕ) (target path : Text) → Step s (make_symlink now target path s).1
  renames : (old_path new_path : Text) → Step s (rename old_path new_path s).1
  chmods : (now : ℕ) (path : Text) (mode : ℕ) → Step s (chmod now path mode s).1
  chowns : (now : ℕ) (path : Text) (uid gid : ℕ) → Step s (chown now path uid gid s).1
  touches : (now : ℕ) (path : Text) (atime mtime : ℕ) → Step s (utimes now path atime mtime s).1
  truncates : (now : ℕ) (path : Text) (size : ℕ) → Step s (truncate now path size s).1
  sets_xattr : (path name : Text) (value : List ℕ) → Step s (setxattr path name value s).1
  removes_xattr : (path name : Text) → Step s (removexattr path name s).1

-- What `n` operations lead to.
pub data Run : ℕ → MemoryBackend → Type 0 where
  started : (now : ℕ) → Run 0 (new now)
  stepped : {n : ℕ} {s s' : MemoryBackend} → Run n s → Step s s' → Run (suc n) s'
