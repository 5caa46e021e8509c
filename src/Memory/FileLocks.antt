-- ===== src/Memory/FileLocks.antt =====
-- crates/rustsmb-state-memory/src/lib.rs: the byte-range locks of the in-memory store.
pub mod Exclusion
use rustsmb.Base.{
  ℕ, String, Bool, true, false, not, List, filterb, anyb, string_key, nat_key, ◌==◌, add_u64,
  if◌then◌else◌,
}
use rustsmb.Base.Map.{insert, remove, retain, values}
use rustsmb.Core.Action.{ok}
use rustsmb.State.Lock.{DistributedLock, conflicts_with}
use rustsmb.Memory.{Store}

unfoldable pub acquire_file_lock : DistributedLock → Store Bool
acquire_file_lock lock s =
    if anyb (conflicts_with lock) (values s.file_locks)
    then (ok false, s)
    else (ok true, record s { file_locks = insert lock.lock_id lock s.file_locks })

unfoldable pub release_file_lock : ℕ → Store (Unit {0})
release_file_lock lock_id s = (ok tt, record s { file_locks = remove lock_id s.file_locks })

unfoldable pub get_file_locks : String → Store (List DistributedLock)
get_file_locks file_path s = (ok (filterb (λ l. l.file_path == file_path) (values s.file_locks)), s)

unfoldable pub release_file_locks_for_session : ℕ → Store (Unit {0})
release_file_locks_for_session session_id s =
    (ok tt, record s { file_locks = retain (λ l. not (l.session_id == session_id)) s.file_locks })

unfoldable pub release_file_locks_for_handle : ℕ → Store (Unit {0})
release_file_locks_for_handle handle_id s =
    (ok tt, record s { file_locks = retain (λ l. not (l.handle_id == handle_id)) s.file_locks })

unfoldable pub release_file_locks_for_server : String → Store (Unit {0})
release_file_locks_for_server server_id s =
    (ok tt, record s { file_locks = retain (λ l. not (l.server_id == server_id)) s.file_locks })

unfoldable pub next_file_lock_id : Store ℕ
next_file_lock_id s =
    (ok s.file_lock_counter, record s { file_lock_counter = add_u64 s.file_lock_counter 1 })
