-- ===== src/Memory.antt =====
-- crates/rustsmb-state-memory/src/lib.rs: the in-memory state store. Each method holds one table's
-- lock for its whole body, so it is one step on the store. A text that an error or a token carries
-- is made of a parameter. Sessions, trees, handles and handle locks stand here, the rest below.
pub mod Leases
pub mod FileLocks
pub mod Tokens
pub mod AsStore
pub mod Samples
mod Examples
use rustsmb.Base.{
  ℕ, ◌+◌, ◌%◌, ◌^◌, String, Bool, true, false, not, ◌&&◌, Option, none, some, List, [], ◌∷◌, map,
  filterb, nat_key, string_key, pair_key, ◌==◌, add_u64, if◌then◌else◌,
}
use rustsmb.Base.Map.{Map, get, insert, remove, modify, values, retain}
use rustsmb.Core.{StateError}
use rustsmb.Core.Action.{Action, ok, pure}
use rustsmb.State.Types.{SessionState, TreeState, HandleState, LockState}
use rustsmb.State.Lease.{LeaseEntry}
use rustsmb.State.Lock.{DistributedLock}

pub record MemoryStateStore : Type 0 where
  pub sessions : Map ℕ SessionState
  pub trees : Map (ℕ × ℕ) TreeState
  pub handles : Map ℕ HandleState
  pub locks : Map ℕ LockState
  pub distributed_locks : Map String String
  pub leases : Map String LeaseEntry
  pub file_locks : Map ℕ DistributedLock
  session_counter : ℕ
  tree_counters : Map ℕ ℕ
  handle_counter : ℕ
  lock_counter : ℕ
  pub file_lock_counter : ℕ

unfoldable pub new : MemoryStateStore
new = record {
  sessions = [];
  trees = [];
  handles = [];
  locks = [];
  distributed_locks = [];
  leases = [];
  file_locks = [];
  session_counter = 1;
  tree_counters = [];
  handle_counter = 1;
  lock_counter = 1;
  file_lock_counter = 1;
}

abbrev pub Store : Type 0 → Type 0
Store = Action MemoryStateStore StateError

unfoldable pub create_session : SessionState → Store (Unit {0})
create_session session s =
    (ok tt, record s { sessions = insert session.session_id session s.sessions })

unfoldable pub get_session : ℕ → Store (Option SessionState)
get_session id s = (ok (get id s.sessions), s)

unfoldable pub update_session : SessionState → Store (Unit {0})
update_session session s =
    (ok tt, record s { sessions = insert session.session_id session s.sessions })

unfoldable pub delete_session : ℕ → Store (Unit {0})
delete_session id s = (ok tt, record s { sessions = remove id s.sessions })

unfoldable refreshed : ℕ → ℕ → SessionState → SessionState
refreshed now ttl session = record session { last_access = now; expires_at = add_u64 now ttl }

-- `ttl` in seconds.
unfoldable pub refresh_session : ℕ → ℕ → ℕ → Store (Unit {0})
unfolding refreshed
refresh_session now id ttl s =
    (ok tt, record s { sessions = modify id (refreshed now ttl) s.sessions })

abbrev has_user : Option String → SessionState → Bool
has_user none session = true
has_user (some u) session = session.user_id == u

unfoldable pub list_sessions : Option String → Store (List SessionState)
list_sessions user_id s = (ok (filterb (has_user user_id) (values s.sessions)), s)

unfoldable pub create_tree : TreeState → Store (Unit {0})
create_tree tree s =
    (ok tt, record s { trees = insert (tree.session_id, tree.tree_id) tree s.trees })

unfoldable pub get_tree : ℕ → ℕ → Store (Option TreeState)
get_tree session_id tree_id s = (ok (get (session_id, tree_id) s.trees), s)

unfoldable pub get_trees_by_session : ℕ → Store (List TreeState)
get_trees_by_session session_id s =
    (ok (map (λ e. e.1) (filterb (λ e. e.0.0 == session_id) s.trees)), s)

unfoldable pub delete_tree : ℕ → ℕ → Store (Unit {0})
delete_tree session_id tree_id s =
    (ok tt, record s { trees = remove (session_id, tree_id) s.trees })

unfoldable pub create_handle : HandleState → Store (Unit {0})
create_handle handle s =
    (ok tt, record s { handles = insert handle.persistent_id handle s.handles })

unfoldable pub get_handle : ℕ → Store (Option HandleState)
get_handle persistent_id s = (ok (get persistent_id s.handles), s)

unfoldable pub update_handle : HandleState → Store (Unit {0})
update_handle handle s =
    (ok tt, record s { handles = insert handle.persistent_id handle s.handles })

unfoldable pub get_handles_by_session : ℕ → Store (List HandleState)
get_handles_by_session session_id s =
    (ok (filterb (λ h. h.session_id == session_id) (values s.handles)), s)

unfoldable pub get_handles_for_file : String → String → Store (List HandleState)
get_handles_for_file share_name file_path s =
    (ok (filterb (λ h. h.share_name == share_name && h.path == file_path) (values s.handles)), s)

unfoldable pub delete_handle : ℕ → Store (Unit {0})
delete_handle persistent_id s = (ok tt, record s { handles = remove persistent_id s.handles })

unfoldable pub create_lock : LockState → Store (Unit {0})
create_lock lock s = (ok tt, record s { locks = insert lock.lock_id lock s.locks })

unfoldable pub get_locks : ℕ → Store (List LockState)
get_locks persistent_id s =
    (ok (filterb (λ l. l.persistent_id == persistent_id) (values s.locks)), s)

unfoldable pub delete_lock : ℕ → Store (Unit {0})
delete_lock lock_id s = (ok tt, record s { locks = remove lock_id s.locks })

-- `fetch_add` wraps at 2 ^ 64.
unfoldable pub next_session_id : Store ℕ
next_session_id s =
    (ok s.session_counter, record s { session_counter = add_u64 s.session_counter 1 })

abbrev counter_of : Option ℕ → ℕ
counter_of none = 1
counter_of (some n) = n

-- `as u32` keeps the low 32 bits.
unfoldable pub next_tree_id : ℕ → Store ℕ
next_tree_id session_id s =
    let counter = counter_of (get session_id s.tree_counters) in
    (
      ok (counter % 2 ^ 32),
      record s { tree_counters = insert session_id (add_u64 counter 1) s.tree_counters },
    )

unfoldable pub next_handle_id : Store ℕ
next_handle_id s = (ok s.handle_counter, record s { handle_counter = add_u64 s.handle_counter 1 })
