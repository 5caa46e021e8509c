-- ===== src/Coord.antt =====
-- crates/rustsmb-coord-raft/src/state.rs: the state machine that the coordinators replicate, and
-- crates/rustsmb-state/src/coordination.rs: the registration of a server.
pub mod Grant
pub mod Locks
pub mod Epoch
mod Examples
use rustsmb.Base.{
  ℕ, String, Bool, true, false, not, ◌&&◌, Option, none, some, List, [], ◌∷◌, ◌++◌, map, filterb,
  anyb, nat_key, string_key, ◌==◌, ltb, add_u64, if◌then◌else◌,
}
use rustsmb.Base.Map.{
  Map, get, insert, remove, modify, values, keys, retain, contains_key, map_values,
}
use rustsmb.State.Lease.{LeaseEntry, LeaseConflictResult, judge}
use rustsmb.State.Lock.{DistributedLock, conflicts_with}

pub record ServerRegistration : Type 0 where
  pub server_id : String
  pub hostname : String
  pub port : ℕ
  pub raft_addr : String
  pub registered_at : ℕ
  pub last_heartbeat : ℕ
  pub active_sessions : ℕ
  pub active_handles : ℕ

pub data CoordRequest : Type 0 where
  register_server : ServerRegistration → CoordRequest
  unregister_server : String → CoordRequest
  update_heartbeat : (server_id : String) (timestamp : ℕ) → CoordRequest
  increment_epoch : CoordRequest
  create_lease update_lease : LeaseEntry → CoordRequest
  delete_lease leases_for_file : String → CoordRequest
  check_conflict :
      (file_path : String) (requestor_lease_key : Option String) (requested_state : ℕ)
      → CoordRequest
  release_leases_for_server : String → CoordRequest
  acquire_lock : DistributedLock → CoordRequest
  release_lock release_locks_for_session release_locks_for_handle : ℕ → CoordRequest
  release_locks_for_server : String → CoordRequest

pub data CoordResponse : Type 0 where
  done : CoordResponse
  at_epoch : ℕ → CoordResponse
  server : Option ServerRegistration → CoordResponse
  servers : List ServerRegistration → CoordResponse
  lease : Option LeaseEntry → CoordResponse
  leases : List LeaseEntry → CoordResponse
  lease_conflict : LeaseConflictResult → CoordResponse
  lock_granted : Bool → CoordResponse
  lock_granted_with_id : Bool → ℕ → CoordResponse
  locks : List DistributedLock → CoordResponse
  failed : String → CoordResponse

pub record CoordinationState : Type 0 where
  pub cache_epoch : ℕ
  pub servers : Map String ServerRegistration
  pub leases : Map String LeaseEntry
  pub locks : Map String (List DistributedLock)
  pub next_lock_id : ℕ

unfoldable pub new : CoordinationState
new = record { cache_epoch = 1; servers = []; leases = []; locks = []; next_lock_id = 1 }

unfoldable pub get_leases_for_file : CoordinationState → String → List LeaseEntry
get_leases_for_file s file_path = filterb (λ l. l.file_path == file_path) (values s.leases)

abbrev other_key : Option String → LeaseEntry → Bool
other_key none l = true
other_key (some k) l = not (l.lease_key == k)

unfoldable pub check_lease_conflict :
    CoordinationState → String → Option String → ℕ → LeaseConflictResult
check_lease_conflict s file_path requestor_lease_key requested_state =
    judge
      (filterb (λ l. l.file_path == file_path && other_key requestor_lease_key l) (values s.leases))
      requested_state

abbrev pub or_empty : Option (List DistributedLock) → List DistributedLock
or_empty none = []
or_empty (some ls) = ls

unfoldable pub get_locks_for_file : CoordinationState → String → List DistributedLock
get_locks_for_file s file_path = or_empty (get file_path s.locks)

-- `entry(path).or_default()`
abbrev pub or_default :
    String → Map String (List DistributedLock) → Map String (List DistributedLock)
or_default path m = if contains_key path m then m else insert path [] m

-- The handler of `AcquireLock`: the ID is used up whether or not the lock is granted.
unfoldable pub grant_lock : CoordinationState → DistributedLock → CoordinationState × CoordResponse
unfolding get_locks_for_file
grant_lock s request =
    let numbered : DistributedLock = record request { lock_id = s.next_lock_id } in
    let counted : CoordinationState = record s {
      next_lock_id = add_u64 s.next_lock_id 1;
      locks = or_default request.file_path s.locks;
    } in
    if anyb (conflicts_with numbered) (get_locks_for_file counted request.file_path)
    then (counted, lock_granted false)
    else (
      record counted {
        locks = modify request.file_path (λ ls. ls ++ (numbered ∷ [])) counted.locks;
      },
      lock_granted true,
    )

-- `for locks in self.locks.values_mut() { locks.retain(|l| keeps(l)) }`
unfoldable pub keep_locks : (DistributedLock → Bool) → CoordinationState → CoordinationState
keep_locks keeps s = record s { locks = map_values (filterb keeps) s.locks }

unfoldable pub apply : CoordinationState → CoordRequest → CoordinationState × CoordResponse
apply s (register_server reg) = (record s { servers = insert reg.server_id reg s.servers }, done)
apply s (unregister_server id) =
    let epoch = add_u64 s.cache_epoch 1 in
    (record s { servers = remove id s.servers; cache_epoch = epoch }, at_epoch epoch)
apply s (update_heartbeat id timestamp) = (
  record s { servers = modify id (λ r. record r { last_heartbeat = timestamp }) s.servers },
  done,
)
apply s increment_epoch =
    let epoch = add_u64 s.cache_epoch 1 in (record s { cache_epoch = epoch }, at_epoch epoch)
apply s (create_lease l) =
    if contains_key l.lease_key s.leases
    then (s, failed "Lease already exists")
    else (record s { leases = insert l.lease_key l s.leases }, done)
apply s (update_lease l) = (record s { leases = insert l.lease_key l s.leases }, done)
apply s (delete_lease key) = (record s { leases = remove key s.leases }, done)
apply s (leases_for_file path) = (s, leases (get_leases_for_file s path))
apply s (check_conflict path key requested) =
    (s, lease_conflict (check_lease_conflict s path key requested))
apply s (release_leases_for_server id) =
    (record s { leases = retain (λ l. not (l.server_id == id)) s.leases }, done)
apply s (acquire_lock l) = grant_lock s l
apply s (release_lock id) = (keep_locks (λ l. not (l.lock_id == id)) s, done)
apply s (release_locks_for_session id) = (keep_locks (λ l. not (l.session_id == id)) s, done)
apply s (release_locks_for_handle id) = (keep_locks (λ l. not (l.handle_id == id)) s, done)
apply s (release_locks_for_server id) = (keep_locks (λ l. not (l.server_id == id)) s, done)

unfoldable pub get_stale_servers : CoordinationState → ℕ → List String
get_stale_servers s threshold = keys (retain (λ r. ltb r.last_heartbeat threshold) s.servers)

-- A log of requests, applied in its order, as every replica applies it.
unfoldable pub replay : CoordinationState → List CoordRequest → CoordinationState
unfolding apply
replay s [] = s
replay s (r ∷ rs) = replay (apply s r).0 rs
