-- ===== src/Coord/Epoch.antt =====
-- The cache epoch of the coordinators, and what is left of a server that failed.
use rustsmb.Base.{
  ℕ, ◌+◌, ◌^◌, ◌<◌, ◌≡◌, String, Bool, not, none, List, [], ◌∷◌, filterb, inl, inr, Bool-cases,
  string_key, ◌==◌, if◌then◌else◌, arith,
}
use rustsmb.Base.Map.{get, keep, IsMap, contains_key, get-remove, get-retain}
use rustsmb.State.Lock.{DistributedLock}
use rustsmb.Coord.{
  CoordinationState, CoordRequest, register_server, unregister_server, update_heartbeat,
  increment_epoch, create_lease, update_lease, delete_lease, leases_for_file, check_conflict,
  release_leases_for_server, acquire_lock, release_lock, release_locks_for_session,
  release_locks_for_handle, release_locks_for_server, new, apply, replay, get_locks_for_file,
  keep_locks, grant_lock,
}
use rustsmb.Coord.Locks.{get-keep_locks}

-- How many requests of a log invalidate the caches.
abbrev invalidations : List CoordRequest → ℕ
invalidations [] = 0
invalidations (unregister_server id ∷ rs) = 1 + invalidations rs
invalidations (increment_epoch ∷ rs) = 1 + invalidations rs
invalidations (_ ∷ rs) = invalidations rs

grant_lock-cache_epoch :
    (s : CoordinationState) (l : DistributedLock) → (grant_lock s l).0.cache_epoch ≡ s.cache_epoch
unfolding grant_lock
grant_lock-cache_epoch s l = ground arith

replay_epoch :
    (s : CoordinationState) (rs : List CoordRequest)
    → s.cache_epoch + invalidations rs < 2 ^ 64
    → (replay s rs).cache_epoch ≡ s.cache_epoch + invalidations rs
unfolding replay apply keep_locks
replay_epoch s [] h = omega arith
replay_epoch s (register_server reg ∷ rs) h = replay_epoch _ rs h
replay_epoch s (unregister_server id ∷ rs) h =
    ground (arith, replay_epoch (apply s (unregister_server id)).0 rs (omega arith))
replay_epoch s (update_heartbeat id t ∷ rs) h = replay_epoch _ rs h
replay_epoch s (increment_epoch ∷ rs) h =
    ground (arith, replay_epoch (apply s increment_epoch).0 rs (omega arith))
replay_epoch s (create_lease l ∷ rs) h = elim (Bool-cases (contains_key l.lease_key s.leases)) [
  | inl there ↦ rw (there, replay, apply) (replay_epoch s rs h)
  | inr new ↦ rw (new, replay, apply) (replay_epoch _ rs h)
]
replay_epoch s (update_lease l ∷ rs) h = replay_epoch _ rs h
replay_epoch s (delete_lease key ∷ rs) h = replay_epoch _ rs h
replay_epoch s (leases_for_file path ∷ rs) h = replay_epoch _ rs h
replay_epoch s (check_conflict path key requested ∷ rs) h = replay_epoch _ rs h
replay_epoch s (release_leases_for_server id ∷ rs) h = replay_epoch _ rs h
replay_epoch s (acquire_lock l ∷ rs) h =
    let same = grant_lock-cache_epoch s l in
    ground (arith, replay_epoch (grant_lock s l).0 rs (ground arith))
replay_epoch s (release_lock id ∷ rs) h = replay_epoch _ rs h
replay_epoch s (release_locks_for_session id ∷ rs) h = replay_epoch _ rs h
replay_epoch s (release_locks_for_handle id ∷ rs) h = replay_epoch _ rs h
replay_epoch s (release_locks_for_server id ∷ rs) h = replay_epoch _ rs h

-- After any log from the empty state whose epochs fit 64 bits, the epoch is one more than the number
-- of servers that were unregistered and of increments that were asked for: no other request moves it.
replay-cache_epoch :
    (rs : List CoordRequest)
    → 1 + invalidations rs < 2 ^ 64
    → (replay new rs).cache_epoch ≡ 1 + invalidations rs
unfolding new
replay-cache_epoch rs h = replay_epoch new rs h

-- When a server is unregistered and its leases and locks are released, it is not registered any more,
-- each lease and each lock of it is gone, and each of another server stays as it was; the caches
-- are invalidated.
pub failed_server :
    (s : CoordinationState) (id key path other : String)
    → IsMap s.leases
    → s.cache_epoch + 1 < 2 ^ 64
    → let t =
        replay s (
          unregister_server id ∷ release_leases_for_server id ∷ release_locks_for_server id ∷ []) in
      (get other t.servers ≡ (if id == other then none else get other s.servers))
      × (get key t.leases ≡ keep (λ l. not (l.server_id == id)) (get key s.leases))
      × (get_locks_for_file t path
          ≡ filterb (λ l. not (l.server_id == id)) (get_locks_for_file s path))
      × (t.cache_epoch ≡ s.cache_epoch + 1)
unfolding replay apply keep_locks get_locks_for_file
failed_server s id key path other h fits =
    let keeps : DistributedLock → Bool = λ l. not (l.server_id == id) in
    (
      get-remove id other s.servers,
      get-retain (λ l. not (l.server_id == id)) key s.leases h,
      get-keep_locks keeps s path,
      ground arith,
    )
