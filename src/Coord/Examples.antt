-- ===== src/Coord/Examples.antt =====
-- Tests of the coordinators' state machine of crates/rustsmb-coord-raft/src/state.rs.
use rustsmb.Base.{
  ◌+◌, ◌≡◌, refl, String, false, not, none, List, [], ◌∷◌, All, In, filterb, inl, inr, string_key,
  ◌==◌, if◌then◌else◌, arith,
}
use rustsmb.Base.Map.{get, insert, modify, contains_key, keep, remove}
use rustsmb.State.Samples.{lock_at}
use rustsmb.State.Lock.{DistributedLock, conflicts_with}
use rustsmb.State.Lock.Overlap.{Clash}
use rustsmb.State.Lease.{LeaseEntry}
use rustsmb.Coord.{
  CoordRequest, acquire_lock, unregister_server, release_leases_for_server,
  release_locks_for_server, new, apply, replay, get_locks_for_file, grant_lock,
}
use rustsmb.Coord.Locks.Replay.{replay-not-Clash, InRange}
use rustsmb.Coord.Epoch.{failed_server}

-- Two shared locks on one range; the IDs that were asked for, 1 and 2, are those given out.
abbrev log : List CoordRequest
log = acquire_lock (lock_at 1 0 false) ∷ acquire_lock (lock_at 2 5 false) ∷ []

log_test : get_locks_for_file (replay new log) "/f" ≡ lock_at 1 0 false ∷ lock_at 2 5 false ∷ []
unfolding replay new apply grant_lock get_locks_for_file get insert modify contains_key remove
    conflicts_with
log_test = refl

first_In : In (lock_at 1 0 false) (get_locks_for_file (replay new log) "/f")
first_In = rw log_test (inl refl)

second_In : In (lock_at 2 5 false) (get_locks_for_file (replay new log) "/f")
second_In = rw log_test (inr (inl refl))

log-InRange : All InRange log
log-InRange = (omega arith, (omega arith, tt))

replay-not-Clash_example : ¬ Clash (lock_at 1 0 false) (lock_at 2 5 false)
replay-not-Clash_example =
    replay-not-Clash log "/f" "/f" (lock_at 1 0 false) (lock_at 2 5 false) log-InRange (omega arith)
      first_In second_In (λ e. absurd (omega arith))

abbrev failing : String
failing = "a"

abbrev running : String
running = "b"

abbrev failover : List CoordRequest
failover =
    unregister_server failing
    ∷ release_leases_for_server failing
    ∷ release_locks_for_server failing
    ∷ []

failed_server_example :
    let s = replay new log in
    let t = replay s failover in
    (get running t.servers ≡ (if failing == running then none else get running s.servers))
    × (get "k" t.leases
        ≡ keep (λ (l : LeaseEntry). not (l.server_id == failing)) (get "k" s.leases))
    × (get_locks_for_file t "/f"
        ≡ filterb
            (λ (l : DistributedLock). not (l.server_id == failing))
            (get_locks_for_file s "/f"))
    × (t.cache_epoch ≡ s.cache_epoch + 1)
unfolding replay new apply grant_lock get_locks_for_file get insert modify contains_key remove
    conflicts_with
failed_server_example = failed_server (replay new log) failing "k" "/f" running tt (omega arith)
