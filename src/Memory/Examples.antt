-- ===== src/Memory/Examples.antt =====
-- Tests of the in-memory store of crates/rustsmb-state-memory/src/lib.rs.
use rustsmb.Base.{◌≡◌, refl, true, false, none, some, nat_key, string_key, arith}
use rustsmb.Base.Map.{get, insert}
use rustsmb.Core.Action.{ok}
use rustsmb.State.Samples.{lock_at, lease_with}
use rustsmb.State.Lock.{conflicts_with}
use rustsmb.State.Lock.Overlap.{Clash}
use rustsmb.Memory.{MemoryStateStore, new}
use rustsmb.Memory.FileLocks.{acquire_file_lock}
use rustsmb.Memory.FileLocks.Exclusion
use rustsmb.Memory.FileLocks.Exclusion.{
  IsExclusive, acquire_file_lock_iff, LockRun, LockRun-IsExclusive, LockRun-not-Clash,
}
use rustsmb.Memory.Leases.{check_and_create_lease}
use rustsmb.Memory.Leases.Coherence.{IsCoherent}
use rustsmb.Memory.Leases.Runs
use rustsmb.Memory.Leases.Runs.{LeaseRun, LeaseRun-IsCoherent}
use rustsmb.Memory.Tokens.{
  acquire_distributed_lock, release_distributed_lock, extend_distributed_lock,
}
use rustsmb.Memory.Tokens.Owner.{acquired_lock}

-- Two shared locks on one range are both granted.
abbrev one_lock : MemoryStateStore
one_lock = (acquire_file_lock (lock_at 1 0 false) new).1

one_lock_run : LockRun new one_lock
one_lock_run = Exclusion.next Exclusion.start (Exclusion.asks (lock_at 1 0 false) (omega arith))

abbrev two_locks : MemoryStateStore
two_locks = (acquire_file_lock (lock_at 2 5 false) one_lock).1

two_locks_run : LockRun new two_locks
two_locks_run = Exclusion.next one_lock_run (Exclusion.asks (lock_at 2 5 false) (omega arith))

LockRun-not-Clash_example : ¬ Clash (lock_at 1 0 false) (lock_at 2 5 false)
unfolding new acquire_file_lock conflicts_with insert get
LockRun-not-Clash_example =
    LockRun-not-Clash two_locks_run 1 2 (lock_at 1 0 false) (lock_at 2 5 false) refl refl
      (λ e. absurd (omega arith))

abbrev one_lease : MemoryStateStore
one_lease = (check_and_create_lease "/f" (lease_with "a" 0) 7 new).1

one_lease_run : LeaseRun new one_lease
one_lease_run = Runs.next Runs.start (Runs.asks (lease_with "a" 0) 7 (omega arith))

LeaseRun-IsCoherent_example : IsCoherent one_lease
LeaseRun-IsCoherent_example = LeaseRun-IsCoherent one_lease_run

acquired_lock_example :
    let t = (acquire_distributed_lock "x" "key" new).1 in
    ((acquire_distributed_lock "x" "key" new).0 ≡ ok (some "x"))
    × ((acquire_distributed_lock "y" "key" t).0 ≡ ok none)
    × ((extend_distributed_lock "key" "x" t).0 ≡ ok true)
    × ((extend_distributed_lock "key" "y" t).0 ≡ ok false)
    × ((release_distributed_lock "key" "y" t).1 ≡ t)
    × ((acquire_distributed_lock "y" "key" (release_distributed_lock "key" "x" t).1).0
        ≡ ok (some "y"))
unfolding new get
acquired_lock_example =
    acquired_lock new "key" "x" "y" refl (λ e. cc ((string_key.same_iff "y" "x").1 e))
