-- ===== src/State/Examples.antt =====
-- Tests of the lease and lock rules of crates/rustsmb-state/src/coordination.rs.
use rustsmb.Base.{◌≡◌, ◌↔◌, refl, bit_and, true, false, [], ◌∷◌, arith}
use rustsmb.State.Lock.{conflicts_with}
use rustsmb.State.Lock.Overlap.{Clash, conflicts_with_iff}
use rustsmb.State.Samples.{lock_at, lease_with}
use rustsmb.State.Lease.{leases_conflict, judge, has_write, reduce_lease_state, clear_write}
use rustsmb.State.Lease.Judge.{AllCompatible, judge_largest}

-- Beside a reader, a request to read, to write and to keep handles is reduced to the other two.
judge_test : (judge (lease_with "k" 1 ∷ []) 7).granted_state ≡ 5
unfolding judge leases_conflict has_write reduce_lease_state clear_write
judge_test = refl

conflicts_with_iff_example :
    (conflicts_with (lock_at 1 0 true) (lock_at 2 5 false) ≡ true)
    ↔ Clash (lock_at 1 0 true) (lock_at 2 5 false)
conflicts_with_iff_example =
    conflicts_with_iff (lock_at 1 0 true) (lock_at 2 5 false) (omega arith) (omega arith)

judge_largest_example :
    let g = (judge (lease_with "k" 1 ∷ []) 7).granted_state in
    AllCompatible (lease_with "k" 1 ∷ []) g × (bit_and g 7 ≡ g) × (bit_and 5 g ≡ 5)
judge_largest_example =
    judge_largest (lease_with "k" 1 ∷ []) 7 5 (omega arith) refl
      ((λ w. absurd (omega arith), λ w. absurd (omega arith)), tt)
