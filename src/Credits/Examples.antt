-- ===== src/Credits/Examples.antt =====
-- Tests of the credit balance of crates/rustsmb-session/src/credits.rs.
use rustsmb.Base.{
  ℕ, ◌+◌, ◌*◌, ◌%◌, ◌^◌, ◌≤◌, ◌≡◌, ◌↔◌, ◌⊎◌, max, refl, true, false, some, List, [], ◌∷◌, arith,
}
use rustsmb.Credits.{
  CreditManager, default_config, with_config, consume, grant, calculate_grant, calculate_charge,
}
use rustsmb.Credits.Charge.{calculate_charge-le_iff}
use rustsmb.Credits.Balance.{IsConfig, bound, no_grant_iff}
use rustsmb.Credits.Race.{
  Phase, Threads, Step, Run, start, next, step, idle, consuming, exchange_consume, debited,
  call_consume, load_consume, take_consume, count_consume,
}
use rustsmb.Credits.Race.Conserved.{at_rest, Run_bounded, Run_conserves}

-- A manager with 10 of at most 20 credits, and one that does not grant adaptively.
abbrev small : CreditManager
small = record {
  available = 10;
  granted = 10;
  consumed = 0;
  config = record {
    initial_credits = 10;
    max_credits = 20;
    grant_per_response = 1;
    adaptive_grants = true;
  };
}

abbrev frugal : CreditManager
frugal = record {
  available = 10;
  granted = 10;
  consumed = 0;
  config = record {
    initial_credits = 10;
    max_credits = 20;
    grant_per_response = 0;
    adaptive_grants = false;
  };
}

-- Three bytes over one unit cost two credits, and a consumer that asks for 0 pays 1.
charge_test : calculate_charge 65539 65536 ≡ 2
unfolding calculate_charge
charge_test = refl

consume_test : (consume small 0).1 ≡ some 1
unfolding consume
consume_test = refl

default-IsConfig : IsConfig default_config
default-IsConfig = record {
  initial_fits = omega arith;
  max_fits = omega arith;
  grant_fits = omega arith;
}

calculate_charge-le_iff_example : (calculate_charge 65537 65536 ≤ 2) ↔ (65537 ≤ 2 * 65536)
calculate_charge-le_iff_example =
    calculate_charge-le_iff 65537 65536 2 (omega arith) (omega arith) (omega arith)

no_grant_iff_example :
    ((calculate_grant frugal 64 true ≡ 0) ↔ (
      (frugal.config.max_credits ≤ frugal.available)
      ⊎ ((frugal.config.adaptive_grants ≡ false) × (frugal.config.grant_per_response ≡ 0))))
    × ((grant frugal (calculate_grant frugal 64 true)).0.available
        ≡ frugal.available + calculate_grant frugal 64 true)
    × (frugal.available + calculate_grant frugal 64 true
        ≤ max frugal.available frugal.config.max_credits)
no_grant_iff_example = no_grant_iff frugal 64 true (omega arith) (omega arith)

-- One of two threads consumes a credit.
abbrev two_threads : List Phase
two_threads = idle ∷ idle ∷ []

-- The threads after `n` accesses, with the balance, the consumed credits and the first phase given.
abbrev at : ℕ → ℕ → Phase → Threads
at available consumed phase = record {
  manager = record {
    available = available;
    granted = 256;
    consumed = consumed;
    config = default_config;
  };
  phases = phase ∷ idle ∷ [];
}

called : Step (at 256 0 idle) (at 256 0 (consuming 1))
called = step [] (idle ∷ []) idle (consuming 1) refl refl (call_consume 0)

loaded : Step (at 256 0 (consuming 1)) (at 256 0 (exchange_consume 1 256))
loaded =
    step [] (idle ∷ []) (consuming 1) (exchange_consume 1 256) refl refl
      (load_consume 1 (omega arith))

taken : Step (at 256 0 (exchange_consume 1 256)) (at 255 0 (debited 1))
taken = step [] (idle ∷ []) (exchange_consume 1 256) (debited 1) refl refl (take_consume 1 256 refl)

counted : Step (at 255 0 (debited 1)) (at 255 1 idle)
counted = step [] (idle ∷ []) (debited 1) idle refl refl (count_consume 1)

one_consumed : Run (at_rest default_config two_threads) (at 255 1 idle)
unfolding with_config
one_consumed = next (next (next (next start called) loaded) taken) counted

Run_bounded_example : (at 255 1 idle).manager.available ≤ bound default_config
Run_bounded_example =
    Run_bounded default_config two_threads (at 255 1 idle) default-IsConfig (refl, (refl, tt))
      one_consumed

Run_conserves_example :
    ((at 255 1 idle).manager.available + (at 255 1 idle).manager.consumed) % 2 ^ 64
    ≡ (at 255 1 idle).manager.granted % 2 ^ 64
Run_conserves_example =
    Run_conserves default_config two_threads (at 255 1 idle) default-IsConfig (refl, (refl, tt))
      one_consumed (refl, (refl, tt))
