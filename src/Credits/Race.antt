-- ===== src/Credits/Race.antt =====
-- `consume` and `grant` of crates/rustsmb-session/src/credits.rs as threads run them: each step is
-- one atomic access, and the steps of any number of threads interleave freely. The relaxed counters
-- are read by no branch, so each access is taken as one step on the shared numbers.
pub mod Conserved
use rustsmb.Base.{ℕ, ◌+◌, ◌-◌, ◌%◌, ◌^◌, ◌≤◌, ◌<◌, ◌≡◌, ◌≢◌, max, List, ◌∷◌, ◌++◌, add_u64}
use rustsmb.Credits.{CreditManager, actual_grant}

-- Where a thread stands: before the load, between load and exchange with what it loaded, or after
-- the exchange and before the counter is raised.
pub data Phase : Type 0 where
  idle : Phase
  consuming : (charge : ℕ) → Phase
  exchange_consume : (charge current : ℕ) → Phase
  debited : (charge : ℕ) → Phase
  granting : (credits : ℕ) → Phase
  exchange_grant : (credits actual current : ℕ) → Phase
  credited : (actual : ℕ) → Phase

-- One access of one thread, from a manager and a phase to a manager and a phase.
-- `compare_exchange_weak` may fail although the values agree.
pub data Access (m : CreditManager) : Phase → CreditManager → Phase → Type 0 where
  call_consume : (credit_charge : ℕ) → Access m idle m (consuming (max credit_charge 1))
  load_consume :
      (charge : ℕ)
      → charge ≤ m.available
      → Access m (consuming charge) m (exchange_consume charge m.available)
  refuse_consume : (charge : ℕ) → m.available < charge → Access m (consuming charge) m idle
  take_consume :
      (charge current : ℕ)
      → m.available ≡ current
      → Access m
          (exchange_consume charge current)
          (record m { available = current - charge })
          (debited charge)
  retry_consume :
      (charge current : ℕ) → Access m (exchange_consume charge current) m (consuming charge)
  count_consume :
      (charge : ℕ)
      → Access m (debited charge) (record m { consumed = add_u64 m.consumed charge }) idle
  call_grant : (credits : ℕ) → credits ≢ 0 → Access m idle m (granting credits)
  load_grant :
      (credits : ℕ)
      → actual_grant m credits ≢ 0
      → Access m (granting credits) m (exchange_grant credits (actual_grant m credits) m.available)
  refuse_grant : (credits : ℕ) → actual_grant m credits ≡ 0 → Access m (granting credits) m idle
  take_grant :
      (credits actual current : ℕ)
      → m.available ≡ current
      → Access m
          (exchange_grant credits actual current)
          (record m { available = (current + actual) % 2 ^ 16 })
          (credited actual)
  retry_grant :
      (credits actual current : ℕ)
      → Access m (exchange_grant credits actual current) m (granting credits)
  count_grant :
      (actual : ℕ)
      → Access m (credited actual) (record m { granted = add_u64 m.granted actual }) idle

pub record Threads : Type 0 where
  pub manager : CreditManager
  pub phases : List Phase

-- One thread makes one access, the others stand still.
pub data Step (s t : Threads) : Type 0 where
  step :
      (before after : List Phase) (p q : Phase)
      → s.phases ≡ before ++ (p ∷ after)
      → t.phases ≡ before ++ (q ∷ after)
      → Access s.manager p t.manager q
      → Step s t

pub data Run (s : Threads) : Threads → Type 0 where
  start : Run s s
  next : {t u : Threads} → Run s t → Step t u → Run s u
