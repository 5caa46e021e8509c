-- ===== src/Credits/Balance.antt =====
-- The balance in a single thread: its bound, and when nothing is granted.
use rustsmb.Base.{
  ℕ, ◌+◌, ◌^◌, ◌≤◌, ◌<◌, ◌≡◌, ◌⊎◌, ◌↔◌, refl, max, Bool, true, false, List, [], ◌∷◌, arith,
}
use rustsmb.Credits.{
  CreditConfig, CreditManager, u16_max, with_config, consume, grant, calculate_grant, reset,
}

-- The configured numbers fit 16 bits.
pub record IsConfig (c : CreditConfig) : Type 0 where
  pub initial_fits : c.initial_credits ≤ u16_max
  pub max_fits : c.max_credits ≤ u16_max
  pub grant_fits : c.grant_per_response ≤ u16_max

abbrev pub bound : CreditConfig → ℕ
bound c = max c.initial_credits c.max_credits

pub data CreditCall : Type 0 where
  consumes grants : ℕ → CreditCall
  resets : CreditCall

unfoldable pub call : CreditManager → CreditCall → CreditManager
call m (consumes n) = (consume m n).0
call m (grants n) = (grant m n).0
call m resets = reset m

unfoldable pub calls : CreditManager → List CreditCall → CreditManager
calls m [] = m
calls m (c ∷ cs) = calls (call m c) cs

call_bounded :
    (m : CreditManager) (c : CreditCall)
    → IsConfig m.config
    → m.available ≤ bound m.config
    → ((call m c).available ≤ bound m.config) × ((call m c).config ≡ m.config)
unfolding call consume grant reset
call_bounded m (consumes n) f h = ground arith
call_bounded m (grants n) f h = ground arith
call_bounded m resets f h = ground arith

calls_bounded :
    (m : CreditManager) (config : CreditConfig) (cs : List CreditCall)
    → IsConfig config
    → m.config ≡ config
    → m.available ≤ bound config
    → (calls m cs).available ≤ bound config
unfolding calls
calls_bounded m config [] f e h = h
calls_bounded m config (c ∷ cs) f e h =
    ground (arith, call_bounded m c, calls_bounded (call m c) config cs f)

-- After any calls of `consume`, `grant` and `reset` on a new manager, whatever their arguments, the
-- balance is at most the larger of the initial credits and the maximum.
calls-with_config_bounded :
    (config : CreditConfig) (cs : List CreditCall)
    → IsConfig config
    → (calls (with_config config) cs).available ≤ bound config
unfolding with_config
calls-with_config_bounded config cs f =
    calls_bounded (with_config config) config cs f refl (ground arith)

-- What `calculate_grant` proposes, `grant` grants in full, and the balance grows by just that and
-- stays within the maximum.
grant-calculate_grant :
    (m : CreditManager) (requested : ℕ) (is_async : Bool)
    → IsConfig m.config
    → m.available ≤ m.config.max_credits
    → let n = calculate_grant m requested is_async in
      ((grant m n).1 ≡ n)
      × ((grant m n).0.available ≡ m.available + n)
      × ((grant m n).0.available ≤ m.config.max_credits)
unfolding calculate_grant grant
grant-calculate_grant m requested is_async f h = ground arith

-- A client below the maximum gets a credit with each adaptive response.
no_starvation :
    (m : CreditManager) (requested : ℕ) (is_async : Bool)
    → m.config.adaptive_grants ≡ true
    → m.available < m.config.max_credits
    → 1 ≤ (grant m (calculate_grant m requested is_async)).1
unfolding calculate_grant grant
no_starvation m requested is_async a h = ground arith

-- Nothing is granted exactly when the balance is at the maximum, or adaptive grants are off and none
-- is configured per response, whatever is asked for; and where something is, `grant` with it raises
-- the credits that are available by just that and to the maximum at most, below 2 ^ 16.
pub no_grant_iff :
    (m : CreditManager) (requested : ℕ) (is_async : Bool)
    → m.config.max_credits < 2 ^ 16
    → m.available < 2 ^ 16
    → ((calculate_grant m requested is_async ≡ 0) ↔ (
        (m.config.max_credits ≤ m.available)
        ⊎ ((m.config.adaptive_grants ≡ false) × (m.config.grant_per_response ≡ 0))))
      × ((grant m (calculate_grant m requested is_async)).0.available
          ≡ m.available + calculate_grant m requested is_async)
      × (m.available + calculate_grant m requested is_async ≤ max m.available m.config.max_credits)
unfolding calculate_grant grant
no_grant_iff m requested is_async h k = ground arith
