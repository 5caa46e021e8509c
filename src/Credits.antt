-- ===== src/Credits.antt =====
-- crates/rustsmb-session/src/credits.rs: the credit balance of a connection. `consume` and `grant`
-- are here the runs in which `compare_exchange_weak` succeeds at once; the loops, with any number of
-- threads between their steps, are in `Race`.
pub mod Charge
pub mod Balance
pub mod Race
mod Examples
use rustsmb.Base.{
  ℕ, ◌+◌, ◌-◌, ◌*◌, ◌/◌, ◌%◌, ◌^◌, min, max, Bool, true, false, not, Option, none, some, nat_eq,
  ltb, leb, add_u64, if◌then◌else◌,
}
use rustsmb.Core.Action.{Result, ok, err}

abbrev pub u16_max : ℕ
u16_max = 2 ^ 16 - 1

abbrev pub default_initial_credits : ℕ
default_initial_credits = 256

abbrev pub default_max_credits : ℕ
default_max_credits = 8192

abbrev pub min_credits_per_response : ℕ
min_credits_per_response = 1

pub record CreditConfig : Type 0 where
  pub initial_credits : ℕ
  pub max_credits : ℕ
  pub grant_per_response : ℕ
  pub adaptive_grants : Bool

abbrev pub default_config : CreditConfig
default_config = record {
  initial_credits = default_initial_credits;
  max_credits = default_max_credits;
  grant_per_response = 1;
  adaptive_grants = true;
}

pub record CreditManager : Type 0 where
  pub available : ℕ
  pub granted : ℕ
  pub consumed : ℕ
  pub config : CreditConfig

unfoldable pub with_config : CreditConfig → CreditManager
with_config config = record {
  available = config.initial_credits;
  granted = config.initial_credits;
  consumed = 0;
  config = config;
}

unfoldable pub can_satisfy : CreditManager → ℕ → Bool
can_satisfy m credit_charge = leb (max credit_charge 1) m.available

unfoldable pub consume : CreditManager → ℕ → CreditManager × Option ℕ
consume m credit_charge =
    let charge = max credit_charge 1 in
    if ltb m.available charge then (m, none) else (
      record m { available = m.available - charge; consumed = add_u64 m.consumed charge },
      some charge,
    )

-- `credits.min(max_credits.saturating_sub(current))`
unfoldable pub actual_grant : CreditManager → ℕ → ℕ
actual_grant m credits = min credits (m.config.max_credits - m.available)

unfoldable pub grant : CreditManager → ℕ → CreditManager × ℕ
unfolding actual_grant
grant m credits =
    let actual = actual_grant m credits in
    if nat_eq credits 0 then (m, 0) else if nat_eq actual 0 then (m, 0) else (
      record m { available = (m.available + actual) % 2 ^ 16; granted = add_u64 m.granted actual },
      actual,
    )

abbrev saturating_add_u16 : ℕ → ℕ → ℕ
saturating_add_u16 a b = min (a + b) u16_max

abbrev saturating_mul_u16 : ℕ → ℕ → ℕ
saturating_mul_u16 a b = min (a * b) u16_max

-- The adaptive branch before the cap, one step of the source to a line.
unfoldable pub adaptive_grant : CreditManager → ℕ → Bool → ℕ
adaptive_grant m requested is_async =
    let target = m.config.max_credits / 2 in
    let base = max m.config.grant_per_response min_credits_per_response in
    let topped =
      if ltb m.available target
      then saturating_add_u16 base ((target - m.available) / 4)
      else base in
    let honoured = if ltb 0 requested then max topped requested else topped in
    if is_async then saturating_mul_u16 honoured 2 else honoured

unfoldable pub calculate_grant : CreditManager → ℕ → Bool → ℕ
unfolding adaptive_grant
calculate_grant m requested is_async =
    let headroom = m.config.max_credits - m.available in
    if nat_eq headroom 0
    then 0
    else if not m.config.adaptive_grants
    then min m.config.grant_per_response headroom
    else max (min (adaptive_grant m requested is_async) headroom)
        (min min_credits_per_response headroom)

unfoldable pub calculate_charge : ℕ → ℕ → ℕ
calculate_charge payload_size max_payload_per_credit =
    if nat_eq payload_size 0
    then 1
    else min ((payload_size - 1) / max max_payload_per_credit 1 + 1) u16_max

pub data CreditError : Type 0 where
  insufficient_charge : (provided required : ℕ) → CreditError
  insufficient_credits : (requested available : ℕ) → CreditError

unfoldable pub validate_charge : CreditManager → ℕ → ℕ → ℕ → Result CreditError ℕ
unfolding can_satisfy
validate_charge m credit_charge payload_size max_payload_per_credit =
    let min_required = calculate_charge payload_size max_payload_per_credit in
    let actual_charge = max credit_charge 1 in
    if ltb actual_charge min_required
    then err (insufficient_charge actual_charge min_required)
    else if not (can_satisfy m actual_charge)
    then err (insufficient_credits actual_charge m.available)
    else ok actual_charge

unfoldable pub reset : CreditManager → CreditManager
reset m = record m { available = m.config.initial_credits }
