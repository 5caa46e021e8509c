-- ===== src/Credits/Charge.antt =====
-- What a request costs.
use rustsmb.Base.{ℕ, ◌*◌, ◌≤◌, ◌<◌, ◌≡◌, ◌↔◌, max, some, arith}
use rustsmb.Core.Action.{ok}
use rustsmb.Credits.{CreditManager, u16_max, calculate_charge, validate_charge, consume}

-- For units of `unit` bytes, the charge is at most `c` credits, from 1 to 65534, exactly when `c` units
-- hold the payload: below its cap it is the fewest credits that pay for it.
pub calculate_charge-le_iff :
    (payload unit c : ℕ)
    → 0 < unit
    → 0 < c
    → c < u16_max
    → (calculate_charge payload unit ≤ c) ↔ (payload ≤ c * unit)
unfolding calculate_charge
calculate_charge-le_iff payload unit c hu hc hm = (λ h. grind arith, λ h. grind arith)

calculate_charge_range :
    (payload unit : ℕ)
    → (1 ≤ calculate_charge payload unit) × (calculate_charge payload unit ≤ u16_max)
unfolding calculate_charge
calculate_charge_range payload unit = ground arith

-- A charge is valid exactly when it pays for the payload and `consume` would take it, and then it is
-- what `consume` takes.
validate_charge_iff :
    (m : CreditManager) (charge payload unit a : ℕ)
    → (validate_charge m charge payload unit ≡ ok a)
      ↔ ((calculate_charge payload unit ≤ max charge 1) × ((consume m charge).1 ≡ some a))
unfolding validate_charge consume
validate_charge_iff m charge payload unit a = (λ h. ground arith, λ h. ground arith)
