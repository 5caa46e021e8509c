-- ===== src/State/Lease/Compatible.antt =====
-- Leases that may stand side by side, and what `judge` grants beside those on a file.
use rustsmb.Base.{
  ℕ, ◌-◌, ◌*◌, ◌/◌, ◌%◌, ◌^◌, ◌<◌, ◌≡◌, ◌↔◌, bit_and, true, false, ap, nat_eq, if◌then◌else◌, arith,
}
use rustsmb.Base.Bits.{bit_and-zero, bit_and_two, bit_and_not_two, bit_and_halves}
use rustsmb.State.Lease.{has_write, leases_conflict, clear_write}

-- Bit 1 of a lease state is write caching.
abbrev Writes : ℕ → Type 0
Writes s = s / 2 % 2 ≡ 1

-- A lease with write caching stands beside no other caching.
abbrev pub Compatible : ℕ → ℕ → Type 0
Compatible s t = (Writes s → t ≡ 0) × (Writes t → s ≡ 0)

pub has_write_lem : (s : ℕ) → has_write s ≡ nat_eq (s / 2 % 2) 1
unfolding has_write
has_write_lem s = ground (arith, bit_and_two s)

-- Two leases pass the test of both components exactly when they are compatible: where one caches
-- writes, the other caches nothing.
pub leases_conflict_iff : (s t : ℕ) → (leases_conflict s t ≡ false) ↔ Compatible s t
unfolding leases_conflict
leases_conflict_iff s t = ground (arith, has_write_lem s, has_write_lem t)

pub clear_write_lem : (s : ℕ) → s < 2 ^ 32 → clear_write s ≡ s - s / 2 % 2 * 2
unfolding clear_write
clear_write_lem s h = bit_and_not_two s h

-- The state that is granted when no conflicting lease has write caching.
abbrev pub reduced : ℕ → ℕ
reduced r = if has_write r then clear_write r else r

pub Compatible-reduced :
    (e r : ℕ)
    → r < 2 ^ 32
    → (leases_conflict e r ≡ true → has_write e ≡ false)
    → Compatible e (reduced r)
unfolding leases_conflict
Compatible-reduced e r h f = ground (arith, has_write_lem e, has_write_lem r, clear_write_lem r h)

-- A part of a state is compatible with whatever the state is compatible with.
pub Compatible-part : (e s t : ℕ) → bit_and t s ≡ t → Compatible e s → Compatible e t
Compatible-part e s t part c = (
  λ w. let none : s ≡ 0 = c.0 w in omega (arith, part, ap (bit_and t) none, bit_and-zero t),
  λ w. c.1 (omega (arith, w, part, bit_and_halves t s, bit_and_halves (t / 2) (s / 2))),
)
