-- ===== src/State/Lease/Judge.antt =====
-- What `judge` grants beside the leases on a file: a state that stands beside all of them, and the
-- largest part of the request that does.
use rustsmb.Base.{
  ℕ, ◌-◌, ◌*◌, ◌/◌, ◌%◌, ◌^◌, ◌<◌, ◌≡◌, ap, bit_and, List, [], ◌∷◌, true, false, anyb, filterb, All,
  arith,
}
use rustsmb.Base.Bits.{bit_and_halves, bit_and_self, zero-bit_and}
use rustsmb.State.Lease.{
  LeaseEntry, has_write, leases_conflict, clear_write, reduce_lease_state, judge, is_empty,
}
use rustsmb.State.Lease.Compatible.{
  Compatible, has_write_lem, leases_conflict_iff, clear_write_lem, reduced, Compatible-reduced,
}

abbrev conflicting : ℕ → List LeaseEntry → List LeaseEntry
conflicting r = filterb (λ l. leases_conflict l.lease_state r)

abbrev writers : List LeaseEntry → List LeaseEntry
writers = filterb (λ l. has_write l.lease_state)

-- Every lease of the list is compatible with a state.
abbrev pub AllCompatible : List LeaseEntry → ℕ → Type 0
AllCompatible ls t = All (λ l. Compatible l.lease_state t) ls

AllCompatible-zero : (ls : List LeaseEntry) → AllCompatible ls 0
AllCompatible-zero [] = tt
AllCompatible-zero (l ∷ ls) = (omega arith, AllCompatible-zero ls)

AllCompatible-reduced :
    (ls : List LeaseEntry) (r : ℕ)
    → r < 2 ^ 32
    → anyb (λ l. has_write l.lease_state) (conflicting r ls) ≡ false
    → AllCompatible ls (reduced r)
AllCompatible-reduced [] r h none = tt
AllCompatible-reduced (l ∷ ls) r h none = (
  Compatible-reduced l.lease_state r h (λ c. ground arith),
  AllCompatible-reduced ls r h (ground arith),
)

AllCompatible-of_empty :
    (ls : List LeaseEntry) (r : ℕ) → is_empty (conflicting r ls) ≡ true → AllCompatible ls r
AllCompatible-of_empty [] r e = tt
AllCompatible-of_empty (l ∷ ls) r e = (
  (leases_conflict_iff l.lease_state r).0 (ground arith),
  AllCompatible-of_empty ls r (ground arith),
)

-- The state that `judge` grants to a 32-bit request is compatible with every lease on the file.
pub judge-AllCompatible :
    (ls : List LeaseEntry) (r : ℕ) → r < 2 ^ 32 → AllCompatible ls (judge ls r).granted_state
unfolding judge reduce_lease_state
judge-AllCompatible [] r h = tt
judge-AllCompatible (l ∷ ls) r h = ground (
  arith,
  AllCompatible-zero (l ∷ ls),
  AllCompatible-of_empty (l ∷ ls) r,
  AllCompatible-reduced (l ∷ ls) r h,
)

-- A compatible state is none at all beside a conflicting lease with write caching.
zero_beside_writer :
    (ls : List LeaseEntry) (r t : ℕ)
    → anyb (λ l. has_write l.lease_state) (conflicting r ls) ≡ true
    → AllCompatible ls t
    → t ≡ 0
zero_beside_writer [] r t w c = cc
zero_beside_writer (l ∷ ls) r t w c =
    ground (arith, has_write_lem l.lease_state, zero_beside_writer ls r t)

-- A compatible state does not write beside a conflicting lease.
no_write_beside :
    (ls : List LeaseEntry) (r t : ℕ)
    → is_empty (conflicting r ls) ≡ false
    → anyb (λ l. has_write l.lease_state) (conflicting r ls) ≡ false
    → has_write r ≡ true
    → AllCompatible ls t
    → has_write t ≡ false
unfolding leases_conflict
no_write_beside [] r t f w u c = cc
no_write_beside (l ∷ ls) r t f w u c =
    ground (arith, has_write_lem t, has_write_lem l.lease_state, no_write_beside ls r t)

-- A part of `r` without the write bit is a part of `r` with that bit cleared.
part-clear_write :
    (t r : ℕ) → r < 2 ^ 32 → bit_and t r ≡ t → has_write t ≡ false → bit_and t (clear_write r) ≡ t
part-clear_write t r h part w =
    let c : ℕ = r - r / 2 % 2 * 2 in
    let high : c / 2 / 2 ≡ r / 2 / 2 = omega arith in
    let same = ap (bit_and (t / 2 / 2)) high in
    let off : t / 2 % 2 ≡ 0 = ground (arith, has_write_lem t) in
    rw (clear_write_lem r h) (
      omega (
        arith,
        bit_and_halves t c,
        bit_and_halves (t / 2) (c / 2),
        bit_and_halves t r,
        bit_and_halves (t / 2) (r / 2),
        same,
      ))

-- The parts that `judge` grants of a request.
clear_write_part : (r : ℕ) → r < 2 ^ 32 → bit_and (clear_write r) r ≡ clear_write r
clear_write_part r h =
    let c : ℕ = r - r / 2 % 2 * 2 in
    let high : c / 2 / 2 ≡ r / 2 / 2 = omega arith in
    let same = ap (λ x. bit_and x (r / 2 / 2)) high in
    rw (clear_write_lem r h) (
      omega
        (arith, bit_and_halves c r, bit_and_halves (c / 2) (r / 2), bit_and_self (r / 2 / 2), same))

judge_part :
    (ls : List LeaseEntry) (r : ℕ)
    → r < 2 ^ 32
    → bit_and (judge ls r).granted_state r ≡ (judge ls r).granted_state
unfolding judge reduce_lease_state
judge_part [] r h = bit_and_self r
judge_part (l ∷ ls) r h = ground (arith, bit_and_self r, clear_write_part r h, zero-bit_and r)

within_granted :
    (ls : List LeaseEntry) (r t : ℕ)
    → r < 2 ^ 32
    → bit_and t r ≡ t
    → AllCompatible ls t
    → bit_and t (judge ls r).granted_state ≡ t
unfolding judge reduce_lease_state
within_granted [] r t h part c = part
within_granted (l ∷ ls) r t h part c = ground (
  arith,
  zero_beside_writer (l ∷ ls) r t,
  no_write_beside (l ∷ ls) r t,
  part-clear_write t r h part,
)

-- Where a lease is asked for with a 32-bit state beside the leases on its file, the state that `judge`
-- grants is compatible with each of them and a part of the request, and it is the largest such: any
-- part `t` of the request that is compatible with each of them lies within the granted state.
pub judge_largest :
    (ls : List LeaseEntry) (r t : ℕ)
    → r < 2 ^ 32
    → bit_and t r ≡ t
    → AllCompatible ls t
    → let g = (judge ls r).granted_state in
      AllCompatible ls g × (bit_and g r ≡ g) × (bit_and t g ≡ t)
judge_largest ls r t h part c =
    (judge-AllCompatible ls r h, judge_part ls r h, within_granted ls r t h part c)
