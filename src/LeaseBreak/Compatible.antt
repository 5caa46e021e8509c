-- ===== src/LeaseBreak/Compatible.antt =====
-- Whether a lease that was broken may stand beside the one that was asked for.
use rustsmb.Base.{
  ℕ, ◌-◌, ◌*◌, ◌/◌, ◌%◌, ◌^◌, ◌<◌, ◌≡◌, bit_and, Bool, not, ◌&&◌, ◌||◌, ◌∙◌, nat_eq, if◌then◌else◌,
  arith,
}
use rustsmb.Base.Bits.{bit_and-one, bit_and_two, bit_and_not_two, bit_and_halves}
use rustsmb.State.Lease.{leases_conflict}
use rustsmb.State.Lease.Compatible.{has_write_lem}
use rustsmb.LeaseBreak.Lease.{calculate_break_state}

bit_and_three : (x : ℕ) → bit_and x 3 ≡ x % 4
bit_and_three x = omega (arith, bit_and_halves x 3, bit_and-one (x / 2))

bit_and_four : (x : ℕ) → bit_and x 4 ≡ x / 4 % 2 * 4
bit_and_four x = omega (arith, bit_and_halves x 4, bit_and_two (x / 2))

-- Bits 0, 1 and 2 are read, write and handle caching.
abbrev pub reads : ℕ → Bool
reads s = nat_eq (s % 2) 1

abbrev pub writes : ℕ → Bool
writes s = nat_eq (s / 2 % 2) 1

abbrev pub handles : ℕ → Bool
handles s = nat_eq (s / 4 % 2) 1

-- The break does not go far enough: the one who asks to cache writes is left beside a reader, or the
-- one who asks to cache handles beside a writer.
abbrev falls_short : ℕ → ℕ → Bool
falls_short existing requested =
    if writes requested then reads existing else handles requested && writes existing

calculated :
    (e r : ℕ)
    → e < 2 ^ 32
    → calculate_break_state e r ≡ (
        if writes r
        then (if reads e then 1 else 0)
        else if handles r
        then e % 4
        else e - e / 2 % 2 * 2)
unfolding calculate_break_state
calculated e r h =
    ground
      (arith, bit_and_two r, bit_and-one e, bit_and_four r, bit_and_three e, bit_and_not_two e h)

conflict_bits :
    (d r : ℕ)
    → leases_conflict d r ≡ (writes d && not (nat_eq r 0)) || (writes r && not (nat_eq d 0))
unfolding leases_conflict
conflict_bits d r = ground (arith, has_write_lem d, has_write_lem r)

falls_short_bits :
    (e r d : ℕ)
    → d ≡ (
        if writes r
        then (if reads e then 1 else 0)
        else if handles r
        then e % 4
        else e - e / 2 % 2 * 2)
    → ((writes d && not (nat_eq r 0)) || (writes r && not (nat_eq d 0))) ≡ falls_short e r
falls_short_bits e r d same = ground (arith, same)

-- A lease that was broken to the state that `calculate_break_state` says conflicts still with the one that
-- was asked for, by the rule of the state store, exactly where that asks to cache writes and the lease
-- cached reads, or asks to cache handles but not writes and the lease cached writes.
pub leases_conflict-calculate_break_state :
    (existing requested : ℕ)
    → existing < 2 ^ 32
    → leases_conflict (calculate_break_state existing requested) requested
      ≡ falls_short existing requested
leases_conflict-calculate_break_state e r h =
    conflict_bits (calculate_break_state e r) r
    ∙ falls_short_bits e r (calculate_break_state e r) (calculated e r h)
