-- ===== src/Compound/Offsets.antt =====
-- crates/rustsmb-session/src/compound.rs: where the commands of a compound message begin.
pub mod Chain
use rustsmb.Base.{
  ℕ, zero, suc, ◌+◌, ◌-◌, ◌*◌, ◌%◌, ◌^◌, Option, none, some, List, [], ◌∷◌, nat_eq, ltb, length,
  get_elem?, if◌then◌else◌,
}

abbrev header_size : ℕ
header_size = 64

infixl 10 ◌>>=◌
abbrev ◌>>=◌ {ℓ κ} : {A : Type ℓ} {B : Type κ} → Option A → (A → Option B) → Option B
none >>= f = none
some a >>= f = f a

-- `u32::from_le_bytes` of the four bytes from `pos` on; `none` is the panic of an index out of range.
unfoldable pub read_u32 : List ℕ → ℕ → Option ℕ
read_u32 data_ pos = do
  a ← get_elem? data_ pos
  b ← get_elem? data_ (pos + 1)
  c ← get_elem? data_ (pos + 2)
  d ← get_elem? data_ (pos + 3)
  some (a + b * 2 ^ 8 + c * 2 ^ 16 + d * 2 ^ 24)

abbrev prepend : ℕ → Option (List ℕ) → Option (List ℕ)
prepend current none = none
prepend current (some rest) = some (current ∷ rest)

-- The loop from an offset on, with what it pushes. `none` is a panic, or a loop that takes more than
-- `fuel` rounds. `+=` on a 64-bit `usize` wraps.
unfoldable pub offsets_from : ℕ → List ℕ → ℕ → Option (List ℕ)
offsets_from zero data_ current = if ltb current (length data_) then none else some []
offsets_from (suc fuel) data_ current =
    if ltb current (length data_)
    then (if ltb (length data_) (current + 64)
        then some (current ∷ [])
        else if ltb (length data_) (current + 20 + 4)
        then some (current ∷ [])
        else (do
          next_command ← read_u32 data_ (current + 20)
          let rest = offsets_from fuel data_ ((current + next_command) % 2 ^ 64)
          if nat_eq next_command 0 then some (current ∷ []) else prepend current rest))
    else some []

-- The offset grows in each round, so the bytes of the message are rounds enough.
unfoldable pub parse_compound_offsets : List ℕ → Option (List ℕ)
unfolding offsets_from
parse_compound_offsets data_ = offsets_from (length data_) data_ 0

unfoldable pub compound_padding : ℕ → ℕ
compound_padding offset = (8 - offset % 8) % 8
