-- ===== src/Base/Bits.antt =====
-- Masks on machine words, as arithmetic: what `bit_and` is at the flags that the program tests.
use Prim.Native.Nat.{
  ℕ, zero, suc, ◌+◌, ◌-◌, ◌*◌, ◌/◌, ◌%◌, ◌^◌, ◌≤◌, ◌<◌, min, bit_and, digits, bit_and-bitwise,
}
use mathlib.Core.Path.{◌≡◌, refl, ap, ◌∙◌}
use native.Mathlib.Omega.{arith}

-- The digit recursion that the native operation stands for.
abbrev conj : ℕ → ℕ → ℕ → ℕ
conj = digits (λ b. zero) min

-- Any two fuels that reach the first argument give the same.
conj_enough : (x y : ℕ) (f g : ℕ) → x ≤ f → x ≤ g → conj f x y ≡ conj g x y
conj_enough zero y zero zero hf hg = refl
conj_enough zero y zero (suc g) hf hg = refl
conj_enough zero y (suc f) zero hf hg = refl
conj_enough zero y (suc f) (suc g) hf hg = refl
conj_enough (suc x) y zero g hf hg = absurd (omega arith)
conj_enough (suc x) y (suc f) zero hf hg = absurd (omega arith)
conj_enough (suc x) y (suc f) (suc g) hf hg =
    let half = conj_enough (suc x / 2) (y / 2) f g (omega arith) (omega arith) in
    omega (arith, half)

-- The lowest bit apart from the rest.
pub bit_and_halves : (x y : ℕ) → bit_and x y ≡ min (x % 2) (y % 2) + 2 * bit_and (x / 2) (y / 2)
bit_and_halves zero y = omega (arith, bit_and-bitwise 0 y, bit_and-bitwise 0 (y / 2))
bit_and_halves (suc x) y =
    let fuel = conj_enough (suc x / 2) (y / 2) x (suc x / 2) (omega arith) (omega arith) in
    omega (arith, fuel, bit_and-bitwise (suc x) y, bit_and-bitwise (suc x / 2) (y / 2))

no_bits_below : (n x : ℕ) → x ≤ n → bit_and x 0 ≡ 0
no_bits_below zero zero h = refl
no_bits_below zero (suc x) h = absurd (omega arith)
no_bits_below (suc n) x h = omega (arith, bit_and_halves x 0, no_bits_below n (x / 2) (omega arith))

pub bit_and-zero : (x : ℕ) → bit_and x 0 ≡ 0
bit_and-zero x = no_bits_below x x (omega arith)

pub bit_and-one : (x : ℕ) → bit_and x 1 ≡ x % 2
bit_and-one x = omega (arith, bit_and_halves x 1, bit_and-zero (x / 2))

pub bit_and_two : (x : ℕ) → bit_and x 2 ≡ x / 2 % 2 * 2
bit_and_two x = omega (arith, bit_and_halves x 2, bit_and-one (x / 2))

-- A mask of `n` ones.
abbrev ones : ℕ → ℕ
ones zero = 0
ones (suc n) = ones n * 2 + 1

bit_and-ones : (n x : ℕ) → x ≤ ones n → bit_and x (ones n) ≡ x
bit_and-ones zero x h = bit_and-zero x ∙ omega arith
bit_and-ones (suc n) x h =
    let halved : (ones n * 2 + 1) / 2 ≡ ones n = omega arith in
    omega (
      arith,
      bit_and_halves x (ones n * 2 + 1),
      ap (bit_and (x / 2)) halved,
      bit_and-ones n (x / 2) (omega arith),
    )

-- The complement of bit 1 in 32 bits clears that bit.
pub bit_and_not_two : (x : ℕ) → x < 2 ^ 32 → bit_and x (2 ^ 32 - 1 - 2) ≡ x - x / 2 % 2 * 2
bit_and_not_two x h = omega (
  arith,
  bit_and_halves x (2 ^ 32 - 1 - 2),
  bit_and_halves (x / 2) (2 ^ 31 - 2),
  bit_and-ones 30 (x / 2 / 2) (omega arith),
)

below_itself : (n x : ℕ) → x ≤ n → bit_and x x ≡ x
below_itself zero zero h = refl
below_itself zero (suc x) h = absurd (omega arith)
below_itself (suc n) x h = omega (arith, bit_and_halves x x, below_itself n (x / 2) (omega arith))

pub bit_and_self : (x : ℕ) → bit_and x x ≡ x
bit_and_self x = below_itself x x (omega arith)

pub zero-bit_and : (x : ℕ) → bit_and 0 x ≡ 0
zero-bit_and x = bit_and-bitwise 0 x
