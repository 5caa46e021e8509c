-- ===== src/Compound/Offsets/Chain.antt =====
-- The offsets of a compound message are the chain that the `NextCommand` fields make.
use rustsmb.Base.{
  ℕ, zero, suc, ◌+◌, ◌*◌, ◌%◌, ◌^◌, ◌≤◌, ◌<◌, ◌≡◌, ◌≢◌, refl, ap, false, some, List, [], ◌∷◌,
  nat_eq, ltb, length, All, get_elem?, Bool-cases, inl, inr, arith,
}
use rustsmb.Compound.Offsets.{read_u32, offsets_from, parse_compound_offsets, compound_padding}

-- Every element is a byte.
abbrev pub AreBytes : List ℕ → Type 0
AreBytes = All (λ b. b < 256)

get_elem?-some :
    (xs : List ℕ) (i : ℕ)
    → AreBytes xs
    → i < length xs
    → (b : ℕ) × (get_elem? xs i ≡ some b) × (b < 256)
get_elem?-some [] i h l = absurd (omega arith)
get_elem?-some (x ∷ xs) zero h l = (x, refl, h.0)
get_elem?-some (x ∷ xs) (suc i) h l = get_elem?-some xs i h.1 (omega arith)

read_u32-some :
    (xs : List ℕ) (i : ℕ)
    → AreBytes xs
    → i + 4 ≤ length xs
    → (n : ℕ) × (read_u32 xs i ≡ some n) × (n < 2 ^ 32)
unfolding read_u32
read_u32-some xs i h l =
    let (a, ea, ha) = get_elem?-some xs i h (omega arith) in
    let (b, eb, hb) = get_elem?-some xs (i + 1) h (omega arith) in
    let (c, ec, hc) = get_elem?-some xs (i + 2) h (omega arith) in
    let (d, ed, hd) = get_elem?-some xs (i + 3) h (omega arith) in
    (a + b * 2 ^ 8 + c * 2 ^ 16 + d * 2 ^ 24, rw (ea, eb, ec, ed), omega arith)

-- From an offset of the message: the chain ends where the rest is no whole header or the field is
-- 0, and goes on at the offset plus the field. The field that leads past the end ends it too.
pub data Chain (m : List ℕ) : ℕ → List ℕ → Type 0 where
  past : (o : ℕ) → length m ≤ o → Chain m o []
  short : (o : ℕ) → o < length m → length m < o + 64 → Chain m o (o ∷ [])
  last : (o : ℕ) → o + 64 ≤ length m → read_u32 m (o + 20) ≡ some 0 → Chain m o (o ∷ [])
  more :
      (o n : ℕ) {os : List ℕ}
      → o + 64 ≤ length m
      → read_u32 m (o + 20) ≡ some n
      → n ≢ 0
      → Chain m (o + n) os
      → Chain m o (o ∷ os)

offsets_from-Chain :
    (fuel : ℕ) (m : List ℕ) (o : ℕ)
    → AreBytes m
    → length m < 2 ^ 63
    → o < 2 ^ 63 + 2 ^ 32
    → length m ≤ o + fuel
    → (os : List ℕ) × (offsets_from fuel m o ≡ some os) × Chain m o os
unfolding offsets_from
offsets_from-Chain zero m o h l ho hf = ([], ground arith, past o (omega arith))
offsets_from-Chain (suc fuel) m o h l ho hf = elim (Bool-cases (ltb o (length m))) [
  | inr out ↦ ([], rw out, past o (ground arith))
  | inl inside ↦ elim (Bool-cases (ltb (length m) (o + 64))) [
    | inl cut ↦ (o ∷ [], rw (inside, cut), short o (ground arith) (ground arith))
    | inr whole ↦
        let (n, e, hn) = read_u32-some m (o + 20) h (ground arith) in
        let inner : ltb (length m) (o + 20 + 4) ≡ false = ground arith in
        elim (Bool-cases (nat_eq n 0)) [
          | inl zero_ ↦ (
            o ∷ [],
            rw (inside, whole, inner, e, zero_),
            last o (ground arith) (rw e (ap some (ground arith))),
          )
          | inr more_ ↦
              let fits : (o + n) % 2 ^ 64 ≡ o + n = ground arith in
              let (os, eo, co) =
                offsets_from-Chain fuel m (o + n) h l (ground arith) (ground arith) in
              (
                o ∷ os,
                rw (inside, whole, inner, e, more_, fits, eo),
                more o n (ground arith) e (ground arith) co,
              )
        ]
  ]
]

-- For every message of bytes shorter than 2 ^ 63 the parser ends without a panic, and what it
-- returns is the chain of `NextCommand` fields from the start of the message.
pub parse_compound_offsets-Chain :
    (m : List ℕ)
    → AreBytes m
    → length m < 2 ^ 63
    → (os : List ℕ) × (parse_compound_offsets m ≡ some os) × Chain m 0 os
unfolding parse_compound_offsets
parse_compound_offsets-Chain m h l =
    offsets_from-Chain (length m) m 0 h l (omega arith) (omega arith)

-- Offsets that rise from `low` on and stay within the message.
abbrev Ascends : List ℕ → ℕ → List ℕ → Type 0
Ascends m low [] = Unit {0}
Ascends m low (o ∷ os) = (low ≤ o) × (o < length m) × Ascends m (o + 1) os

Ascends-mono : (m : List ℕ) (a b : ℕ) (os : List ℕ) → a ≤ b → Ascends m b os → Ascends m a os
Ascends-mono m a b [] h r = tt
Ascends-mono m a b (o ∷ os) h r = (omega arith, r.1, r.2)

-- The offsets of a chain rise strictly and lie within the message, so each command is a slice of it.
Chain-Ascends : {m : List ℕ} {o : ℕ} {os : List ℕ} → Chain m o os → Ascends m o os
Chain-Ascends (past o h) = tt
Chain-Ascends (short o h k) = (omega arith, h, tt)
Chain-Ascends (last o h e) = (omega arith, omega arith, tt)
Chain-Ascends {m} (more o n {os} h e d c) =
    (omega arith, omega arith, Ascends-mono m (o + 1) (o + n) os (ground arith) (Chain-Ascends c))

-- The padding takes an offset to the next multiple of 8.
compound_padding_lem :
    (offset : ℕ) → ((offset + compound_padding offset) % 8 ≡ 0) × (compound_padding offset < 8)
unfolding compound_padding
compound_padding_lem offset = omega arith
