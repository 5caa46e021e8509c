-- ===== src/Handler/Combine/Bytes.antt =====
-- Bytes that are written in place and read, and what signing again leaves.
use rustsmb.Base.{
  ℕ, zero, suc, ◌+◌, ◌*◌, ◌^◌, ◌≤◌, ◌<◌, ◌≡◌, refl, ap, ◌∙◌, subst, Bool, true, false, Option, none,
  some, List, [], ◌∷◌, ◌++◌, nat_eq, ltb, length, get_elem?, Bool-cases, inl, inr, bit_or, bit_and,
  arith,
}
use rustsmb.Base.Bytes.{
  write_at, zeros, length-write_at, get_elem?-write_at, get_elem?-written, get_elem?-append_left,
}
use rustsmb.Core.Action.{Result, ok, err}
use rustsmb.Compound.Offsets.{read_u32}
use rustsmb.Handler.{HandlerError}
use rustsmb.Handler.Combine.{
  le_bytes, word, Signing, put_signature, with_key, re_sign_response, flagged,
}

read_u32-before :
    (pos i : ℕ) (ns xs : List ℕ) → i + 4 ≤ pos → read_u32 (write_at pos ns xs) i ≡ read_u32 xs i
unfolding read_u32
read_u32-before pos i ns xs h =
    rw
      (
        get_elem?-write_at pos i ns xs (omega arith),
        get_elem?-write_at pos (i + 1) ns xs (omega arith),
        get_elem?-write_at pos (i + 2) ns xs (omega arith),
        get_elem?-write_at pos (i + 3) ns xs (omega arith),
      )
      refl

-- What was written is read.
pub read_u32-write_at :
    (pos n : ℕ) (xs : List ℕ)
    → n < 2 ^ 32
    → pos + 4 ≤ length xs
    → read_u32 (write_at pos (le_bytes n) xs) pos ≡ some n
unfolding read_u32
read_u32-write_at pos n xs h l =
    rw (get_elem?-written pos 0 pos (le_bytes n) xs (omega arith) (omega arith) (omega arith)) rw
      (get_elem?-written pos 1 (pos + 1) (le_bytes n) xs refl (omega arith) (omega arith)) rw
      (get_elem?-written pos 2 (pos + 2) (le_bytes n) xs refl (omega arith) (omega arith)) rw
      (get_elem?-written pos 3 (pos + 3) (le_bytes n) xs refl (omega arith) (omega arith))
      (ap some (omega arith))

pub read_u32-append_left :
    (xs ys : List ℕ) (i : ℕ) → i + 4 ≤ length xs → read_u32 (xs ++ ys) i ≡ read_u32 xs i
unfolding read_u32
read_u32-append_left xs ys i h =
    rw
      (
        get_elem?-append_left xs ys i (omega arith),
        get_elem?-append_left xs ys (i + 1) (omega arith),
        get_elem?-append_left xs ys (i + 2) (omega arith),
        get_elem?-append_left xs ys (i + 3) (omega arith),
      )
      refl

get_elem?-after :
    (pre xs : List ℕ) (i j : ℕ) → j ≡ length pre + i → get_elem? (pre ++ xs) j ≡ get_elem? xs i
get_elem?-after [] xs i j e = ap (get_elem? xs) (omega (arith, e))
get_elem?-after (p ∷ pre) xs i zero e = absurd (omega arith)
get_elem?-after (p ∷ pre) xs i (suc j) e = get_elem?-after pre xs i j (omega arith)

pub read_u32-after :
    (pre xs : List ℕ) (i : ℕ) → read_u32 (pre ++ xs) (length pre + i) ≡ read_u32 xs i
unfolding read_u32
read_u32-after pre xs i =
    rw
      (
        get_elem?-after pre xs i (length pre + i) refl,
        get_elem?-after pre xs (i + 1) (length pre + i + 1) (omega arith),
        get_elem?-after pre xs (i + 2) (length pre + i + 2) (omega arith),
        get_elem?-after pre xs (i + 3) (length pre + i + 3) (omega arith),
      )
      refl

pub length-flagged : (b : Bool) (r : List ℕ) → length (flagged b r) ≡ length r
length-flagged true r = length-write_at 16 (le_bytes (bit_or (word 16 r) 4)) r
length-flagged false r = refl

abbrev pub answered : List ℕ → Result HandlerError (List ℕ)
answered = ok

pub ok_injective : {a b : List ℕ} → answered a ≡ answered b → a ≡ b
ok_injective {a} e = ap (λ (r : Result HandlerError (List ℕ)). elim r [ ok x ↦ x | err x ↦ a ]) e

-- Signing again leaves the length, and the field that leads to the next response.
abbrev pub Keeps : List ℕ → List ℕ → Type 0
Keeps r out = (length out ≡ length r) × (read_u32 out 20 ≡ read_u32 r 20)

put_signature-Keeps :
    (r : List ℕ) (res : Result HandlerError (List ℕ)) (out : List ℕ)
    → put_signature (write_at 48 (zeros 16) r) res ≡ ok out
    → Keeps r out
put_signature-Keeps r (err x) out e = absurd (cc e)
put_signature-Keeps r (ok sig) out e =
    let blank = write_at 48 (zeros 16) r in
    let same : write_at 48 sig blank ≡ out = ok_injective e in
    subst (Keeps r) same (
      length-write_at 48 sig blank ∙ length-write_at 48 (zeros 16) r,
      read_u32-before 48 20 sig blank (omega arith)
          ∙ read_u32-before 48 20 (zeros 16) r (omega arith),
    )

with_key-Keeps :
    (r : List ℕ) (key : Option (List ℕ → Result HandlerError (List ℕ))) (out : List ℕ)
    → with_key r key ≡ ok out
    → Keeps r out
with_key-Keeps r none out e = subst (Keeps r) (ok_injective e) (refl, refl)
with_key-Keeps r (some compute) out e = elim (Bool-cases (nat_eq (bit_and (word 16 r) 8) 0)) [
  | inl plain ↦ subst (Keeps r) (ok_injective (rw plain at e)) (refl, refl)
  | inr signed ↦ put_signature-Keeps r (compute (write_at 48 (zeros 16) r)) out (rw signed at e)
]

pub re_sign_response-Keeps :
    (signing : Signing) (r out : List ℕ) → re_sign_response signing r ≡ ok out → Keeps r out
unfolding re_sign_response
re_sign_response-Keeps signing r out e = elim (Bool-cases (ltb (length r) 64)) [
  | inl small ↦ subst (Keeps r) (ok_injective (rw small at e)) (refl, refl)
  | inr whole ↦ with_key-Keeps r (signing (word 40 r + word 44 r * 2 ^ 32)) out (rw whole at e)
]

get_elem?-some : (xs : List ℕ) (i : ℕ) → i < length xs → (b : ℕ) × (get_elem? xs i ≡ some b)
get_elem?-some [] i h = absurd (omega arith)
get_elem?-some (x ∷ xs) zero h = (x, refl)
get_elem?-some (x ∷ xs) (suc i) h = get_elem?-some xs i (omega arith)

pub read_u32-some : (xs : List ℕ) (i : ℕ) → i + 4 ≤ length xs → (n : ℕ) × (read_u32 xs i ≡ some n)
unfolding read_u32
read_u32-some xs i h =
    let (a, ea) = get_elem?-some xs i (omega arith) in
    let (b, eb) = get_elem?-some xs (i + 1) (omega arith) in
    let (c, ec) = get_elem?-some xs (i + 2) (omega arith) in
    let (d, ed) = get_elem?-some xs (i + 3) (omega arith) in
    (a + b * 2 ^ 8 + c * 2 ^ 16 + d * 2 ^ 24, rw (ea, eb, ec, ed))
