-- ===== src/Handler/Combine/Finds.antt =====
-- The parser of offsets finds each response in the combined message.
use rustsmb.Base.{
  ℕ, zero, suc, ◌+◌, ◌*◌, ◌%◌, ◌^◌, ◌≤◌, ◌<◌, ◌≡◌, refl, sym, ap, ◌∙◌, subst, Bool, true, false,
  some, List, [], ◌∷◌, ◌++◌, append_assoc, nat_eq, ltb, length, length-append, All, Bool-cases, inl,
  inr, if◌then◌else◌, arith,
}
use rustsmb.Base.Bytes.{write_at, zeros, length-zeros, length-write_at}
use rustsmb.Core.Action.{Result, ok, err}
use rustsmb.Compound.Offsets.{read_u32, offsets_from, parse_compound_offsets, compound_padding}
use rustsmb.Handler.{HandlerError}
use rustsmb.Handler.Combine.{
  le_bytes, word, Signing, re_sign_response, flagged, linked, ended, joined, join_responses,
  combine_compound_responses,
}
use rustsmb.Handler.Combine.Bytes.{
  Keeps, ok_injective, read_u32-write_at, read_u32-append_left, read_u32-after, read_u32-some,
  length-flagged, re_sign_response-Keeps,
}

-- A response that is a header at least, and whose length with its padding fits in 32 bits.
abbrev IsResponse : List ℕ → Type 0
IsResponse r = (64 ≤ length r) × (length r + 8 ≤ 2 ^ 32)

linked_lem :
    (signing : Signing) (b : Bool) (next : ℕ) (r out : List ℕ)
    → linked signing b next r ≡ ok out
    → 64 ≤ length r
    → next < 2 ^ 32
    → (length out ≡ length r) × (read_u32 out 20 ≡ some next)
unfolding linked
linked_lem signing b next r out e h f =
    let marked = flagged b r in
    let (size, field) =
      re_sign_response-Keeps signing (write_at 20 (le_bytes (next % 2 ^ 32)) marked) out e in
    let exact : next % 2 ^ 32 ≡ next = omega arith in
    (
      size ∙ length-write_at 20 (le_bytes (next % 2 ^ 32)) marked ∙ length-flagged b r,
      field
          ∙ read_u32-write_at 20 (next % 2 ^ 32) marked (omega arith)
              (omega (arith, length-flagged b r))
          ∙ ap some exact,
    )

word_lem : (pos n : ℕ) (r : List ℕ) → read_u32 r pos ≡ some n → word pos r ≡ n
unfolding word
word_lem pos n r e = rw e refl

unmarked-Keeps :
    (signing : Signing) (b : Bool) (marked out : List ℕ)
    → (if b then re_sign_response signing marked else ok marked) ≡ ok out
    → Keeps marked out
unmarked-Keeps signing true marked out e = re_sign_response-Keeps signing marked out e
unmarked-Keeps signing false marked out e = subst (Keeps marked) (ok_injective e) (refl, refl)

ended_lem :
    (signing : Signing) (b : Bool) (r out : List ℕ)
    → ended signing b r ≡ ok out
    → 64 ≤ length r
    → (length out ≡ length r) × (read_u32 out 20 ≡ some 0)
unfolding ended
ended_lem signing b r out e h =
    let (n, field) = read_u32-some (flagged b r) 20 (omega (arith, length-flagged b r)) in
    let marked = flagged b r in
    let read : word 20 marked ≡ n = word_lem 20 n marked field in
    elim (Bool-cases (nat_eq (word 20 marked) 0)) [
      | inl clear ↦
          let (size, same) = unmarked-Keeps signing b marked out (rw clear at e) in
          (size ∙ length-flagged b r, same ∙ field ∙ ap some (ground (arith, read)))
      | inr set ↦
          let (size, same) =
            re_sign_response-Keeps signing (write_at 20 (le_bytes 0) marked) out (rw set at e) in
          (
            size ∙ length-write_at 20 (le_bytes 0) marked ∙ length-flagged b r,
            same ∙ read_u32-write_at 20 0 marked (omega arith) (omega (arith, length-flagged b r)),
          )
    ]

abbrev pub starts : ℕ → List (List ℕ) → List ℕ
starts o [] = []
starts o (r ∷ []) = o ∷ []
starts o (r ∷ next ∷ rest) = o ∷ starts (o + (length r + compound_padding (length r))) (next ∷ rest)

joined_cases :
    (a l : Result HandlerError (List ℕ)) (padding : ℕ) (out : List ℕ)
    → joined a padding l ≡ ok out
    → (r : List ℕ) × (later : List ℕ) × (a ≡ ok r)
      × (l ≡ ok later)
      × ((r ++ zeros padding) ++ later ≡ out)
joined_cases (err x) l padding out e = absurd (cc e)
joined_cases (ok r) (err x) padding out e = absurd (cc e)
joined_cases (ok r) (ok later) padding out e = (r, later, refl, refl, ok_injective e)

last_offset :
    (fuel o : ℕ) (m : List ℕ)
    → o + 64 ≤ length m
    → read_u32 m (o + 20) ≡ some 0
    → offsets_from (suc fuel) m o ≡ some (o ∷ [])
unfolding offsets_from
last_offset fuel o m h e =
    let inside : ltb o (length m) ≡ true = ground arith in
    let whole : ltb (length m) (o + 64) ≡ false = ground arith in
    let inner : ltb (length m) (o + 20 + 4) ≡ false = ground arith in
    rw (inside, whole, inner, e) refl

more_offsets :
    (fuel o n : ℕ) (m os : List ℕ)
    → o + 64 ≤ length m
    → read_u32 m (o + 20) ≡ some n
    → 1 ≤ n
    → o + n < 2 ^ 64
    → offsets_from fuel m (o + n) ≡ some os
    → offsets_from (suc fuel) m o ≡ some (o ∷ os)
unfolding offsets_from
more_offsets fuel o n m os h e pos fits rest =
    let inside : ltb o (length m) ≡ true = ground arith in
    let whole : ltb (length m) (o + 64) ≡ false = ground arith in
    let inner : ltb (length m) (o + 20 + 4) ≡ false = ground arith in
    let going : nat_eq n 0 ≡ false = ground arith in
    let exact : (o + n) % 2 ^ 64 ≡ o + n = omega arith in
    rw (inside, whole, inner, e, going, exact, rest) refl

padding-lt : (n : ℕ) → compound_padding n < 8
unfolding compound_padding
padding-lt n = omega arith

-- The length of a message that begins with a response and its padding.
length-block :
    (r : List ℕ) (p : ℕ) (later out : List ℕ)
    → (r ++ zeros p) ++ later ≡ out
    → length out ≡ length r + p + length later
length-block r p later out e =
    sym (ap length e)
    ∙ omega (arith, length-append (r ++ zeros p) later, length-append r (zeros p), length-zeros p)

-- One response and its padding, before a message whose offsets are found.
block_found :
    (fuel n p : ℕ) (pre first later out : List ℕ) (rest : List (List ℕ))
    → length first ≡ n
    → 64 ≤ n
    → read_u32 first 20 ≡ some (n + p)
    → (first ++ zeros p) ++ later ≡ out
    → length pre + length out < 2 ^ 63
    → (let o = length pre + (n + p) in
        offsets_from fuel ((pre ++ (first ++ zeros p)) ++ later) o ≡ some (starts o rest))
    → offsets_from (suc fuel) (pre ++ out) (length pre)
      ≡ some (length pre ∷ starts (length pre + (n + p)) rest)
block_found fuel n p pre first later out rest size whole field eo fits offsets =
    let same = append_assoc pre (first ++ zeros p) later ∙ ap (λ (x : List ℕ). pre ++ x) eo in
    let leads : read_u32 out 20 ≡ some (n + p) =
      sym (ap (λ (m : List ℕ). read_u32 m 20) eo)
      ∙ read_u32-append_left (first ++ zeros p) later 20
          (omega (arith, length-append first (zeros p), size, whole))
      ∙ read_u32-append_left first (zeros p) 20 (omega (arith, size, whole))
      ∙ field in
    let total = length-block first p later out eo in
    let o = length pre + (n + p) in
    more_offsets fuel (length pre) (n + p) (pre ++ out) (starts o rest)
      (omega (arith, length-append pre out, total, size, whole)) (read_u32-after pre out 20 ∙ leads)
      (omega (arith, whole)) (omega (arith, fits, total, size))
      (subst (λ (m : List ℕ). offsets_from fuel m o ≡ some (starts o rest)) same offsets)

found :
    (signing : Signing) (b : Bool) (rs : List (List ℕ)) (r pre out : List ℕ) (fuel : ℕ)
    → All IsResponse (r ∷ rs)
    → join_responses signing b (r ∷ rs) ≡ ok out
    → length pre + length out < 2 ^ 63
    → length (r ∷ rs) ≤ fuel
    → (offsets_from fuel (pre ++ out) (length pre) ≡ some (starts (length pre) (r ∷ rs)))
      × (64 * length (r ∷ rs) ≤ length out)
unfolding join_responses
found signing b rs r pre out zero h e f l = absurd (omega arith)
found signing b [] r pre out (suc fuel) h e f l =
    let whole : ltb (length r) 64 ≡ false = ground (arith, h.0) in
    let (size, field) = ended_lem signing b r out (rw whole at e) h.0.0 in
    (
      last_offset fuel (length pre) (pre ++ out) (omega (arith, length-append pre out, size, h.0.0))
          (read_u32-after pre out 20 ∙ field),
      omega (arith, size, h.0.0),
    )
found signing b (next ∷ rest) r pre out (suc fuel) h e f l =
    let whole : ltb (length r) 64 ≡ false = ground (arith, h.0) in
    let p = compound_padding (length r) in
    let short = padding-lt (length r) in
    let (first, later, ef, el, eo) =
      joined_cases (linked signing b (length r + p) r) (join_responses signing b (next ∷ rest)) p
        out (rw whole at e) in
    let (size, field) =
      linked_lem signing b (length r + p) r first ef h.0.0 (omega (arith, h.0.1, short)) in
    let total = length-block first p later out eo in
    let width : length (pre ++ (first ++ zeros p)) ≡ length pre + (length r + p) = omega (
      arith,
      length-append pre (first ++ zeros p),
      length-append first (zeros p),
      length-zeros p,
      size,
    ) in
    let (offsets, enough) =
      found signing b rest next (pre ++ (first ++ zeros p)) later fuel h.1 el
        (omega (arith, width, total, size, f)) (omega (arith, l)) in
    (
      block_found fuel (length r) p pre first later out (next ∷ rest) size h.0.0 field eo f (
          subst
            (λ (o : ℕ).
              offsets_from fuel ((pre ++ (first ++ zeros p)) ++ later) o
              ≡ some (starts o (next ∷ rest)))
            width offsets),
      omega (arith, enough, total, size, h.0.0),
    )

-- Where each of two or more responses is a header at least and 2 ^ 32 - 8 bytes at most, and the
-- message that is made of them stays below 2 ^ 63 bytes, the parser of compound offsets finds in that message just the places where
-- the responses begin, each after the one before it and its padding.
pub combine_compound_responses-starts :
    (signing : Signing) (is_related : Bool) (r next : List ℕ) (rest : List (List ℕ)) (out : List ℕ)
    → All IsResponse (r ∷ next ∷ rest)
    → combine_compound_responses signing is_related (r ∷ next ∷ rest) ≡ ok out
    → length out < 2 ^ 63
    → parse_compound_offsets out ≡ some (starts 0 (r ∷ next ∷ rest))
unfolding combine_compound_responses parse_compound_offsets
combine_compound_responses-starts signing is_related r next rest out h e l =
    let count = length (r ∷ next ∷ rest) in
    let (_, enough) =
      found signing is_related (next ∷ rest) r [] out count h e (omega arith) (omega arith) in
    (found signing is_related (next ∷ rest) r [] out (length out) h e (omega arith)
      (omega (arith, enough))).0
