-- ===== src/Handler/Combine.antt =====
-- crates/rustsmb-server/src/handler.rs, lines 729-839 and 6283-6327: the responses of a compound
-- request, put together as one message. The signing of bytes is a parameter.
pub mod Bytes
pub mod Finds
mod Examples
use rustsmb.Base.{
  ℕ, zero, suc, ◌+◌, ◌*◌, ◌/◌, ◌%◌, ◌^◌, bit_or, bit_and, Bool, true, false, not, ◌&&◌, ◌||◌,
  Option, none, some, List, [], ◌∷◌, ◌++◌, nat_eq, ltb, length, if◌then◌else◌,
}
use rustsmb.Base.Bytes.{write_at, zeros}
use rustsmb.Core.Action.{Result, ok, err}
use rustsmb.Compound.Offsets.{read_u32, compound_padding}
use rustsmb.Handler.{HandlerError, internal_error}

-- `to_le_bytes`
abbrev pub le_bytes : ℕ → List ℕ
le_bytes n = n % 256 ∷ n / 256 % 256 ∷ n / 65536 % 256 ∷ n / 16777216 % 256 ∷ []

abbrev or_zero : Option ℕ → ℕ
or_zero none = 0
or_zero (some n) = n

unfoldable pub word : ℕ → List ℕ → ℕ
word pos data_ = or_zero (read_u32 data_ pos)

abbrev pub Signing : Type 0
Signing = ℕ → Option (List ℕ → Result HandlerError (List ℕ))

abbrev put_signature : List ℕ → Result HandlerError (List ℕ) → Result HandlerError (List ℕ)
put_signature response (err e) = err e
put_signature response (ok signature) = ok (write_at 48 signature response)

abbrev with_key :
    List ℕ → Option (List ℕ → Result HandlerError (List ℕ)) → Result HandlerError (List ℕ)
with_key response none = ok response
with_key response (some compute) =
    if nat_eq (bit_and (word 16 response) 8) 0
    then ok response
    else (let blank = write_at 48 (zeros 16) response in put_signature blank (compute blank))

-- What signs for a session is its key with `compute_signature`.
unfoldable pub re_sign_response : Signing → List ℕ → Result HandlerError (List ℕ)
re_sign_response signing response =
    if ltb (length response) 64
    then ok response
    else with_key response (signing (word 40 response + word 44 response * 2 ^ 32))

abbrev flagged : Bool → List ℕ → List ℕ
flagged is_related response =
    if is_related then write_at 16 (le_bytes (bit_or (word 16 response) 4)) response else response

-- A response that another follows at `next`.
unfoldable pub linked : Signing → Bool → ℕ → List ℕ → Result HandlerError (List ℕ)
linked signing is_related next response =
    re_sign_response signing (write_at 20 (le_bytes (next % 2 ^ 32)) (flagged is_related response))

unfoldable pub ended : Signing → Bool → List ℕ → Result HandlerError (List ℕ)
ended signing is_related response =
    let marked = flagged is_related response in
    if not (nat_eq (word 20 marked) 0)
    then re_sign_response signing (write_at 20 (le_bytes 0) marked)
    else if is_related
    then re_sign_response signing marked
    else ok marked

abbrev pub joined :
    Result HandlerError (List ℕ) → ℕ → Result HandlerError (List ℕ) → Result HandlerError (List ℕ)
joined (err e) padding later = err e
joined (ok response) padding (err e) = err e
joined (ok response) padding (ok later) = ok ((response ++ zeros padding) ++ later)

-- The loop over the responses; one shorter than a header is left out.
unfoldable pub join_responses : Signing → Bool → List (List ℕ) → Result HandlerError (List ℕ)
join_responses signing is_related [] = ok []
join_responses signing is_related (response ∷ []) =
    if ltb (length response) 64 then ok [] else ended signing is_related response
join_responses signing is_related (response ∷ next ∷ rest) =
    let later = join_responses signing is_related (next ∷ rest) in
    let padding = compound_padding (length response) in
    if ltb (length response) 64
    then later
    else joined (linked signing is_related (length response + padding) response) padding later

unfoldable pub combine_compound_responses :
    Signing → Bool → List (List ℕ) → Result HandlerError (List ℕ)
unfolding join_responses
combine_compound_responses signing is_related [] = err internal_error
combine_compound_responses signing is_related (response ∷ []) = ok response
combine_compound_responses signing is_related (response ∷ next ∷ rest) =
    join_responses signing is_related (response ∷ next ∷ rest)
