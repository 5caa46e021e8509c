-- ===== src/Handler/Combine/Examples.antt =====
-- Tests of `combine_compound_responses`, for a session without a signing key.
use rustsmb.Base.{ℕ, ◌≡◌, true, none, some, List, [], ◌∷◌, refl, length, arith}
use rustsmb.Base.Bytes.{zeros}
use rustsmb.Core.Action.{Result, ok, err}
use rustsmb.Compound.Offsets.{parse_compound_offsets, read_u32, compound_padding}
use rustsmb.Handler.{HandlerError}
use rustsmb.Handler.Combine.{
  Signing, combine_compound_responses, linked, ended, re_sign_response, word,
}
use rustsmb.Handler.Combine.Finds.{starts, combine_compound_responses-starts}

abbrev unsigned : Signing
unsigned = λ session. none

abbrev message_of : Result HandlerError (List ℕ) → List ℕ
message_of (ok m) = m
message_of (err e) = []

-- Responses of 65 and of 64 bytes.
abbrev message : List ℕ
message = message_of (combine_compound_responses unsigned true (zeros 65 ∷ zeros 64 ∷ []))

message_size : length message ≡ 136
unfolding combine_compound_responses linked ended re_sign_response word read_u32 compound_padding
message_size = refl

combine_compound_responses-starts_example :
    parse_compound_offsets message ≡ some (starts 0 (zeros 65 ∷ zeros 64 ∷ []))
unfolding combine_compound_responses linked ended re_sign_response word read_u32 compound_padding
combine_compound_responses-starts_example =
    combine_compound_responses-starts unsigned true (zeros 65) (zeros 64) [] message
      ((omega arith, omega arith), ((omega arith, omega arith), tt)) refl (omega arith)
