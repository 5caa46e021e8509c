-- ===== src/Handler/Examples.antt =====
-- Tests of the compound loop of crates/rustsmb-server/src/handler.rs, with services that know one
-- session and one tree.
use rustsmb.Base.{
  ℕ, ◌≡◌, ◌^◌, ◌-◌, refl, true, false, none, some, Option, List, [], ◌∷◌, length, nat_eq,
  if◌then◌else◌, arith,
}
use rustsmb.Core.Action.{ok, err}
use rustsmb.Compound.{
  CompoundContext, advance, success, related, unrelated, set_session_id, set_tree_id,
}
use rustsmb.Connection.{with_config}
use rustsmb.Connection.Samples.{config}
use rustsmb.Handler.{
  Smb2Header, vfs_error, status_error, error_status, invalid_parameter, create, placeholder,
  ConnectionHandler, Services, take_credits, process_commands, build_error_response_with_ids,
}
use rustsmb.Handler.Propagation.{IsLater, refuse_all, failure_propagates, first_failure_aborts}
use rustsmb.Handler.Answers.{CanAnswer, process_commands-length}

abbrev missing : ℕ
missing = 2 ^ 64 - 1

abbrev header_of : ℕ → Smb2Header
header_of session = record (placeholder session 3) { command = create }

abbrev read_first : List ℕ → Option Smb2Header
read_first [] = none
read_first (session ∷ rest) = some (header_of session)

-- What is dispatched for session 7 fails.
abbrev small : Services (Unit {0})
small = record {
  read_header = read_first;
  write_header = λ h. some (h.status ∷ []);
  sign = λ s r. ok r;
  dispatch =
      λ h bytes c s. if nat_eq h.session_id 7 then (err vfs_error, s) else (ok (1 ∷ [], none), s);
}

small-CanAnswer : CanAnswer small
small-CanAnswer = record { writes = λ h. (h.status ∷ [], refl); signs = λ s r. (r, refl) }

abbrev idle : ConnectionHandler (Unit {0})
idle = record { connection = with_config 0 7 config; world = tt }

abbrev second_context : CompoundContext
second_context = advance (set_tree_id (set_session_id (related 3) 5) 3) success

second_context-IsLater : IsLater 5 3 second_context
unfolding advance set_tree_id set_session_id related
second_context-IsLater = record {
  is_related = refl;
  session_known = refl;
  tree_known = refl;
  started = omega arith;
}

abbrev two_commands : List (List ℕ)
two_commands = (missing ∷ []) ∷ (7 ∷ []) ∷ []

failure_propagates_example :
    (process_commands small true 1 (some 9) second_context two_commands idle
      ≡ refuse_all small 9 5 3 two_commands idle)
    × ((process_commands small true 1 (some 9) second_context two_commands idle).1 ≡ idle)
failure_propagates_example =
    failure_propagates small 9 5 3 1 second_context two_commands idle second_context-IsLater
      (omega arith) ((header_of missing, refl), ((header_of 7, refl), tt))

first_failure_aborts_example :
    process_commands small true 0 none (related 2) ((7 ∷ []) ∷ (missing ∷ []) ∷ []) idle
    ≡ (err (status_error invalid_parameter), take_credits (header_of 7) idle)
unfolding build_error_response_with_ids error_status
first_failure_aborts_example =
    first_failure_aborts small 2 (7 ∷ []) (missing ∷ []) [] (header_of 7) (header_of missing)
      vfs_error idle (take_credits (header_of 7) idle)
      (error_status vfs_error ∷ 9 ∷ 0 ∷ 0 ∷ 0 ∷ 0 ∷ 0 ∷ 0 ∷ 0 ∷ 0 ∷ []) refl refl refl refl refl

process_commands-length_example :
    (rs : List (List ℕ)) × (t : ConnectionHandler (Unit {0})) × (process_commands small false 0 none
        (unrelated 2)
        two_commands
        idle
      ≡ (ok rs, t))
    × (length rs ≡ length two_commands)
process_commands-length_example =
    process_commands-length small small-CanAnswer 0 none (unrelated 2) two_commands idle
