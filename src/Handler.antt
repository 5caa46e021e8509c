-- ===== src/Handler.antt =====
-- crates/rustsmb-server/src/handler.rs, lines 441-607: the loop over the commands of a compound request.
-- The other handlers, the headers' codec (generated by the crate `binrw`) and the signing are
-- parameters: they are called through `Services`. Texts in errors are left out.
pub mod Propagation
pub mod Answers
pub mod Combine
mod Examples
use rustsmb.Base.{
  ℕ, ◌+◌, ◌^◌, max, Bool, true, false, not, ◌&&◌, Option, none, some, List, [], ◌∷◌, ◌++◌, nat_eq,
  if◌then◌else◌,
}
use rustsmb.Core.Action.{Result, ok, err, Action, pure, ◌>>=◌}
use rustsmb.Compound.{
  FileId, CompoundContext, advance, success, success_with_file, failure, set_session_id,
  set_tree_id, resolve_session_id, resolve_tree_id,
}
use rustsmb.Connection.{Connection, consume_credits}

-- crates/rustsmb-protocol/src/header.rs
pub data Smb2Command : Type 0 where
  negotiate session_setup logoff tree_connect tree_disconnect create close flush read write lock
        ioctl cancel echo query_directory change_notify query_info set_info oplock_break :
      Smb2Command

pub record Smb2Header : Type 0 where
  structure_size : ℕ
  pub credit_charge : ℕ
  pub status : ℕ
  pub command : Smb2Command
  pub credits : ℕ
  pub flags : ℕ
  pub next_command : ℕ
  pub message_id : ℕ
  pub async_id : ℕ
  pub tree_id : ℕ
  pub session_id : ℕ
  pub signature : List ℕ

pub data HandlerError : Type 0 where
  io_error protocol_error auth_error vfs_error internal_error : HandlerError
  status_error : ℕ → HandlerError

abbrev pub invalid_parameter : ℕ
invalid_parameter = 3221225485

-- `HandlerError::status`
unfoldable pub error_status : HandlerError → ℕ
error_status io_error = 3221225701
error_status protocol_error = invalid_parameter
error_status auth_error = 3221225581
error_status vfs_error = 3221225524
error_status internal_error = 3221225701
error_status (status_error code) = code

-- The connection, and all else that the handlers change.
pub record ConnectionHandler (W : Type 0) : Type 0 where
  pub connection : Connection
  pub world : W

-- `Smb2Header::read`, `Smb2Header::write`, `maybe_sign_response` and `dispatch_command_compound`.
pub record Services (W : Type 0) : Type 0 where
  pub read_header : List ℕ → Option Smb2Header
  pub write_header : Smb2Header → Option (List ℕ)
  pub sign : ConnectionHandler W → List ℕ → Result HandlerError (List ℕ)
  pub dispatch :
      Smb2Header
      → List ℕ
      → CompoundContext
      → Action (ConnectionHandler W) HandlerError (List ℕ × Option FileId)

-- What one round of the loop leaves.
pub record Round : Type 0 where
  pub response : List ℕ
  pub context : CompoundContext
  pub last_error : Option ℕ

abbrev with_ids : Smb2Header → Option ℕ → Option ℕ → Result HandlerError Smb2Header
with_ids h none tree = err (status_error invalid_parameter)
with_ids h (some session) none = err (status_error invalid_parameter)
with_ids h (some session) (some tree) = ok (record h { session_id = session; tree_id = tree })

unfoldable pub resolve_related_header :
    Smb2Header → CompoundContext → Result HandlerError Smb2Header
resolve_related_header h c =
    with_ids h (resolve_session_id c h.session_id) (resolve_tree_id c h.tree_id)

abbrev pub error_header : Smb2Header → ℕ → ℕ → ℕ → Smb2Header
error_header h code session tree = record {
  structure_size = 64;
  credit_charge = h.credit_charge;
  status = code;
  command = h.command;
  credits = 1;
  flags = 1;
  next_command = 0;
  message_id = h.message_id;
  async_id = 0;
  tree_id = tree;
  session_id = session;
  signature = 0 ∷ 0 ∷ 0 ∷ 0 ∷ 0 ∷ 0 ∷ 0 ∷ 0 ∷ 0 ∷ 0 ∷ 0 ∷ 0 ∷ 0 ∷ 0 ∷ 0 ∷ 0 ∷ [];
}

abbrev error_body : Option (List ℕ) → Result HandlerError (List ℕ)
error_body none = err protocol_error
error_body (some bytes) = ok (bytes ++ (9 ∷ 0 ∷ 0 ∷ 0 ∷ 0 ∷ 0 ∷ 0 ∷ 0 ∷ 0 ∷ []))

-- The header of the answer to a command whose own header cannot be read.
abbrev pub placeholder : ℕ → ℕ → Smb2Header
placeholder session tree = record {
  structure_size = 64;
  credit_charge = 1;
  status = 0;
  command = negotiate;
  credits = 0;
  flags = 0;
  next_command = 0;
  message_id = 0;
  async_id = 0;
  tree_id = tree;
  session_id = session;
  signature = 0 ∷ 0 ∷ 0 ∷ 0 ∷ 0 ∷ 0 ∷ 0 ∷ 0 ∷ 0 ∷ 0 ∷ 0 ∷ 0 ∷ 0 ∷ 0 ∷ 0 ∷ 0 ∷ [];
}

abbrev pub or_zero : Option ℕ → ℕ
or_zero none = 0
or_zero (some n) = n

abbrev is_negotiate : Smb2Command → Bool
is_negotiate negotiate = true
is_negotiate _ = false

abbrev pub after_success : ℕ → Smb2Header → Option FileId → CompoundContext → CompoundContext
after_success i h file c =
    let known = if nat_eq i 0 then set_tree_id (set_session_id c h.session_id) h.tree_id else c in
    elim file [ none ↦ advance known success | some f ↦ advance known (success_with_file f) ]

module _ {W : Type 0} where
  abbrev lift : {A : Type 0} → Result HandlerError A → Action (ConnectionHandler W) HandlerError A
  lift r s = (r, s)

  -- `let _ = self.connection.consume_credits(charge)`, but for a negotiation.
  unfoldable pub take_credits : Smb2Header → ConnectionHandler W → ConnectionHandler W
  take_credits h s =
      if is_negotiate h.command
      then s
      else record s { connection = (consume_credits (max h.credit_charge 1) s.connection).0 }

  module _ (v : Services W) where
    unfoldable pub build_error_response_with_ids :
        Smb2Header → ℕ → ℕ → ℕ → Result HandlerError (List ℕ)
    build_error_response_with_ids h code session tree =
        error_body (v.write_header (error_header h code session tree))

    -- An error response, signed.
    abbrev pub refuse : Smb2Header → ℕ → ℕ → ℕ → Action (ConnectionHandler W) HandlerError (List ℕ)
    refuse h code session tree =
        lift (build_error_response_with_ids h code session tree) >>= λ r s. (v.sign s r, s)

    abbrev pub record_outcome :
        ℕ
        → Option ℕ
        → CompoundContext
        → Smb2Header
        → Result HandlerError (List ℕ × Option FileId)
        → Action (ConnectionHandler W) HandlerError Round
    record_outcome i last c h (ok (response, file)) = (λ s. (v.sign s response, s)) >>= λ signed.
        pure (record { response = signed; context = after_success i h file c; last_error = last })
    record_outcome i last c h (err e) =
        refuse h (error_status e) h.session_id h.tree_id >>= λ signed. pure (record {
          response = signed;
          context = advance c (failure (error_status e));
          last_error = some (error_status e);
        })

    unfoldable pub run_command :
        ℕ
        → Option ℕ
        → CompoundContext
        → Smb2Header
        → List ℕ
        → Action (ConnectionHandler W) HandlerError Round
    unfolding take_credits
    run_command i last c h bytes s =
        let (r, s') = v.dispatch h bytes c (take_credits h s) in record_outcome i last c h r s'

    -- In a related compound the error of a command is that of each later one.
    unfoldable pub serve :
        Bool
        → ℕ
        → Option ℕ
        → CompoundContext
        → List ℕ
        → Smb2Header
        → Action (ConnectionHandler W) HandlerError Round
    unfolding run_command
    serve is_related i none c bytes h = run_command i none c h bytes
    serve is_related i (some code) c bytes h =
        if is_related && not (nat_eq i 0)
        then (refuse h code h.session_id h.tree_id >>= λ signed. pure (record {
          response = signed;
          context = advance c (failure code);
          last_error = some code;
        }))
        else run_command i (some code) c h bytes

    abbrev pub take_command :
        Bool
        → ℕ
        → Option ℕ
        → CompoundContext
        → List ℕ
        → Option Smb2Header
        → Action (ConnectionHandler W) HandlerError Round
    take_command is_related i last c bytes none =
        let session = or_zero c.session_id in
        let tree = or_zero c.tree_id in
        refuse (placeholder session tree) invalid_parameter session tree >>= λ signed.
        pure (record {
          response = signed;
          context = advance c (failure invalid_parameter);
          last_error = some invalid_parameter;
        })
    take_command is_related i last c bytes (some h) =
        lift (if is_related && not (nat_eq i 0) then resolve_related_header h c else ok h)
        >>= serve is_related i last c bytes

    -- The loop from the command number `i` on.
    unfoldable pub process_commands :
        Bool
        → ℕ
        → Option ℕ
        → CompoundContext
        → List (List ℕ)
        → Action (ConnectionHandler W) HandlerError (List (List ℕ))
    unfolding serve
    process_commands is_related i last c [] = pure []
    process_commands is_related i last c (bytes ∷ rest) =
        take_command is_related i last c bytes (v.read_header bytes) >>= λ d.
        process_commands is_related (i + 1) d.last_error d.context rest >>= λ later.
        pure (d.response ∷ later)
