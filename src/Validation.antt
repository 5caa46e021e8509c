-- ===== src/Validation.antt =====
-- crates/rustsmb-session/src/validation.rs: what a request's session, tree and handle IDs have to
-- pass. The store is any implementation of the interface; `now` is what the clock reads, in seconds.
pub mod Verdicts
pub mod Context
mod Examples
use rustsmb.Base.{
  ℕ, String, Bool, true, false, not, Option, none, some, List, filterb, bit_and, nat_key, ◌==◌, ltb,
  if◌then◌else◌,
}
use mathlib.Core.Option
use rustsmb.Core.{
  StateError, SessionError, invalid_session_id, invalid_tree_id, invalid_handle_id, session_expired,
}
use rustsmb.Core.Action.{
  Action, Result, ok, err, pure, fail, or_fail, ◌>>=◌, ◌>>◌, map_err, ignore, for_each,
}
use rustsmb.State.Types.{SessionState, TreeState, HandleState}
use rustsmb.State.Store.{StateStore}

pub record HandleLookup : Type 0 where
  pub handle : HandleState
  pub session_id : ℕ
  pub tree_id : ℕ

pub record RequestContext : Type 0 where
  pub session : SessionState
  pub tree : Option TreeState
  pub handle : Option HandleState

-- `TreeValidator::check_access`, on the flags of the tree, `HandleValidator::check_access`, on the
-- access mask of the handle.
unfoldable pub check_access : ℕ → ℕ → Bool
check_access flags required = if required == 0 then true else bit_and flags required == required

unfoldable pub check_sharing : HandleState → ℕ → Bool
check_sharing handle requested = bit_and handle.share_access requested == requested

unfoldable pub share_path : RequestContext → Option String
share_path c = Option.map (λ (t : TreeState). t.share_path) c.tree

unfoldable pub file_path : RequestContext → Option String
file_path c = Option.map (λ (h : HandleState). h.path) c.handle

module _ {S : Type 0} (store : StateStore S) where
  -- `SessionValidator::validate`
  unfoldable pub validate_session : ℕ → ℕ → Action S SessionError SessionState
  validate_session now session_id =
      map_err (store.get_session session_id) (invalid_session_id session_id)
      >>= (λ found. or_fail found (invalid_session_id session_id))
      >>= (λ session.
          if ltb session.expires_at now
          then ignore (store.delete_session session_id) >> fail session_expired
          else pure session)

  unfoldable pub validate_and_refresh : ℕ → ℕ → ℕ → Action S SessionError SessionState
  unfolding validate_session
  validate_and_refresh now timeout session_id =
      validate_session now session_id
      >>= (λ session. ignore (store.refresh_session now session_id timeout) >> pure session)

  -- `TreeValidator::validate`
  unfoldable pub validate_tree : ℕ → ℕ → Action S SessionError TreeState
  validate_tree session_id tree_id =
      map_err (store.get_tree session_id tree_id) (invalid_tree_id tree_id)
      >>= (λ found. or_fail found (invalid_tree_id tree_id))
      >>= (λ tree.
          if not (tree.session_id == session_id) then fail (invalid_tree_id tree_id) else pure tree)

  -- `HandleValidator::validate`
  unfoldable pub validate_handle : ℕ → ℕ → ℕ → Action S SessionError HandleLookup
  validate_handle persistent_id session_id tree_id =
      map_err (store.get_handle persistent_id) (invalid_handle_id persistent_id)
      >>= (λ found. or_fail found (invalid_handle_id persistent_id))
      >>= (λ handle.
          if not (handle.session_id == session_id)
          then fail (invalid_handle_id persistent_id)
          else if not (handle.tree_id == tree_id)
          then fail (invalid_handle_id persistent_id)
          else pure (record { handle = handle; session_id = session_id; tree_id = tree_id }))

  unfoldable pub validate_full : ℕ → ℕ → ℕ → ℕ → Action S SessionError HandleLookup
  unfolding validate_handle
  validate_full persistent_id volatile_id session_id tree_id =
      validate_handle persistent_id session_id tree_id >>= (λ lookup.
        if not (lookup.handle.volatile_id == volatile_id)
        then fail (invalid_handle_id persistent_id)
        else pure lookup)

  unfoldable pub get_tree_handles : ℕ → ℕ → Action S StateError (List HandleState)
  get_tree_handles session_id tree_id =
      store.get_handles_by_session session_id
      >>= (λ handles. pure (filterb (λ h. h.tree_id == tree_id) handles))

  abbrev touch_found : ℕ → ℕ → Option HandleState → Action S StateError (Unit {0})
  touch_found now persistent_id none = pure tt
  touch_found now persistent_id (some handle) =
      store.delete_handle persistent_id >> store.create_handle (record handle { last_access = now })

  unfoldable pub touch_handle : ℕ → ℕ → Action S StateError (Unit {0})
  touch_handle now persistent_id = store.get_handle persistent_id >>= touch_found now persistent_id

  unfoldable pub session_only : ℕ → ℕ → Action S SessionError RequestContext
  unfolding validate_session
  session_only now session_id =
      validate_session now session_id
      >>= (λ session. pure (record { session = session; tree = none; handle = none }))

  unfoldable pub with_tree : ℕ → ℕ → ℕ → Action S SessionError RequestContext
  unfolding validate_session validate_tree
  with_tree now session_id tree_id = validate_session now session_id >>= (λ session.
      validate_tree session_id tree_id
      >>= (λ tree. pure (record { session = session; tree = some tree; handle = none })))

  unfoldable pub with_handle : ℕ → ℕ → ℕ → ℕ → ℕ → Action S SessionError RequestContext
  unfolding validate_session validate_tree validate_full
  with_handle now session_id tree_id persistent_id volatile_id =
      validate_session now session_id >>= (λ session. validate_tree session_id tree_id >>= (λ tree.
        validate_full persistent_id volatile_id session_id tree_id >>= (λ lookup.
          pure (record { session = session; tree = some tree; handle = some lookup.handle }))))
