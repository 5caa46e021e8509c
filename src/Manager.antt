-- ===== src/Manager.antt =====
-- crates/rustsmb-session/src/manager.rs: the session manager, which keeps the sessions in a state
-- store. The store is any implementation of the interface; `now` is what the clock reads, in seconds.
pub mod Tables
pub mod Deletion
mod Examples
use rustsmb.Base.{
  ℕ, ◌*◌, String, Bool, true, false, Option, none, some, List, nat_key, ◌==◌, ltb, add_u64,
  if◌then◌else◌,
}
use rustsmb.Core.{StateError, SessionError, invalid_session_id, session_expired}
use rustsmb.Core.Action.{
  Action, Result, ok, err, pure, fail, or_fail, ◌>>=◌, ◌>>◌, map_err, ignore, for_each,
}
use rustsmb.State.Types.{
  SessionState, TreeState, HandleState, should_preserve_for_reconnect, prepare_for_reconnect,
}
use rustsmb.State.Store.{StateStore}

-- Times in seconds.
pub record SessionManagerConfig : Type 0 where
  session_timeout : ℕ
  idle_timeout : ℕ
  pub max_sessions : ℕ
  refresh_interval : ℕ

abbrev pub default_config : SessionManagerConfig
default_config = record {
  session_timeout = 3600;
  idle_timeout = 300;
  max_sessions = 10000;
  refresh_interval = 60;
}

-- The store is the section's parameter below.
pub record SessionManager : Type 0 where
  connection_counter : ℕ
  pub config : SessionManagerConfig

unfoldable pub new : SessionManagerConfig → SessionManager
new config = record { connection_counter = 1; config = config }

unfoldable pub next_connection_id : SessionManager → SessionManager × ℕ
next_connection_id m =
    (record m { connection_counter = add_u64 m.connection_counter 1 }, m.connection_counter)

module _ {S : Type 0} (store : StateStore S) where
  unfoldable pub create_session : SessionState → Action S StateError SessionState
  create_session session = store.create_session session >> pure session

  -- The rest of `validate_session`, from the session that was read.
  unfoldable pub check_session : ℕ → ℕ → SessionState → Action S SessionError SessionState
  check_session now session_id session =
      if ltb session.expires_at now
      then ignore (store.delete_session session_id) >> fail session_expired
      else pure session

  unfoldable pub validate_session : ℕ → ℕ → Action S SessionError SessionState
  unfolding check_session
  validate_session now session_id =
      map_err (store.get_session session_id) (invalid_session_id session_id)
      >>= (λ found. or_fail found (invalid_session_id session_id))
      >>= check_session now session_id

  unfoldable pub refresh_session : ℕ → SessionManager → ℕ → Action S StateError (Unit {0})
  refresh_session now m session_id = store.refresh_session now session_id m.config.session_timeout

  abbrev pub drop_lease : Option String → Action S StateError (Unit {0})
  drop_lease none = pure tt
  drop_lease (some key) = ignore (store.delete_lease key)

  -- One round of the loop of `delete_session`; 60000 ms is its default timeout, and `clock` says what is
  -- read at the handle of each ID.
  unfoldable pub release_handle : (ℕ → ℕ) → HandleState → Action S StateError (Unit {0})
  release_handle clock handle =
      if should_preserve_for_reconnect handle
      then ignore
          (store.update_handle (prepare_for_reconnect (clock handle.persistent_id) handle 60000))
      else drop_lease handle.lease_key >> store.delete_handle handle.persistent_id

  unfoldable pub delete_session : (ℕ → ℕ) → ℕ → Action S StateError (Unit {0})
  unfolding release_handle
  delete_session clock session_id =
      store.get_handles_by_session session_id
      >>= (λ handles. for_each handles (release_handle clock))
      >> store.get_trees_by_session session_id
      >>= (λ trees. for_each trees (λ tree. store.delete_tree session_id tree.tree_id))
      >> store.delete_session session_id

  unfoldable pub create_tree : TreeState → Action S StateError TreeState
  create_tree tree = store.create_tree tree >> pure tree

  -- One round of the loop of `delete_tree`.
  unfoldable pub delete_if_on : ℕ → HandleState → Action S StateError (Unit {0})
  delete_if_on tree_id handle =
      if handle.tree_id == tree_id then store.delete_handle handle.persistent_id else pure tt

  unfoldable pub delete_tree : ℕ → ℕ → Action S StateError (Unit {0})
  unfolding delete_if_on
  delete_tree session_id tree_id =
      store.get_handles_by_session session_id
      >>= (λ handles. for_each handles (delete_if_on tree_id))
      >> store.delete_tree session_id tree_id

  unfoldable pub create_handle : HandleState → Action S StateError HandleState
  create_handle handle = store.create_handle handle >> pure handle

  -- `get_session`, `get_tree`, `get_handle`, `update_handle`, `delete_handle` and the three `next_*_id`
  -- only call the store.
  unfoldable pub get_session : ℕ → Action S StateError (Option SessionState)
  get_session session_id = store.get_session session_id

  unfoldable pub get_tree : ℕ → ℕ → Action S StateError (Option TreeState)
  get_tree session_id tree_id = store.get_tree session_id tree_id

  unfoldable pub get_handle : ℕ → Action S StateError (Option HandleState)
  get_handle persistent_id = store.get_handle persistent_id

  unfoldable pub update_handle : HandleState → Action S StateError (Unit {0})
  update_handle handle = store.update_handle handle

  unfoldable pub delete_handle : ℕ → Action S StateError (Unit {0})
  delete_handle persistent_id = store.delete_handle persistent_id
