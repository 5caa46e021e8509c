-- ===== src/State/Store.antt =====
-- crates/rustsmb-state/src/traits.rs: the interface of a state store, as far as the session layer
-- calls it. An operation is one step on the store's state `S`. Its contract is in `Lawful`.
pub mod Lawful
use rustsmb.Base.{ℕ, String, Option, List}
use rustsmb.Core.{StateError}
use rustsmb.Core.Action.{Action}
use rustsmb.State.Types.{SessionState, TreeState, HandleState}

pub record StateStore (S : Type 0) : Type 0 where
  pub create_session : SessionState → Action S StateError (Unit {0})
  pub get_session : ℕ → Action S StateError (Option SessionState)
  pub update_session : SessionState → Action S StateError (Unit {0})
  pub delete_session : ℕ → Action S StateError (Unit {0})
  -- The clock's reading, the session, and the time that it gets.
  pub refresh_session : ℕ → ℕ → ℕ → Action S StateError (Unit {0})
  pub create_tree : TreeState → Action S StateError (Unit {0})
  pub get_tree : ℕ → ℕ → Action S StateError (Option TreeState)
  pub get_trees_by_session : ℕ → Action S StateError (List TreeState)
  pub delete_tree : ℕ → ℕ → Action S StateError (Unit {0})
  pub create_handle : HandleState → Action S StateError (Unit {0})
  pub get_handle : ℕ → Action S StateError (Option HandleState)
  pub update_handle : HandleState → Action S StateError (Unit {0})
  pub get_handles_by_session : ℕ → Action S StateError (List HandleState)
  pub delete_handle : ℕ → Action S StateError (Unit {0})
  pub delete_lease : String → Action S StateError (Unit {0})
  pub next_session_id : Action S StateError ℕ
  pub next_tree_id : ℕ → Action S StateError ℕ
  pub next_handle_id : Action S StateError ℕ
