-- ===== src/State/Types.antt =====
-- crates/rustsmb-state/src/types.rs: the persistent records of sessions, trees, handles and locks.
-- `now` is what the system clock read, in seconds.
use rustsmb.Base.{
  ℕ, ◌/◌, String, Bool, true, false, not, ◌&&◌, ◌||◌, Option, none, some, List, ltb, add_u64,
  if◌then◌else◌,
}
use rustsmb.Core.{SmbDialect}

pub record SessionState : Type 0 where
  pub session_id : ℕ
  pub user_id : String
  pub domain : Option String
  pub session_key : List ℕ
  pub dialect : SmbDialect
  pub signing_required : Bool
  pub encryption_required : Bool
  pub is_guest : Bool
  pub is_anonymous : Bool
  pub created_at : ℕ
  pub last_access : ℕ
  pub expires_at : ℕ
  pub bound_server_id : Option String

pub record TreeState : Type 0 where
  pub tree_id : ℕ
  pub session_id : ℕ
  pub share_name : String
  pub share_path : String
  pub access_flags : ℕ
  pub is_dfs : Bool
  pub created_at : ℕ

pub record HandleState : Type 0 where
  pub persistent_id : ℕ
  pub volatile_id : ℕ
  pub tree_id : ℕ
  pub session_id : ℕ
  pub path : String
  pub access_mask : ℕ
  pub share_access : ℕ
  pub create_options : ℕ
  pub is_durable : Bool
  pub is_persistent : Bool
  pub created_at : ℕ
  pub last_access : ℕ
  pub create_guid : Option String
  pub file_offset : ℕ
  pub share_name : String
  pub create_disposition : ℕ
  pub file_attributes : ℕ
  pub app_instance_id : Option String
  pub durable_timeout : ℕ
  pub reconnect_deadline : Option ℕ
  pub lease_key : Option String
  pub oplock_level : ℕ
  pub bound_server_id : Option String
  pub delete_on_close : Bool
  pub is_directory : Bool
  pub backend_internal_id : Option ℕ

pub record LockState : Type 0 where
  pub lock_id : ℕ
  pub persistent_id : ℕ
  pub offset : ℕ
  pub length : ℕ
  pub exclusive : Bool
  pub flags : ℕ
  pub created_at : ℕ

-- The deadline test of `can_reconnect`.
abbrev is_past : Option ℕ → ℕ → Bool
is_past none now = false
is_past (some deadline) now = ltb deadline now

unfoldable pub can_reconnect : ℕ → HandleState → Bool
can_reconnect now h =
    if not h.is_durable && not h.is_persistent
    then false
    else if is_past h.reconnect_deadline now
    then false
    else true

unfoldable pub set_durable_timeout : ℕ → HandleState → ℕ → HandleState
set_durable_timeout now h timeout_ms = record h {
  durable_timeout = timeout_ms;
  reconnect_deadline = some (add_u64 now (timeout_ms / 1000));
}

unfoldable pub should_preserve_for_reconnect : HandleState → Bool
should_preserve_for_reconnect h = h.is_persistent || h.is_durable

abbrev is_none {ℓ} : {A : Type ℓ} → Option A → Bool
is_none none = true
is_none (some a) = false

unfoldable pub prepare_for_reconnect : ℕ → HandleState → ℕ → HandleState
unfolding set_durable_timeout
prepare_for_reconnect now h default_timeout_ms =
    let cleared : HandleState = record h { session_id = 0; tree_id = 0 } in
    let timeout = if ltb 0 h.durable_timeout then h.durable_timeout else default_timeout_ms in
    if is_none h.reconnect_deadline then set_durable_timeout now cleared timeout else cleared
