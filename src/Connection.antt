-- ===== src/Connection.antt =====
-- crates/rustsmb-session/src/connection.rs: the state of one TCP connection. The address of the peer
-- is left out, as no operation reads it; `now` is what the clock reads, and `session_ids`, a hash set,
-- is a list without duplicates.
pub mod Sessions
pub mod Samples
mod Examples
use rustsmb.Base.{
  ℕ, zero, suc, Bool, true, false, not, ◌&&◌, Option, none, some, List, [], ◌∷◌, filterb, nat_key,
  ◌==◌, ltb, leb, ◌-◌, length, add_u64, if◌then◌else◌,
}
use rustsmb.Base.Map.{memb}
use rustsmb.Core.{SmbDialect, smb210, smb300, smb302, smb311}
use rustsmb.Credits.{CreditConfig, CreditManager}
use rustsmb.Credits
use rustsmb.AsyncRequest.{AsyncRequest, AsyncRequestConfig, AsyncRequestTracker}
use rustsmb.AsyncRequest
use rustsmb.Compound.{CompoundContext}
use rustsmb.Compound.Queue.{CompoundQueue, PendingCompound}
use rustsmb.Compound.Queue

pub record ConnectionConfig : Type 0 where
  pub max_sessions : ℕ
  pub credit_config : CreditConfig
  pub async_config : AsyncRequestConfig
  pub max_compound_commands : ℕ
  pub max_transact_size : ℕ
  pub max_read_size : ℕ
  pub max_write_size : ℕ

pub data ConnectionState : Type 0 where
  awaiting_negotiate negotiated session_active disconnecting : ConnectionState

unfoldable pub accepts_requests : ConnectionState → Bool
accepts_requests disconnecting = false
accepts_requests _ = true

unfoldable pub is_post_negotiate : ConnectionState → Bool
is_post_negotiate negotiated = true
is_post_negotiate session_active = true
is_post_negotiate _ = false

abbrev pub state_eq : ConnectionState → ConnectionState → Bool
state_eq awaiting_negotiate awaiting_negotiate = true
state_eq negotiated negotiated = true
state_eq session_active session_active = true
state_eq disconnecting disconnecting = true
state_eq _ _ = false

pub record Connection : Type 0 where
  pub id : ℕ
  pub dialect : Option SmbDialect
  pub state : ConnectionState
  pub signing_required : Bool
  pub encryption_required : Bool
  pub max_transact_size : ℕ
  pub max_read_size : ℕ
  pub max_write_size : ℕ
  pub client_guid : List ℕ
  preauth_hash : Option (List ℕ)
  pub credits : CreditManager
  pub async_requests : AsyncRequestTracker
  compound_queue : CompoundQueue
  pub session_ids : List ℕ
  next_message_id : ℕ
  pub created : ℕ
  last_activity : ℕ
  pub config : ConnectionConfig

abbrev zeros : ℕ → List ℕ
zeros zero = []
zeros (suc n) = 0 ∷ zeros n

unfoldable pub with_config : ℕ → ℕ → ConnectionConfig → Connection
with_config now id config = record {
  id = id;
  dialect = none;
  state = awaiting_negotiate;
  signing_required = false;
  encryption_required = false;
  max_transact_size = config.max_transact_size;
  max_read_size = config.max_read_size;
  max_write_size = config.max_write_size;
  client_guid = zeros 16;
  preauth_hash = none;
  credits = Credits.with_config config.credit_config;
  async_requests = AsyncRequest.with_config config.async_config;
  compound_queue = Queue.new config.max_compound_commands;
  session_ids = [];
  next_message_id = 0;
  created = now;
  last_activity = now;
  config = config;
}

unfoldable pub is_negotiated : Connection → Bool
is_negotiated c = elim c.dialect [ none ↦ false | some d ↦ true ]

abbrev has_multi_credit : Option SmbDialect → Bool
has_multi_credit (some smb210) = true
has_multi_credit (some smb300) = true
has_multi_credit (some smb302) = true
has_multi_credit (some smb311) = true
has_multi_credit _ = false

unfoldable pub supports_multi_credit : Connection → Bool
supports_multi_credit c = has_multi_credit c.dialect

abbrev has_multi_channel : Option SmbDialect → Bool
has_multi_channel (some smb300) = true
has_multi_channel (some smb302) = true
has_multi_channel (some smb311) = true
has_multi_channel _ = false

unfoldable pub is_multi_channel_capable : Connection → Bool
is_multi_channel_capable c = has_multi_channel c.dialect

unfoldable pub touch : ℕ → Connection → Connection
touch now c = record c { last_activity = now }

unfoldable pub negotiate : ℕ → SmbDialect → Connection → Connection
unfolding touch
negotiate now dialect c = touch now (record c { dialect = some dialect; state = negotiated })

unfoldable pub make_active : ℕ → Connection → Connection
unfolding touch
make_active now c = touch now (record c { state = session_active })

unfoldable pub disconnect : Connection → Connection
disconnect c = record c { state = disconnecting }

unfoldable pub is_disconnecting : Connection → Bool
is_disconnecting c = state_eq c.state disconnecting

-- `HashSet::insert`
abbrev pub set_insert : ℕ → List ℕ → List ℕ
set_insert x xs = if memb x xs then xs else x ∷ xs

unfoldable pub add_session : ℕ → ℕ → Connection → Connection × Bool
unfolding touch
add_session now session_id c =
    if leb c.config.max_sessions (length c.session_ids) then (c, false) else (
      touch now (record c {
        session_ids = set_insert session_id c.session_ids;
        state = if state_eq c.state negotiated then session_active else c.state;
      }),
      true,
    )

abbrev pub is_empty : List ℕ → Bool
is_empty [] = true
is_empty (x ∷ xs) = false

unfoldable pub remove_session : ℕ → ℕ → Connection → Connection
unfolding touch
remove_session now session_id c =
    let rest = filterb (λ x. not (x == session_id)) c.session_ids in
    touch now (record c {
      session_ids = rest;
      async_requests = (AsyncRequest.cancel_session c.async_requests session_id).0;
      state = if is_empty rest && state_eq c.state session_active then negotiated else c.state;
    })

unfoldable pub has_session : ℕ → Connection → Bool
has_session session_id c = memb session_id c.session_ids

unfoldable pub session_count : Connection → ℕ
session_count c = length c.session_ids

unfoldable pub take_message_id : Connection → Connection × ℕ
take_message_id c = (record c { next_message_id = add_u64 c.next_message_id 1 }, c.next_message_id)

unfoldable pub consume_credits : ℕ → Connection → Connection × Option ℕ
consume_credits charge c =
    let (m, result) = Credits.consume c.credits charge in (record c { credits = m }, result)

unfoldable pub grant_credits : ℕ → Bool → Connection → Connection × ℕ
grant_credits requested is_async c =
    let (m, granted) =
      Credits.grant c.credits (Credits.calculate_grant c.credits requested is_async) in
    (record c { credits = m }, granted)

unfoldable pub start_compound : CompoundContext → ℕ → Connection → Connection × Option ℕ
start_compound context first_message_id c =
    let (q, id) = Queue.start c.compound_queue context first_message_id in
    (record c { compound_queue = q }, id)

-- `if let Some(p) = connection.get_compound_mut(id) { p.context = f(p.context) }`
unfoldable pub get_compound_mut : ℕ → (CompoundContext → CompoundContext) → Connection → Connection
get_compound_mut id f c = record c { compound_queue = Queue.get_mut c.compound_queue id f }

unfoldable pub complete_compound : ℕ → Connection → Connection × Option PendingCompound
complete_compound id c =
    let (q, result) = Queue.complete c.compound_queue id in
    (record c { compound_queue = q }, result)

unfoldable pub is_idle : ℕ → ℕ → Connection → Bool
is_idle now timeout c = ltb timeout (now - c.last_activity)

unfoldable pub cleanup_expired_async : ℕ → Connection → Connection × List AsyncRequest
cleanup_expired_async now c =
    let (t, expired) = AsyncRequest.cleanup_expired now c.async_requests in
    (record c { async_requests = t }, expired)
