-- ===== src/AsyncRequest.antt =====
-- crates/rustsmb-session/src/async_request.rs: requests that were answered with STATUS_PENDING and
-- complete later. Times and durations are numbers of one clock, whose reading `now` is an argument.
-- A one-shot channel is known by the ID of its request: `notifiers` holds the senders that are still
-- open, and `delivered` lists what was sent, the last first.
pub mod Invariant
pub mod Cancel
pub mod Once
pub mod Runs
mod Examples
use rustsmb.Base.{
  ℕ, ◌-◌, ◌<◌, min, Bool, true, false, not, ◌&&◌, Option, none, some, List, [], ◌∷◌, ◌++◌, map,
  filterb, nat_key, pair_key, ◌==◌, ltb, leb, length, add_u64, if◌then◌else◌,
}
use rustsmb.Base.Map.{Map, get, insert, remove, modify, values, keys, retain}

pub record AsyncRequestConfig : Type 0 where
  pub max_pending : ℕ
  pub default_timeout : ℕ
  pub send_interim_response : Bool

pub data AsyncOperationType : Type 0 where
  change_notify lock_wait oplock_break write read other : AsyncOperationType

pub record AsyncRequest : Type 0 where
  pub async_id : ℕ
  pub message_id : ℕ
  pub session_id : ℕ
  pub tree_id : ℕ
  pub file_id : Option (ℕ × ℕ)
  pub operation : AsyncOperationType
  pub created : ℕ
  pub timeout : ℕ
  pub command : ℕ
  pub cancelled : Bool

-- `elapsed` is 0 where the clock reads less.
unfoldable pub is_timed_out : ℕ → AsyncRequest → Bool
is_timed_out now r = ltb r.timeout (now - r.created)

unfoldable pub remaining : ℕ → AsyncRequest → ℕ
remaining now r = r.timeout - (now - r.created)

unfoldable pub mark_cancelled : AsyncRequest → AsyncRequest
mark_cancelled r = record r { cancelled = true }

-- The field `data` is `payload` here.
pub record AsyncCompletion : Type 0 where
  pub request : AsyncRequest
  pub status : ℕ
  pub payload : List ℕ

pub record AsyncRequestTracker : Type 0 where
  pub pending : Map ℕ AsyncRequest
  pub message_to_async : Map ℕ ℕ
  pub next_async_id : ℕ
  pub config : AsyncRequestConfig
  pub notifiers : Map ℕ (Unit {0})
  pub delivered : List AsyncCompletion

unfoldable pub with_config : AsyncRequestConfig → AsyncRequestTracker
with_config config = record {
  pending = [];
  message_to_async = [];
  next_async_id = 1;
  config = config;
  notifiers = [];
  delivered = [];
}

-- The receiver is the channel of the ID that is returned.
unfoldable pub register_with_timeout :
    ℕ
    → AsyncRequestTracker
    → ℕ
    → ℕ
    → ℕ
    → AsyncOperationType
    → ℕ
    → ℕ
    → AsyncRequestTracker × Option ℕ
register_with_timeout now t message_id session_id tree_id operation command timeout =
    let async_id = t.next_async_id in
    let request : AsyncRequest = record {
      async_id = async_id;
      message_id = message_id;
      session_id = session_id;
      tree_id = tree_id;
      file_id = none;
      operation = operation;
      created = now;
      timeout = timeout;
      command = command;
      cancelled = false;
    } in
    if leb t.config.max_pending (length t.pending) then (t, none) else (
      record t {
        pending = insert async_id request t.pending;
        message_to_async = insert message_id async_id t.message_to_async;
        next_async_id = add_u64 async_id 1;
        notifiers = insert async_id tt t.notifiers;
      },
      some async_id,
    )

unfoldable pub register :
    ℕ → AsyncRequestTracker → ℕ → ℕ → ℕ → AsyncOperationType → ℕ → AsyncRequestTracker × Option ℕ
unfolding register_with_timeout
register now t message_id session_id tree_id operation command =
    register_with_timeout now t message_id session_id tree_id operation command
      t.config.default_timeout

abbrev pub set_file : ℕ × ℕ → AsyncRequest → AsyncRequest
set_file file_id r = record r { file_id = some file_id }

unfoldable pub register_with_file :
    ℕ
    → AsyncRequestTracker
    → ℕ
    → ℕ
    → ℕ
    → ℕ × ℕ
    → AsyncOperationType
    → ℕ
    → AsyncRequestTracker × Option ℕ
unfolding register
register_with_file now t message_id session_id tree_id file_id operation command =
    let (u, result) = register now t message_id session_id tree_id operation command in
    elim result [
      | none ↦ (u, none)
      | some id ↦ (record u { pending = modify id (set_file file_id) u.pending }, some id)
    ]

unfoldable pub get_by_message_id : AsyncRequestTracker → ℕ → Option AsyncRequest
get_by_message_id t message_id = elim (get message_id t.message_to_async) [
  | none ↦ none
  | some id ↦ get id t.pending
]

abbrev notify : Option (Unit {0}) → AsyncCompletion → List AsyncCompletion → List AsyncCompletion
notify none c sent = sent
notify (some _) c sent = c ∷ sent

unfoldable pub complete :
    AsyncRequestTracker → ℕ → ℕ → List ℕ → AsyncRequestTracker × Option AsyncRequest
complete t async_id status payload = elim (get async_id t.pending) [
  | none ↦ (t, none)
  | some request ↦
      let completion : AsyncCompletion = record {
        request = record request { async_id = async_id };
        status = status;
        payload = payload;
      } in
      (
        record t {
          pending = remove async_id t.pending;
          message_to_async = remove request.message_id t.message_to_async;
          notifiers = remove async_id t.notifiers;
          delivered = notify (get async_id t.notifiers) completion t.delivered;
        },
        some request,
      )
]

abbrev pub status_cancelled : ℕ
status_cancelled = 0xc0000120

abbrev pub status_io_timeout : ℕ
status_io_timeout = 0xc00000b5

unfoldable pub cancel : AsyncRequestTracker → ℕ → AsyncRequestTracker × Option AsyncRequest
unfolding mark_cancelled
cancel t async_id =
    complete (record t { pending = modify async_id mark_cancelled t.pending }) async_id
      status_cancelled []

unfoldable pub cancel_by_message_id :
    AsyncRequestTracker → ℕ → AsyncRequestTracker × Option AsyncRequest
unfolding cancel
cancel_by_message_id t message_id = elim (get message_id t.message_to_async) [
  | none ↦ (t, none)
  | some id ↦ cancel t id
]

abbrev push : Option AsyncRequest → List AsyncRequest → List AsyncRequest
push none rs = rs
push (some r) rs = r ∷ rs

-- `ids.into_iter().filter_map(|id| op(id)).collect()`
unfoldable pub collect :
    (AsyncRequestTracker → ℕ → AsyncRequestTracker × Option AsyncRequest)
    → AsyncRequestTracker
    → List ℕ
    → AsyncRequestTracker × List AsyncRequest
collect op t [] = (t, [])
collect op t (id ∷ ids) = let (u, r) = op t id in let (v, rs) = collect op u ids in (v, push r rs)

-- The IDs of the pending requests that pass a test.
abbrev pub ids_where : (AsyncRequest → Bool) → AsyncRequestTracker → List ℕ
ids_where p t = keys (retain p t.pending)

unfoldable pub cancel_session : AsyncRequestTracker → ℕ → AsyncRequestTracker × List AsyncRequest
unfolding collect
cancel_session t session_id = collect cancel t (ids_where (λ r. r.session_id == session_id) t)

unfoldable pub cancel_tree : AsyncRequestTracker → ℕ → ℕ → AsyncRequestTracker × List AsyncRequest
unfolding collect
cancel_tree t session_id tree_id =
    collect cancel t (ids_where (λ r. r.session_id == session_id && r.tree_id == tree_id) t)

abbrev pub has_file : ℕ × ℕ → Option (ℕ × ℕ) → Bool
has_file file_id none = false
has_file file_id (some f) = f == file_id

unfoldable pub cancel_file : AsyncRequestTracker → ℕ × ℕ → AsyncRequestTracker × List AsyncRequest
unfolding collect
cancel_file t file_id = collect cancel t (ids_where (λ r. has_file file_id r.file_id) t)

unfoldable pub cleanup_expired : ℕ → AsyncRequestTracker → AsyncRequestTracker × List AsyncRequest
unfolding collect
cleanup_expired now t =
    collect (λ u id. complete u id status_io_timeout []) t (ids_where (is_timed_out now) t)

unfoldable pub pending_count : AsyncRequestTracker → ℕ
pending_count t = length t.pending
