-- ===== src/LeaseBreak.antt =====
-- crates/rustsmb-server/src/lease_break.rs: the registry of leases and oplocks, and the breaks of them
-- that wait for an acknowledgement. A call that waits is cut where others may come between: what it
-- does until its event is sent, the entry of the pending break, and what it does when the wait has
-- ended. `events` is what was sent to connections, the last first, each with its channel; a channel
-- takes an event or not. A one-shot channel is known by the ID of its break: its sender is in the
-- pending break, and `answers` is what was sent. `now` is what the clock reads.
pub mod Lease
pub mod Oplock
pub mod Compatible
pub mod Acknowledged
pub mod Runs
pub mod Quiet
pub mod Sent
pub mod Justified
pub mod Expired
mod Examples
use rustsmb.Base.{
  ℕ, ◌+◌, ◌-◌, ◌*◌, ◌/◌, ◌%◌, ◌^◌, bit_and, bit_or, String, Bool, true, false, not, ◌&&◌, ◌||◌,
  Option, none, some, List, [], ◌∷◌, map, filterb, findb, nat_key, string_key, ◌==◌, nat_eq, leb,
  length, add_u64, if◌then◌else◌,
}
use rustsmb.Base.Bytes.{zeros}
use rustsmb.Base.Map
use rustsmb.Base.Map.{Map, retain, keys}
use rustsmb.Core.Action.{Result, ok, err, Action, pure, fail, or_fail, ◌>>=◌, ◌>>◌}

pub record LeaseConnectionEntry : Type 0 where
  pub break_tx : ℕ
  pub server_id : String
  pub client_guid : String
  pub session_id : ℕ

pub record LeaseBreakEvent : Type 0 where
  pub lease_key : List ℕ
  pub current_state : ℕ
  pub new_state : ℕ
  pub new_epoch : ℕ
  pub ack_required : Bool
  pub break_id : ℕ

pub record OplockBreakEvent : Type 0 where
  pub persistent_id : ℕ
  pub volatile_id : ℕ
  pub current_level : ℕ
  pub new_level : ℕ
  pub ack_required : Bool
  pub break_id : ℕ

pub record OplockConnectionEntry : Type 0 where
  pub break_tx : ℕ
  pub server_id : String
  pub session_id : ℕ
  pub oplock_level : ℕ
  pub file_path : String
  pub share_name : String

pub record PendingOplockBreak : Type 0 where
  pub handle_id : ℕ
  pub new_level : ℕ
  pub sent_at : ℕ
  pub deadline : ℕ
  pub file_path : String

pub record PendingBreak : Type 0 where
  pub lease_key : String
  pub new_state : ℕ
  pub sent_at : ℕ
  pub deadline : ℕ
  pub file_path : String

pub data LeaseBreakResult : Type 0 where
  acknowledged : ℕ → ℕ → LeaseBreakResult
  timed_out disconnected already_broken no_ack_required : LeaseBreakResult

-- A key or a handle stands for the text that is made of it.
pub data LeaseBreakError : Type 0 where
  lease_not_found no_pending_break connection_unavailable : String → LeaseBreakError
  handle_not_found no_pending_handle : ℕ → LeaseBreakError
  send_failed : LeaseBreakError
  invalid_state_subset : ℕ → ℕ → LeaseBreakError

pub record LeaseBreakRegistry : Type 0 where
  pub lease_connections : Map String LeaseConnectionEntry
  pub pending_breaks : Map ℕ PendingBreak
  pub oplock_connections : Map ℕ OplockConnectionEntry
  pub pending_oplock_breaks : Map ℕ PendingOplockBreak
  pub next_break_id : ℕ
  pub break_timeout : ℕ
  pub events : List (ℕ × LeaseBreakEvent)
  pub oplock_events : List (ℕ × OplockBreakEvent)
  pub answers : Map ℕ LeaseBreakResult
  pub oplock_answers : Map ℕ LeaseBreakResult

abbrev pub Op : Type 0 → Type 0
Op A = Action LeaseBreakRegistry LeaseBreakError A

unfoldable pub with_timeout : ℕ → LeaseBreakRegistry
with_timeout timeout = record {
  lease_connections = [];
  pending_breaks = [];
  oplock_connections = [];
  pending_oplock_breaks = [];
  next_break_id = 1;
  break_timeout = timeout;
  events = [];
  oplock_events = [];
  answers = [];
  oplock_answers = [];
}

unfoldable pub register_lease :
    String → LeaseConnectionEntry → LeaseBreakRegistry → LeaseBreakRegistry
register_lease lease_key entry s = record s {
  lease_connections = Map.insert lease_key entry s.lease_connections;
}

unfoldable pub unregister_lease : String → LeaseBreakRegistry → Bool × LeaseBreakRegistry
unregister_lease lease_key s = (
  Map.contains_key lease_key s.lease_connections,
  record s { lease_connections = Map.remove lease_key s.lease_connections },
)

abbrev lease_of : String → ℕ → LeaseConnectionEntry → Bool
lease_of server_id session_id e = e.server_id == server_id && e.session_id == session_id

unfoldable pub unregister_connection_leases : String → ℕ → LeaseBreakRegistry → LeaseBreakRegistry
unregister_connection_leases server_id session_id s = record s {
  lease_connections = retain (λ e. not (lease_of server_id session_id e)) s.lease_connections;
}

unfoldable pub is_registered : String → LeaseBreakRegistry → Bool
is_registered lease_key s = Map.contains_key lease_key s.lease_connections

abbrev server_of : Option LeaseConnectionEntry → Option String
server_of none = none
server_of (some e) = some e.server_id

unfoldable pub get_server_id : String → LeaseBreakRegistry → Option String
get_server_id lease_key s = server_of (Map.get lease_key s.lease_connections)

-- How a wait ends: with what was sent, with the loss of the sender, or with the timer.
abbrev pub outcome : Option LeaseBreakResult → Bool → LeaseBreakResult
outcome (some result) waits = result
outcome none true = timed_out
outcome none false = disconnected

-- `iter().find(p)`, the key of what is found.
abbrev pub find_key : {V : Type 0} → (V → Bool) → Map ℕ V → Option (ℕ × V)
find_key p = findb (λ e. p e.1)
