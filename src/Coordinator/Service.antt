-- ===== src/Coordinator/Service.antt =====
-- crates/rustsmb-coordinator/src/service.rs: the calls of the coordinator's service and its monitor of
-- heartbeats. `now` is what a call reads from the clock. What a call does under the lock of the state is
-- one step, and each of its broadcasts is another. The events are those broadcast so far, in order.
pub mod Epochs
pub mod Monitor
use Prim.Native.String
use rustsmb.Base.{
  ℕ, ◌%◌, ◌^◌, String, Bool, true, Option, none, some, List, [], ◌∷◌, ◌++◌, map, length,
}
use rustsmb.Core.Action.{Result, ok, err}
use rustsmb.Coord.{ServerRegistration}
use rustsmb.Coordinator
use rustsmb.Coordinator.{
  CoordRequest, unregister_server, update_heartbeat, CoordResponse, done, epoch, servers,
  server_not_found, CoordinationState, apply, get_epoch, get_stale_servers,
}

pub data Status : Type 0 where
  invalid_argument not_found : String → Status

-- The registration of crates/rustsmb-coordinator-proto, in a request and in a response.
pub record Registration : Type 0 where
  pub server_id : String
  pub hostname : String
  pub port : ℕ
  pub registered_at : ℕ
  pub last_heartbeat : ℕ
  pub active_sessions : ℕ
  pub active_handles : ℕ

pub record EpochChangeEvent : Type 0 where
  pub new_epoch : ℕ
  pub reason : String
  pub timestamp : ℕ

pub record ServerFailureEvent : Type 0 where
  pub failed_server_id : String
  pub new_epoch : ℕ
  pub timestamp : ℕ

pub record CoordinatorService : Type 0 where
  pub state : CoordinationState
  pub epoch_events : List EpochChangeEvent
  pub failure_events : List ServerFailureEvent

unfoldable pub new : CoordinatorService
new = record { state = rustsmb.Coordinator.new; epoch_events = []; failure_events = [] }

-- The epoch of a response, or else that of the state it leaves.
abbrev pub epoch_of : CoordResponse × CoordinationState → ℕ
epoch_of (epoch e, s) = e
epoch_of (done, s) = get_epoch s
epoch_of (servers rs, s) = get_epoch s
epoch_of (server_not_found id, s) = get_epoch s

abbrev pub from_proto : Registration → ServerRegistration
from_proto r = record {
  server_id = r.server_id;
  hostname = r.hostname;
  port = r.port % 2 ^ 16;
  raft_addr = "";
  registered_at = r.registered_at;
  last_heartbeat = r.last_heartbeat;
  active_sessions = r.active_sessions;
  active_handles = r.active_handles;
}

abbrev pub to_proto : ServerRegistration → Registration
to_proto s = record {
  server_id = s.server_id;
  hostname = s.hostname;
  port = s.port;
  registered_at = s.registered_at;
  last_heartbeat = s.last_heartbeat;
  active_sessions = s.active_sessions;
  active_handles = s.active_handles;
}

-- What the caller is told: the epoch and the number of servers.
unfoldable pub register_server :
    ℕ → Option Registration → CoordinatorService → Result Status (ℕ × ℕ) × CoordinatorService
register_server now none s = (err (invalid_argument "Missing registration"), s)
register_server now (some r) s =
    let applied = apply now (CoordRequest.register_server (from_proto r)) s.state in
    (ok (epoch_of applied, length applied.1.servers % 2 ^ 32), record s { state = applied.1 })

unfoldable pub heartbeat :
    ℕ → String → ℕ → ℕ → CoordinatorService → Result Status ℕ × CoordinatorService
heartbeat now server_id sessions files s =
    let (response, state) = apply now (update_heartbeat server_id now sessions files) s.state in
    elim response as (λ _. Result Status ℕ × CoordinatorService) [
      | server_not_found id ↦
          (err (not_found (String.◌++◌ "Server not found: " id)), record s { state = state })
      | done ↦ (ok (get_epoch state), record s { state = state })
      | epoch e ↦ (ok (get_epoch state), record s { state = state })
      | servers rs ↦ (ok (get_epoch state), record s { state = state })
    ]

-- A broadcast that a call has yet to make: it comes after the lock of the state is released.
pub data Send : Type 0 where
  epoch_change : (new_epoch : ℕ) (reason : String) → Send
  server_failure : (failed_server_id : String) (new_epoch : ℕ) → Send

-- `self.epoch_tx.send(...)` and `service.failure_tx.send(...)`
unfoldable pub send : ℕ → Send → CoordinatorService → CoordinatorService
send now (epoch_change new_epoch reason) s = record s {
  epoch_events =
      s.epoch_events ++ record { new_epoch = new_epoch; reason = reason; timestamp = now } ∷ [];
}
send now (server_failure failed_server_id new_epoch) s = record s {
  failure_events =
      s.failure_events
      ++ record { failed_server_id = failed_server_id; new_epoch = new_epoch; timestamp = now }
        ∷ [];
}

-- What a call does under the lock, and the broadcasts that are left to it then.
unfoldable pub leave_cluster : ℕ → String → CoordinatorService → List Send × CoordinatorService
leave_cluster now server_id s =
    let applied = apply now (unregister_server server_id) s.state in
    (
      epoch_change (epoch_of applied) (String.◌++◌ "server_leave:" server_id) ∷ [],
      record s { state = applied.1 },
    )

-- The first component is what the caller is told after the broadcast.
unfoldable pub increment_epoch :
    ℕ → String → CoordinatorService → ℕ × List Send × CoordinatorService
increment_epoch now reason s =
    let applied = apply now (CoordRequest.increment_epoch reason) s.state in
    (epoch_of applied, epoch_change (epoch_of applied) reason ∷ [], record s { state = applied.1 })

unfoldable pub get_servers : CoordinatorService → List Registration
get_servers s = map to_proto (rustsmb.Coordinator.get_servers s.state)

-- The monitor unregisters a server that it found stale.
unfoldable pub fail_server : ℕ → String → CoordinatorService → List Send × CoordinatorService
fail_server now server_id s =
    let applied = apply now (unregister_server server_id) s.state in
    (
      server_failure server_id (epoch_of applied)
          ∷ epoch_change (epoch_of applied) (String.◌++◌ "server_failure:" server_id)
          ∷ [],
      record s { state = applied.1 },
    )

-- The broadcasts of one call in order, each at the time that `clock` says for it.
unfoldable pub send_all : (Send → ℕ) → List Send → CoordinatorService → CoordinatorService
unfolding send
send_all clock [] s = s
send_all clock (e ∷ rest) s = send_all clock rest (send (clock e) e s)

abbrev pub times : ℕ × ℕ → Send → ℕ
times clock (server_failure id e) = clock.0
times clock (epoch_change e reason) = clock.1

-- The loop of the monitor over the servers; `clock` is what it reads at each for the two events. No
-- call comes between.
unfoldable pub fail_servers :
    (String → ℕ × ℕ) → List String → CoordinatorService → CoordinatorService
unfolding send_all fail_server
fail_servers clock [] s = s
fail_servers clock (id ∷ ids) s =
    let (sends, s') = fail_server (clock id).0 id s in
    fail_servers clock ids (send_all (times (clock id)) sends s')

-- A check by the monitor that no call comes between.
unfoldable pub check_heartbeats : ℕ → ℕ → (String → ℕ × ℕ) → CoordinatorService → CoordinatorService
check_heartbeats now timeout clock s = fail_servers clock (get_stale_servers now timeout s.state) s
