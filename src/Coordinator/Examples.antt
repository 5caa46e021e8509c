-- ===== src/Coordinator/Examples.antt =====
-- Tests of crates/rustsmb-coordinator/src/state.rs and service.rs, those of the source among them.
use rustsmb.Base.{
  ℕ, ◌+◌, ◌-◌, ◌≡◌, refl, String, some, List, [], ◌∷◌, ◌++◌, map, not, ltb, string_key,
}
use rustsmb.Base.Map.{get, insert, remove, modify, keep, IsMap}
use rustsmb.Coord.{ServerRegistration}
use rustsmb.Coordinator
use rustsmb.Coordinator.{
  CoordRequest, register_server, unregister_server, update_heartbeat, increment_epoch,
  CoordResponse, done, epoch, server_not_found, CoordinationState, new, apply, get_servers,
  get_server, get_epoch, get_stale_servers,
}
use rustsmb.Coordinator.Replicas.{Agree, replay, first_log, second_log, replicas_lem}
use rustsmb.Coordinator.Service
use rustsmb.Core.Action.{Result, err}
use rustsmb.Coordinator.Service.{
  Status, not_found, send, send_all, leave_cluster, epoch_change, heartbeat, CoordinatorService,
  Registration, EpochChangeEvent, ServerFailureEvent, check_heartbeats, fail_server, fail_servers,
}
use rustsmb.Coordinator.Service.Monitor.{check_heartbeats_lem}
use rustsmb.Coordinator.Service.Epochs.Sent.{sent, owed, count, Counts}
use rustsmb.Coordinator.Service.Epochs.{Run, begin, leaving, incrementing, sending, Run-Counts}

abbrev registration : String → ℕ → ServerRegistration
registration id time = record {
  server_id = id;
  hostname = "localhost";
  port = 445;
  raft_addr = "";
  registered_at = time;
  last_heartbeat = time;
  active_sessions = 0;
  active_handles = 0;
}

register_test :
    apply 7 (register_server (registration "server1" 0)) new
    ≡ (epoch 1, record { cache_epoch = 1; servers = ("server1", registration "server1" 7) ∷ [] })
unfolding apply new insert remove
register_test = refl

abbrev one : CoordinationState
one = record { cache_epoch = 1; servers = ("server1", registration "server1" 7) ∷ [] }

unregister_test :
    apply 8 (unregister_server "server1") one ≡ (epoch 2, record { cache_epoch = 2; servers = [] })
unfolding apply remove
unregister_test = refl

beat_test :
    get_server (apply 9 (update_heartbeat "server1" 12345 10 100) one).1 "server1"
    ≡ some record (registration "server1" 7) {
      last_heartbeat = 12345;
      active_sessions = 10;
      active_handles = 100;
    }
unfolding apply get_server get modify
beat_test = refl

unknown_test :
    apply 9 (update_heartbeat "server2" 12345 10 100) one ≡ (server_not_found "server2", one)
unfolding apply get
unknown_test = refl

-- One server was last heard of at 1000 and another at 5000.
abbrev two : CoordinationState
two = record {
  cache_epoch = 1;
  servers =
      ("server2", registration "server2" 5000) ∷ ("server1", registration "server1" 1000) ∷ [];
}

stale_test : get_stale_servers 5010 15 two ≡ "server1" ∷ []
unfolding get_stale_servers
stale_test = refl

abbrev watched : CoordinatorService
watched = record { state = two; epoch_events = []; failure_events = [] }

served_test : map Registration.server_id (Service.get_servers watched) ≡ "server2" ∷ "server1" ∷ []
unfolding Service.get_servers Coordinator.get_servers
served_test = refl

check_test :
    (check_heartbeats 5010 15 (λ id. (5011, 5012)) watched).epoch_events
    ≡ record { new_epoch = 2; reason = "server_failure:server1"; timestamp = 5012 } ∷ []
unfolding check_heartbeats get_stale_servers fail_servers fail_server send_all send apply
check_test = refl

check_heartbeats_example :
    let checked = check_heartbeats 5010 15 (λ id. (5011, 5012)) watched in
    (map ServerFailureEvent.failed_server_id checked.failure_events
      ≡ map ServerFailureEvent.failed_server_id watched.failure_events
        ++ get_stale_servers 5010 15 watched.state)
    × ((id : String)
        → get_server checked.state id
          ≡ keep (λ r. not (ltb r.last_heartbeat (5010 - 15))) (get_server watched.state id))
check_heartbeats_example =
    check_heartbeats_lem 5010 15 (λ id. (5011, 5012)) watched ((refl, tt), (tt, tt))

-- Two clocks, of which the second is slow.
abbrev log : List (ℕ × ℕ × CoordRequest)
log =
    (100, 60, register_server (registration "server1" 0))
    ∷ (101, 61, update_heartbeat "server1" 99 3 4)
    ∷ (130, 90, register_server (registration "server2" 0))
    ∷ (131, 91, update_heartbeat "server3" 99 3 4)
    ∷ (140, 99, unregister_server "server1")
    ∷ []

responses_test :
    (replay (second_log log) new).0
    ≡ epoch 1 ∷ done ∷ epoch 1 ∷ server_not_found "server3" ∷ epoch 2 ∷ []
unfolding apply new insert remove get modify
responses_test = refl

-- The replicas name different servers as stale at one time.
stale_first_test : get_stale_servers 140 15 (replay (first_log log) new).1 ≡ []
unfolding get_stale_servers apply new insert remove get modify
stale_first_test = refl

stale_second_test : get_stale_servers 140 15 (replay (second_log log) new).1 ≡ "server2" ∷ []
unfolding get_stale_servers apply new insert remove get modify
stale_second_test = refl

replicas_example :
    ((replay (first_log log) new).0 ≡ (replay (second_log log) new).0)
    × Agree (replay (first_log log) new).1 (replay (second_log log) new).1
replicas_example = replicas_lem log

abbrev alice : Registration
alice = record {
  server_id = "alice";
  hostname = "localhost";
  port = 445;
  registered_at = 0;
  last_heartbeat = 0;
  active_sessions = 0;
  active_handles = 0;
}

-- A server is found stale, is heard of again, and is removed all the same; its next heartbeat fails.
abbrev late : CoordinatorService → Result Status ℕ × CoordinatorService
late s =
    let beaten = (heartbeat 30 "alice" 1 1 (Service.register_server 10 (some alice) s).1).1 in
    heartbeat 32 "alice" 1 1 (fail_server 31 "alice" beaten).1

late_test : (late Service.new).0 ≡ err (not_found "Server not found: alice")
unfolding apply Service.new Coordinator.new Service.register_server heartbeat fail_server get remove
    insert modify
late_test = refl

-- A server leaves, and then the epoch is raised; the second call broadcasts first.
abbrev left : CoordinatorService
left = (leave_cluster 40 "alice" Service.new).1

abbrev raised : CoordinatorService
raised = (Service.increment_epoch 41 "test" left).2

abbrev told : CoordinatorService
told = send 43 (epoch_change 2 "server_leave:alice") (send 42 (epoch_change 3 "test") raised)

order_test : map EpochChangeEvent.new_epoch told.epoch_events ≡ 3 ∷ 2 ∷ []
unfolding apply Service.new Coordinator.new leave_cluster Service.increment_epoch send remove
order_test = refl

told_run : Run ([] ∷ [] ∷ []) told
unfolding apply Service.new Coordinator.new leave_cluster Service.increment_epoch remove
told_run = sending 43 ([] ∷ []) (epoch_change 2 "server_leave:alice") [] [] (
    sending 42 [] (epoch_change 3 "test") [] ((epoch_change 2 "server_leave:alice" ∷ []) ∷ [])
      (incrementing 41 "test" (leaving 40 "alice" begin)))

Run-Counts_example :
    (epochs : List ℕ) × Counts 1 epochs (get_epoch told.state)
    × ((n : ℕ) → sent n told.epoch_events + owed n ([] ∷ [] ∷ []) ≡ count n epochs)
    × IsMap told.state.servers
Run-Counts_example = Run-Counts ([] ∷ [] ∷ []) told told_run
