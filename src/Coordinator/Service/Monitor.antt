-- ===== src/Coordinator/Service/Monitor.antt =====
-- What a check of the heartbeats removes and tells.
use rustsmb.Base.{
  ℕ, ◌-◌, ◌≡◌, ◌∙◌, refl, sym, ap, not, append-nil, append_assoc, String, Bool, Option, none, some,
  List, [], ◌∷◌, ◌++◌, map, string_key, ltb, if◌then◌else◌, arith,
}
use mathlib.Core.List.{map-append}
use rustsmb.Base.Map.{keep, IsMap, memb, retain, is_stored, memb-keys, get-retain, get-remove}
use rustsmb.Coord.{ServerRegistration}
use rustsmb.Coordinator.{CoordinationState, apply, get_server, get_stale_servers}
use rustsmb.Coordinator.Service.{
  CoordinatorService, ServerFailureEvent, send, send_all, times, fail_server, fail_servers,
  check_heartbeats,
}

get_server-fail_servers :
    (clock : String → ℕ × ℕ) (ids : List String) (s : CoordinatorService) (id : String)
    → get_server (fail_servers clock ids s).state id
      ≡ (if memb id ids then none else get_server s.state id)
unfolding fail_servers get_server fail_server send_all send apply
get_server-fail_servers clock [] s id = refl
get_server-fail_servers clock (gone ∷ ids) s id =
    let (sends, s') = fail_server (clock gone).0 gone s in
    get_server-fail_servers clock ids (send_all (times (clock gone)) sends s') id
    ∙ ground (arith, get-remove gone id s.state.servers)

failures-fail_servers :
    (clock : String → ℕ × ℕ) (ids : List String) (s : CoordinatorService)
    → map ServerFailureEvent.failed_server_id (fail_servers clock ids s).failure_events
      ≡ map ServerFailureEvent.failed_server_id s.failure_events ++ ids
unfolding fail_servers fail_server send_all send
failures-fail_servers clock [] s =
    sym (append-nil (map ServerFailureEvent.failed_server_id s.failure_events))
failures-fail_servers clock (gone ∷ ids) s =
    let (sends, s') = fail_server (clock gone).0 gone s in
    let told = send_all (times (clock gone)) sends s' in
    failures-fail_servers clock ids told
    ∙ rw (map-append ServerFailureEvent.failed_server_id)
        (append_assoc (map ServerFailureEvent.failed_server_id s.failure_events) (gone ∷ []) ids)

memb-get_stale_servers :
    (now timeout : ℕ) (s : CoordinationState) (id : String)
    → IsMap s.servers
    → memb id (get_stale_servers now timeout s)
      ≡ is_stored (keep (λ r. ltb r.last_heartbeat (now - timeout)) (get_server s id))
unfolding get_stale_servers get_server
memb-get_stale_servers now timeout s id h =
    memb-keys id (retain (λ r. ltb r.last_heartbeat (now - timeout)) s.servers)
    ∙ ap is_stored (get-retain (λ r. ltb r.last_heartbeat (now - timeout)) id s.servers h)

dropped :
    (p : ServerRegistration → Bool) (o : Option ServerRegistration)
    → (if is_stored (keep p o) then none else o) ≡ keep (λ r. not (p r)) o
dropped p none = refl
dropped p (some r) = ground arith

-- When the map of registrations has one entry for each key, a check of the heartbeats that no call comes
-- between removes the servers that were not heard of for longer than the timeout and keeps the others as
-- they are, and it broadcasts one failure for each server that was stale and for no other.
pub check_heartbeats_lem :
    (now timeout : ℕ) (clock : String → ℕ × ℕ) (s : CoordinatorService)
    → IsMap s.state.servers
    → let checked = check_heartbeats now timeout clock s in
      (map ServerFailureEvent.failed_server_id checked.failure_events
        ≡ map ServerFailureEvent.failed_server_id s.failure_events
          ++ get_stale_servers now timeout s.state)
      × ((id : String)
          → get_server checked.state id
            ≡ keep (λ r. not (ltb r.last_heartbeat (now - timeout))) (get_server s.state id))
unfolding check_heartbeats
check_heartbeats_lem now timeout clock s h = (
  failures-fail_servers clock (get_stale_servers now timeout s.state) s,
  λ id.
      get_server-fail_servers clock (get_stale_servers now timeout s.state) s id
      ∙ ap (λ b. if b then none else get_server s.state id)
          (memb-get_stale_servers now timeout s.state id h)
      ∙ dropped (λ r. ltb r.last_heartbeat (now - timeout)) (get_server s.state id),
)
