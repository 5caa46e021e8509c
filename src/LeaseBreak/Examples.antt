-- ===== src/LeaseBreak/Examples.antt =====
-- Tests of the registry of breaks.
use rustsmb.Base.{
  ℕ, ◌≡◌, String, true, false, Option, none, some, List, [], ◌∷◌, refl, inl, string_key, nat_key,
  if◌then◌else◌, arith,
}
use rustsmb.Base.Map
use rustsmb.Core.Action.{ok}
use rustsmb.State.Lease.{leases_conflict}
use rustsmb.LeaseBreak.{
  LeaseConnectionEntry, acknowledged, timed_out, disconnected, LeaseBreakRegistry, with_timeout,
  register_lease,
}
use rustsmb.LeaseBreak.Lease.{
  ack_required, send_lease_break, await_lease, end_lease_break, break_lease, exceeds,
  handle_acknowledgment, process_expired_breaks, calculate_break_state,
}
use rustsmb.LeaseBreak.Compatible.{leases_conflict-calculate_break_state}
use rustsmb.LeaseBreak.Acknowledged.{break_lease-handle_acknowledgment}
use rustsmb.LeaseBreak.Runs.{
  System, Started, after_send, on_registry, Run, begun, stepped, registers, sends, waits,
  acknowledges, ends, Asked,
}
use rustsmb.LeaseBreak.Expired.{process_expired_breaks_lem}
use rustsmb.LeaseBreak.Justified.{Run-acknowledged}

-- One who asks to cache handles is left beside one who caches writes.
leases_conflict-calculate_break_state_example : leases_conflict (calculate_break_state 3 5) 5 ≡ true
leases_conflict-calculate_break_state_example =
    leases_conflict-calculate_break_state 3 5 (omega arith)

abbrev decode : String → Option (List ℕ)
decode key = none

abbrev encode : List ℕ → String
encode bytes = "key"

abbrev entry : LeaseConnectionEntry
entry = record { break_tx = 1; server_id = "a"; client_guid = "c"; session_id = 7 }

abbrev one_lease : LeaseBreakRegistry
one_lease = register_lease "key" entry (with_timeout 35)

-- The state 3 is broken to 1, and the client acknowledges 1.
break_lease-handle_acknowledgment_example :
    ((break_lease decode
        (λ s. s)
        (λ s. (handle_acknowledgment encode [] 1 s).1)
        0
        true
        "key"
        3
        1
        2
        "/f"
        one_lease).0
      ≡ ok (if exceeds 1 1 then disconnected else acknowledged 1 0))
    × ((break_lease decode
          (λ s. (handle_acknowledgment encode [] 1 s).1)
          (λ s. s)
          0
          true
          "key"
          3
          1
          2
          "/f"
          one_lease).0
        ≡ ok timed_out)
unfolding register_lease with_timeout Map.get Map.insert ack_required
break_lease-handle_acknowledgment_example =
    break_lease-handle_acknowledgment decode encode [] entry one_lease refl refl refl 0 3 1 2 1 "/f"
      refl

abbrev at_start : System
at_start = record { registry = with_timeout 35; started = []; waiting = []; results = [] }

abbrev with_lease : System
with_lease = on_registry (register_lease "key" entry) at_start

abbrev with_event : System
with_event =
    after_send "key" 1 "/f" (send_lease_break decode true "key" 3 1 2 with_lease.registry)
      with_lease

abbrev call : Started
call = record { break_id = 1; lease_key = "key"; new_state = 1; file_path = "/f" }

abbrev with_wait : System
with_wait = record with_event {
  registry = await_lease 0 1 "key" 1 "/f" with_event.registry;
  started = [];
  waiting = 1 ∷ [];
}

abbrev with_answer : System
with_answer = on_registry (λ r. (handle_acknowledgment encode [] 1 r).1) with_wait

abbrev with_result : System
with_result = record with_answer {
  registry = (end_lease_break 1 with_answer.registry).1;
  waiting = [];
  results = (1, (end_lease_break 1 with_answer.registry).0) ∷ with_answer.results;
}

one_break : Run decode encode with_result
unfolding register_lease with_timeout send_lease_break ack_required await_lease end_lease_break
    handle_acknowledgment Map.get Map.insert
one_break =
    stepped
      (stepped
        (stepped
          (stepped (stepped (begun 35) (registers "key" entry)) (sends true "key" 3 1 2 "/f"))
          (waits 0 [] [] call refl))
        (acknowledges [] 1))
      (ends [] [] 1 refl)

Run-acknowledged_example :
    (new_state : ℕ) × (Asked 1 new_state with_result.registry.events
      × (exceeds 1 new_state ≡ false))
unfolding register_lease with_timeout send_lease_break ack_required await_lease end_lease_break
    handle_acknowledgment Map.get Map.insert Map.remove Map.contains_key
Run-acknowledged_example = Run-acknowledged decode encode with_result 1 1 0 one_break (inl refl)

-- One break of two has expired at time 40.
abbrev two_waiting : LeaseBreakRegistry
two_waiting = await_lease 10 2 "l" 0 "/g" (await_lease 0 1 "key" 1 "/f" (with_timeout 35))

process_expired_breaks_lem_example :
    let out = (process_expired_breaks 40 two_waiting).1 in
    (Map.get 1 out.pending_breaks ≡ none) × (Map.get 1 out.answers ≡ some timed_out)
unfolding await_lease with_timeout Map.get Map.insert Map.remove
process_expired_breaks_lem_example =
    process_expired_breaks_lem 40 1 two_waiting ((refl, tt), (tt, tt))
