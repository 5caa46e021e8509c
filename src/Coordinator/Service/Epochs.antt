-- ===== src/Coordinator/Service/Epochs.antt =====
-- Calls of the coordinator's service in any order, and the epochs that its subscribers see.
pub mod Sent
use rustsmb.Base.{
  ℕ, ◌≡◌, refl, sym, ap, String, Option, none, some, List, [], ◌∷◌, ◌++◌, add_u64, Option-cases,
  inl, inr, string_key, arith, ◌+◌, if◌then◌else◌, nat_eq,
}
use rustsmb.Base.Map.{IsMap, IsMap-insert, IsMap-remove, IsMap-modify}
use rustsmb.Coordinator.{
  CoordRequest, update_heartbeat, CoordinationState, apply, beat, get_epoch, get_server,
}
use rustsmb.Coordinator.Replicas.{heartbeat_absent, heartbeat_present}
use rustsmb.Coordinator
use rustsmb.Coordinator.Service.Epochs.Sent.{
  sent, owes, owed, count, Counts, Counts-snoc, count-snoc, sent-snoc, owed-append,
}
use rustsmb.Coordinator.Service.{
  Send, epoch_change, server_failure, send, CoordinatorService, Registration, EpochChangeEvent, new,
  register_server, heartbeat, leave_cluster, increment_epoch, fail_server,
}

-- Calls in any order, with the broadcasts that each has yet to make. The calls, and the monitor's removals
-- of servers that it found stale, take the lock one after the other, and their broadcasts come later, in
-- any order but that of one call's own.
pub data Run : List (List Send) → CoordinatorService → Type 0 where
  begin : Run [] new
  registering :
      {calls : List (List Send)} {s : CoordinatorService} (now : ℕ) (r : Option Registration)
      → Run calls s
      → Run calls (register_server now r s).1
  beating :
      {calls : List (List Send)} {s : CoordinatorService} (now : ℕ) (id : String)
      (sessions files : ℕ)
      → Run calls s
      → Run calls (heartbeat now id sessions files s).1
  leaving :
      {calls : List (List Send)} {s : CoordinatorService} (now : ℕ) (id : String)
      → Run calls s
      → Run ((leave_cluster now id s).0 ∷ calls) (leave_cluster now id s).1
  incrementing :
      {calls : List (List Send)} {s : CoordinatorService} (now : ℕ) (reason : String)
      → Run calls s
      → Run ((increment_epoch now reason s).1 ∷ calls) (increment_epoch now reason s).2
  failing :
      {calls : List (List Send)} {s : CoordinatorService} (now : ℕ) (id : String)
      → Run calls s
      → Run ((fail_server now id s).0 ∷ calls) (fail_server now id s).1
  sending :
      {s : CoordinatorService} (now : ℕ) (before : List (List Send)) (e : Send) (rest : List Send)
      (after : List (List Send))
      → Run (before ++ ((e ∷ rest) ∷ after)) s
      → Run (before ++ (rest ∷ after)) (send now e s)

-- The epochs since the first are those that were broadcast and those that are owed.
record IsService (calls : List (List Send)) (s : CoordinatorService) : Type 0 where
  pub epochs : List ℕ
  pub counted : Counts 1 epochs (get_epoch s.state)
  each : (n : ℕ) → sent n s.epoch_events + owed n calls ≡ count n epochs
  pub is_map : IsMap s.state.servers

-- A call that moves the epoch on, and owes one event of it.
moved-IsService :
    (calls : List (List Send)) (s s' : CoordinatorService) (call : List Send)
    → IsService calls s
    → get_epoch s'.state ≡ add_u64 (get_epoch s.state) 1
    → s'.epoch_events ≡ s.epoch_events
    → ((n : ℕ) → owes n call ≡ (if nat_eq n (add_u64 (get_epoch s.state) 1) then 1 else 0))
    → IsMap s'.state.servers
    → IsService (call ∷ calls) s'
moved-IsService calls s s' call h next same owing map =
    let e = add_u64 (get_epoch s.state) 1 in
    record {
      epochs = h.epochs ++ e ∷ [];
      counted = rw next (Counts-snoc 1 h.epochs (get_epoch s.state) h.counted);
      each = λ n. rw same (omega (arith, h.each n, owing n, count-snoc n h.epochs e));
      is_map = map;
    }

send-IsService :
    (now : ℕ) (before : List (List Send)) (e : Send) (rest : List Send) (after : List (List Send))
    (s : CoordinatorService)
    → IsService (before ++ ((e ∷ rest) ∷ after)) s
    → IsService (before ++ (rest ∷ after)) (send now e s)
unfolding send
send-IsService now before (epoch_change e reason) rest after s h = record {
  epochs = h.epochs;
  counted = h.counted;
  each = λ n.
      let event : EpochChangeEvent = record { new_epoch = e; reason = reason; timestamp = now } in
      omega (
        arith,
        h.each n,
        sent-snoc n s.epoch_events event,
        owed-append n before (epoch_change e reason ∷ rest) after,
        owed-append n before rest after,
      );
  is_map = h.is_map;
}
send-IsService now before (server_failure id e) rest after s h = record {
  epochs = h.epochs;
  counted = h.counted;
  each = λ n. omega (
    arith,
    h.each n,
    owed-append n before (server_failure id e ∷ rest) after,
    owed-append n before rest after,
  );
  is_map = h.is_map;
}

heartbeat_state :
    (now : ℕ) (id : String) (sessions files : ℕ) (s : CoordinatorService)
    → (heartbeat now id sessions files s).1
      ≡ record s { state = (apply now (update_heartbeat id now sessions files) s.state).1 }
unfolding heartbeat
heartbeat_state now id sessions files s = ground arith

heartbeat-IsService :
    (calls : List (List Send)) (now : ℕ) (id : String) (sessions files : ℕ) (s : CoordinatorService)
    → IsService calls s
    → IsService calls (heartbeat now id sessions files s).1
unfolding get_server get_epoch
heartbeat-IsService calls now id sessions files s h = elim (Option-cases (get_server s.state id)) [
  | inl absent ↦
      rw (heartbeat_state now id sessions files s) rw
        (heartbeat_absent now id now sessions files s.state absent) h
  | inr (r, present) ↦
      rw (heartbeat_state now id sessions files s) rw
        (heartbeat_present now id now sessions files s.state r present)
        record {
          epochs = h.epochs;
          counted = h.counted;
          each = h.each;
          is_map = IsMap-modify id (beat now sessions files) s.state.servers h.is_map;
        }
]

module _ (calls : List (List Send)) (s : CoordinatorService) (h : IsService calls s) (now : ℕ) where
  register_server-IsService :
      (r : Option Registration) → IsService calls (register_server now r s).1
  unfolding register_server apply get_epoch
  register_server-IsService none = h
  register_server-IsService (some r) = record {
    epochs = h.epochs;
    counted = h.counted;
    each = h.each;
    is_map = IsMap-insert r.server_id _ s.state.servers h.is_map;
  }

  leave_cluster-IsService :
      (id : String) → IsService ((leave_cluster now id s).0 ∷ calls) (leave_cluster now id s).1
  unfolding leave_cluster apply get_epoch
  leave_cluster-IsService id =
      moved-IsService calls s (leave_cluster now id s).1 (leave_cluster now id s).0 h refl refl
        (λ n. omega arith) (IsMap-remove id s.state.servers h.is_map)

  increment_epoch-IsService :
      (reason : String)
      → IsService ((increment_epoch now reason s).1 ∷ calls) (increment_epoch now reason s).2
  unfolding increment_epoch apply get_epoch
  increment_epoch-IsService reason =
      moved-IsService calls s (increment_epoch now reason s).2 (increment_epoch now reason s).1 h
        refl refl (λ n. omega arith) h.is_map

  fail_server-IsService :
      (id : String) → IsService ((fail_server now id s).0 ∷ calls) (fail_server now id s).1
  unfolding fail_server apply get_epoch
  fail_server-IsService id =
      moved-IsService calls s (fail_server now id s).1 (fail_server now id s).0 h refl refl
        (λ n. omega arith) (IsMap-remove id s.state.servers h.is_map)

Run-IsService :
    {calls : List (List Send)} {s : CoordinatorService} → Run calls s → IsService calls s
unfolding new get_epoch rustsmb.Coordinator.new
Run-IsService begin = record { epochs = []; counted = refl; each = λ n. refl; is_map = tt }
Run-IsService (registering {calls} {s} now r run) =
    register_server-IsService calls s (Run-IsService run) now r
Run-IsService (beating {calls} {s} now id sessions files run) =
    heartbeat-IsService calls now id sessions files s (Run-IsService run)
Run-IsService (leaving {calls} {s} now id run) =
    leave_cluster-IsService calls s (Run-IsService run) now id
Run-IsService (incrementing {calls} {s} now reason run) =
    increment_epoch-IsService calls s (Run-IsService run) now reason
Run-IsService (failing {calls} {s} now id run) =
    fail_server-IsService calls s (Run-IsService run) now id
Run-IsService (sending {s} now before e rest after run) =
    send-IsService now before e rest after s (Run-IsService run)

-- After calls of a new service in any order, where each broadcasts after it has released the lock, and
-- so perhaps later than a call that took the lock after it: the epochs from 2 up to the current one, each
-- one more than the one before (modulo 2 ^ 64), are those of the epoch events that were broadcast and of
-- those that calls have yet to broadcast, each just as often. The order of the events is left open. The
-- registrations have one entry for each key.
pub Run-Counts :
    (calls : List (List Send)) (s : CoordinatorService)
    → Run calls s
    → (epochs : List ℕ) × Counts 1 epochs (get_epoch s.state)
      × ((n : ℕ) → sent n s.epoch_events + owed n calls ≡ count n epochs)
      × IsMap s.state.servers
Run-Counts calls s run = let h = Run-IsService run in (h.epochs, h.counted, h.each, h.is_map)
