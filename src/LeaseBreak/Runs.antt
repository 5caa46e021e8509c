-- ===== src/LeaseBreak/Runs.antt =====
-- Runs of the registry with any number of breaks of leases at once: a call is cut where it waits, and any
-- other steps may come between its parts. A wait may end at any time.
use rustsmb.Base.{
  ℕ, ◌≡◌, String, Bool, true, false, Option, List, [], ◌∷◌, ◌++◌, All, nat_key, string_key,
}
use rustsmb.Core.Action.{Result, ok, err}
use rustsmb.LeaseBreak.{
  LeaseConnectionEntry, LeaseBreakEvent, PendingBreak, LeaseBreakResult, acknowledged, timed_out,
  disconnected, already_broken, no_ack_required, LeaseBreakError, LeaseBreakRegistry, with_timeout,
  register_lease, unregister_lease, unregister_connection_leases,
}
use rustsmb.LeaseBreak.Lease.{
  send_lease_break, await_lease, end_lease_break, exceeds, handle_acknowledgment,
  process_expired_breaks,
}

-- A call that has sent its event, and does not wait yet.
pub record Started : Type 0 where
  pub break_id : ℕ
  pub lease_key : String
  pub new_state : ℕ
  pub file_path : String

-- The registry, the calls under way, and what calls have returned.
pub record System : Type 0 where
  pub registry : LeaseBreakRegistry
  pub started : List Started
  pub waiting : List ℕ
  pub results : List (ℕ × LeaseBreakResult)

abbrev pub after_send :
    String → ℕ → String → Result LeaseBreakError (ℕ × Bool) × LeaseBreakRegistry → System → System
after_send key new_state path (ok (id, true), reg) sys = record sys {
  registry = reg;
  started =
      record { break_id = id; lease_key = key; new_state = new_state; file_path = path }
      ∷ sys.started;
}
after_send key new_state path (ok (id, false), reg) sys = record sys {
  registry = reg;
  results = (id, no_ack_required) ∷ sys.results;
}
after_send key new_state path (err e, reg) sys = record sys { registry = reg }

abbrev pub on_registry : (LeaseBreakRegistry → LeaseBreakRegistry) → System → System
on_registry f sys = record sys { registry = f sys.registry }

pub data Step (decode : String → Option (List ℕ)) (encode : List ℕ → String) (sys : System)
    : System → Type 0 where
  sends :
      (accepts : Bool) (key : String) (current_state new_state epoch : ℕ) (path : String)
      → Step decode encode sys (
          after_send key new_state path
            (send_lease_break decode accepts key current_state new_state epoch sys.registry)
            sys)
  waits :
      (now : ℕ) (front back : List Started) (b : Started)
      → sys.started ≡ front ++ (b ∷ back)
      → Step decode encode sys (record sys {
        registry = await_lease now b.break_id b.lease_key b.new_state b.file_path sys.registry;
        started = front ++ back;
        waiting = b.break_id ∷ sys.waiting;
      })
  ends :
      (front back : List ℕ) (id : ℕ)
      → sys.waiting ≡ front ++ (id ∷ back)
      → Step decode encode sys (record sys {
        registry = (end_lease_break id sys.registry).1;
        waiting = front ++ back;
        results = (id, (end_lease_break id sys.registry).0) ∷ sys.results;
      })
  acknowledges :
      (bytes : List ℕ) (state : ℕ)
      → Step decode encode sys
          (on_registry (λ r. (handle_acknowledgment encode bytes state r).1) sys)
  expires :
      (now : ℕ) → Step decode encode sys (on_registry (λ r. (process_expired_breaks now r).1) sys)
  registers :
      (key : String) (entry : LeaseConnectionEntry)
      → Step decode encode sys (on_registry (register_lease key entry) sys)
  unregisters :
      (key : String) → Step decode encode sys (on_registry (λ r. (unregister_lease key r).1) sys)
  disconnects :
      (server_id : String) (session_id : ℕ)
      → Step decode encode sys (on_registry (unregister_connection_leases server_id session_id) sys)

pub data Run (decode : String → Option (List ℕ)) (encode : List ℕ → String) : System → Type 0 where
  begun :
      (timeout : ℕ)
      → Run decode encode
          (record { registry = with_timeout timeout; started = []; waiting = []; results = [] })
  stepped :
      {sys sys' : System}
      → Run decode encode sys
      → Step decode encode sys sys'
      → Run decode encode sys'

-- A client was sent the event of a break, to a state.
pub data Asked (id new_state : ℕ) : List (ℕ × LeaseBreakEvent) → Type 0 where
  latest :
      {e : ℕ × LeaseBreakEvent} {events : List (ℕ × LeaseBreakEvent)}
      → e.1.break_id ≡ id
      → e.1.new_state ≡ new_state
      → Asked id new_state (e ∷ events)
  before :
      {e : ℕ × LeaseBreakEvent} {events : List (ℕ × LeaseBreakEvent)}
      → Asked id new_state events
      → Asked id new_state (e ∷ events)

-- What a break ends with, an acknowledgement only of a part of the state that the client was asked for.
abbrev pub Justified : List (ℕ × LeaseBreakEvent) → ℕ × LeaseBreakResult → Type 0
Justified events (id, acknowledged state epoch) =
    (new_state : ℕ) × (Asked id new_state events × (exceeds state new_state ≡ false))
Justified events (id, timed_out) = Unit
Justified events (id, disconnected) = Unit
Justified events (id, already_broken) = Unit
Justified events (id, no_ack_required) = Unit

pub Justified-before :
    (e : ℕ × LeaseBreakEvent) (events : List (ℕ × LeaseBreakEvent)) (r : ℕ × LeaseBreakResult)
    → Justified events r
    → Justified (e ∷ events) r
Justified-before e events (id, acknowledged state epoch) (new_state, (asked, within)) =
    (new_state, (before asked, within))
Justified-before e events (id, timed_out) j = tt
Justified-before e events (id, disconnected) j = tt
Justified-before e events (id, already_broken) j = tt
Justified-before e events (id, no_ack_required) j = tt

module _ (events : List (ℕ × LeaseBreakEvent)) where
  abbrev pub AskedStart : Started → Type 0
  AskedStart b = Asked b.break_id b.new_state events

  abbrev pub AskedBreak : ℕ × PendingBreak → Type 0
  AskedBreak e = Asked e.0 e.1.new_state events

pub record IsJustified (sys : System) : Type 0 where
  pub started : All (AskedStart sys.registry.events) sys.started
  pub pending : All (AskedBreak sys.registry.events) sys.registry.pending_breaks
  pub answers : All (Justified sys.registry.events) sys.registry.answers
  pub results : All (Justified sys.registry.events) sys.results
