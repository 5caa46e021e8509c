-- ===== src/LeaseBreak/Sent.antt =====
-- A step that sends an event keeps what breaks end with justified.
use rustsmb.Base.{
  ℕ, ◌≡◌, String, Bool, true, false, Option, List, ◌∷◌, All, All-map, refl, nat_key, string_key,
  add_u64, Bool-cases, Option-cases, inl, inr,
}
use rustsmb.Base.Map
use rustsmb.Base.Map.{Map, retain, All-remove}
use rustsmb.Core.Action.{Result, ok, err}
use rustsmb.LeaseBreak.{
  LeaseConnectionEntry, LeaseBreakEvent, LeaseBreakError, lease_not_found, send_failed,
  LeaseBreakRegistry,
}
use rustsmb.LeaseBreak.Lease.{ack_required, key_bytes, send_lease_break}
use rustsmb.LeaseBreak.Runs.{
  System, after_send, Asked, latest, before, Justified, Justified-before, AskedStart, AskedBreak,
  IsJustified,
}
use rustsmb.LeaseBreak.Quiet.{quiet}

module _ (decode : String → Option (List ℕ)) (sys : System) (j : IsJustified sys) (key : String)
    (current_state new_state epoch : ℕ) (path : String) where
  abbrev sent_event : LeaseBreakEvent
  sent_event = record {
    lease_key = key_bytes (decode key);
    current_state = current_state;
    new_state = new_state;
    new_epoch = epoch;
    ack_required = ack_required current_state;
    break_id = sys.registry.next_break_id;
  }

  abbrev numbered : LeaseBreakRegistry
  numbered = record sys.registry { next_break_id = add_u64 sys.registry.next_break_id 1 }

  abbrev logged : LeaseConnectionEntry → LeaseBreakRegistry
  logged entry = record numbered { events = (entry.break_tx, sent_event) ∷ sys.registry.events }

  abbrev sending : Bool → Result LeaseBreakError (ℕ × Bool) × LeaseBreakRegistry
  sending accepts = send_lease_break decode accepts key current_state new_state epoch sys.registry

  -- What was sent is one event more, and what was so stays so.
  logged-IsJustified :
      (entry : LeaseConnectionEntry) (acked : Bool)
      → IsJustified
          (after_send key new_state path (ok (sys.registry.next_break_id, acked), logged entry) sys)
  logged-IsJustified entry acked =
      let event : ℕ × LeaseBreakEvent = (entry.break_tx, sent_event) in
      let old = sys.registry.events in
      let asked : Asked sys.registry.next_break_id new_state (event ∷ old) = latest refl refl in
      let starts =
        All-map (AskedStart old) (AskedStart (event ∷ old)) sys.started (λ b h. before h)
          j.started in
      let breaks =
        All-map (AskedBreak old) (AskedBreak (event ∷ old)) sys.registry.pending_breaks
          (λ b h. before h) j.pending in
      let replies =
        All-map (Justified old) (Justified (event ∷ old)) sys.registry.answers
          (Justified-before event old) j.answers in
      let returns =
        All-map (Justified old) (Justified (event ∷ old)) sys.results (Justified-before event old)
          j.results in
      by_ack acked asked starts breaks replies returns
    where
      by_ack :
          (acked : Bool)
          → Asked sys.registry.next_break_id new_state (logged entry).events
          → All (AskedStart (logged entry).events) sys.started
          → All (AskedBreak (logged entry).events) sys.registry.pending_breaks
          → All (Justified (logged entry).events) sys.registry.answers
          → All (Justified (logged entry).events) sys.results
          → IsJustified (
              after_send key new_state path
                (ok (sys.registry.next_break_id, acked), logged entry)
                sys)
      by_ack true asked starts breaks replies returns = record {
        started = (asked, starts);
        pending = breaks;
        answers = replies;
        results = returns;
      }
      by_ack false asked starts breaks replies returns = record {
        started = starts;
        pending = breaks;
        answers = replies;
        results = (tt, returns);
      }

  pub send-IsJustified :
      (accepts : Bool) → IsJustified (after_send key new_state path (sending accepts) sys)
  unfolding send_lease_break
  send-IsJustified accepts = elim (Option-cases (Map.get key sys.registry.lease_connections)) [
    | inl missing ↦
        let left : sending accepts ≡ (err (lease_not_found key), sys.registry) = rw missing refl in
        rw left j
    | inr (entry, found) ↦ elim (Bool-cases accepts) [
      | inl taken ↦
          let left : sending accepts
              ≡ (ok (sys.registry.next_break_id, ack_required current_state), logged entry) =
            rw (found, taken) refl in
          rw left (logged-IsJustified entry (ack_required current_state))
      | inr refused ↦
          let left : sending accepts ≡ (err send_failed, numbered) = rw (found, refused) refl in
          rw left (quiet sys j numbered refl j.pending j.answers)
    ]
  ]
