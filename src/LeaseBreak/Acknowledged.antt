-- ===== src/LeaseBreak/Acknowledged.antt =====
-- How a break of a lease ends, by when its acknowledgement comes.
use rustsmb.Base.{
  ℕ, ◌+◌, ◌≡◌, String, Bool, true, false, Option, none, some, List, refl, ap, ◌∙◌, nat_key,
  string_key, ◌==◌, Bool-cases, inl, inr, if◌then◌else◌,
}
use rustsmb.Base.Map
use rustsmb.Base.Entries.{contains-insert, contains-remove, get-insert_self}
use rustsmb.Core.Action.{Result, ok, err}
use rustsmb.LeaseBreak.{
  LeaseConnectionEntry, PendingBreak, LeaseBreakResult, acknowledged, timed_out, disconnected,
  LeaseBreakError, no_pending_break, invalid_state_subset, LeaseBreakRegistry, outcome, find_key,
}
use rustsmb.LeaseBreak.Lease.{
  ack_required, send_lease_break, await_lease, end_lease_break, break_lease, exceeds,
  handle_acknowledgment,
}

ended_as :
    (id : ℕ) (t : LeaseBreakRegistry) (answer : Option LeaseBreakResult) (waits : Bool)
    → Map.get id t.answers ≡ answer
    → Map.contains_key id t.pending_breaks ≡ waits
    → (end_lease_break id t).0 ≡ outcome answer waits
unfolding end_lease_break
ended_as id t answer waits a w =
    ap (λ (x : Option LeaseBreakResult). outcome x (Map.contains_key id t.pending_breaks)) a
    ∙ ap (outcome answer) w

module _ (encode : List ℕ → String) (bytes : List ℕ) (state : ℕ) where
  abbrev of_key : PendingBreak → Bool
  of_key b = b.lease_key == encode bytes

  module _ (s : LeaseBreakRegistry) (id : ℕ) (b : PendingBreak)
      (found : find_key of_key s.pending_breaks ≡ some (id, b)) where
    acknowledged_within :
        exceeds state b.new_state ≡ false
        → handle_acknowledgment encode bytes state s ≡ (
          ok tt,
          record s {
            pending_breaks = Map.remove id s.pending_breaks;
            answers = Map.insert id (acknowledged state 0) s.answers;
          },
        )
    unfolding handle_acknowledgment
    acknowledged_within within = rw (found, handle_acknowledgment) rw within refl

    acknowledged_beyond :
        exceeds state b.new_state ≡ true
        → handle_acknowledgment encode bytes state s ≡ (
          err (invalid_state_subset state b.new_state),
          record s { pending_breaks = Map.remove id s.pending_breaks },
        )
    unfolding handle_acknowledgment
    acknowledged_beyond beyond = rw (found, handle_acknowledgment) rw beyond refl

  acknowledged_nothing :
      (s : LeaseBreakRegistry)
      → find_key of_key s.pending_breaks ≡ none
      → handle_acknowledgment encode bytes state s ≡ (err (no_pending_break (encode bytes)), s)
  unfolding handle_acknowledgment
  acknowledged_nothing s alone = rw (alone, handle_acknowledgment) refl

  abbrev acknowledging : LeaseBreakRegistry → LeaseBreakRegistry
  acknowledging s = (handle_acknowledgment encode bytes state s).1

  module _ (now id new_state : ℕ) (path : String) (s : LeaseBreakRegistry)
      (fresh : Map.get id s.answers ≡ none) where
    abbrev waiting : LeaseBreakRegistry
    waiting = await_lease now id (encode bytes) new_state path s

    abbrev pending : PendingBreak
    pending = record {
      lease_key = encode bytes;
      new_state = new_state;
      sent_at = now;
      deadline = now + s.break_timeout;
      file_path = path;
    }

    -- The break that has just begun to wait is the one that the acknowledgement finds.
    found_waiting : find_key of_key waiting.pending_breaks ≡ some (id, pending)
    unfolding await_lease Map.insert
    found_waiting = rw ((string_key.same_iff (encode bytes) (encode bytes)).1 refl) refl

    ended_acknowledged :
        (end_lease_break id (acknowledging waiting)).0
        ≡ (if exceeds state new_state then disconnected else acknowledged state 0)
    unfolding await_lease
    ended_acknowledged = elim (Bool-cases (exceeds state new_state)) [
      | inl beyond ↦
          let left : acknowledging waiting
              ≡ record waiting { pending_breaks = Map.remove id waiting.pending_breaks } =
            ap (λ (r : Result LeaseBreakError (Unit {0}) × LeaseBreakRegistry). r.1)
              (acknowledged_beyond waiting id pending found_waiting beyond) in
          rw beyond (
            ap (λ (t : LeaseBreakRegistry). (end_lease_break id t).0) left
            ∙ ended_as id (record waiting { pending_breaks = Map.remove id waiting.pending_breaks })
                none false fresh (contains-remove id waiting.pending_breaks))
      | inr within ↦
          let left : acknowledging waiting ≡ record waiting {
            pending_breaks = Map.remove id waiting.pending_breaks;
            answers = Map.insert id (acknowledged state 0) s.answers;
          } =
            ap (λ (r : Result LeaseBreakError (Unit {0}) × LeaseBreakRegistry). r.1)
              (acknowledged_within waiting id pending found_waiting within) in
          rw within (
            ap (λ (t : LeaseBreakRegistry). (end_lease_break id t).0) left
            ∙ ended_as id
                (record waiting {
                  pending_breaks = Map.remove id waiting.pending_breaks;
                  answers = Map.insert id (acknowledged state 0) s.answers;
                })
                (some (acknowledged state 0)) false
                (get-insert_self id (acknowledged state 0) s.answers)
                (contains-remove id waiting.pending_breaks))
    ]

    ended_unanswered : (end_lease_break id waiting).0 ≡ timed_out
    unfolding await_lease
    ended_unanswered =
        ended_as id waiting none true fresh (contains-insert id pending s.pending_breaks)

module _ (decode : String → Option (List ℕ)) (encode : List ℕ → String) (bytes : List ℕ)
    (entry : LeaseConnectionEntry) (s : LeaseBreakRegistry)
    (registered : Map.get (encode bytes) s.lease_connections ≡ some entry)
    (alone : find_key (λ (b : PendingBreak). b.lease_key == encode bytes) s.pending_breaks ≡ none)
    (fresh : Map.get s.next_break_id s.answers ≡ none) where
  abbrev after_send : ℕ → ℕ → ℕ → LeaseBreakRegistry
  after_send current_state new_state epoch =
      (send_lease_break decode true (encode bytes) current_state new_state epoch s).1

  sent :
      (current_state new_state epoch : ℕ)
      → ack_required current_state ≡ true
      → (send_lease_break decode true (encode bytes) current_state new_state epoch s).0
        ≡ ok (s.next_break_id, true)
  unfolding send_lease_break
  sent current_state new_state epoch waits = rw (registered, waits) refl

  sent_pending :
      (current_state new_state epoch : ℕ)
      → (send_lease_break decode true
          (encode bytes)
          current_state
          new_state
          epoch
          s).1.pending_breaks
        ≡ s.pending_breaks
  unfolding send_lease_break
  sent_pending current_state new_state epoch = rw registered refl

  sent_answers :
      (current_state new_state epoch : ℕ)
      → (send_lease_break decode true (encode bytes) current_state new_state epoch s).1.answers
        ≡ s.answers
  unfolding send_lease_break
  sent_answers current_state new_state epoch = rw registered refl

  waited :
      (first meanwhile : LeaseBreakRegistry → LeaseBreakRegistry)
      (now current_state new_state epoch : ℕ) (path : String)
      → ack_required current_state ≡ true
      → (break_lease decode first meanwhile now true
          (encode bytes)
          current_state
          new_state
          epoch
          path
          s).0
        ≡ ok
            (end_lease_break s.next_break_id (
              meanwhile (
                await_lease now s.next_break_id
                  (encode bytes)
                  new_state
                  path
                  (first (after_send current_state new_state epoch))))).0
  unfolding break_lease
  waited first meanwhile now current_state new_state epoch path waits =
      rw (sent current_state new_state epoch waits) refl

  -- A break of a lease that must be acknowledged, of which no other break waits, ends with the state that
  -- its acknowledgement names, where that comes while the break waits and is within the state that
  -- was asked for; with a state beyond it ends as if the client had gone. An acknowledgement that comes after
  -- the event was sent and before the break waits is lost, and the break ends with its timer.
  pub break_lease-handle_acknowledgment :
      (now current_state new_state epoch state : ℕ) (path : String)
      → ack_required current_state ≡ true
      → ((break_lease decode
            (λ s. s)
            (λ s. (handle_acknowledgment encode bytes state s).1)
            now
            true
            (encode bytes)
            current_state
            new_state
            epoch
            path
            s).0
          ≡ ok (if exceeds state new_state then disconnected else acknowledged state 0))
        × ((break_lease decode
              (λ s. (handle_acknowledgment encode bytes state s).1)
              (λ s. s)
              now
              true
              (encode bytes)
              current_state
              new_state
              epoch
              path
              s).0
            ≡ ok timed_out)
  break_lease-handle_acknowledgment now current_state new_state epoch state path waits =
      let s' = after_send current_state new_state epoch in
      let unanswered : Map.get s.next_break_id s'.answers ≡ none =
        ap (Map.get s.next_break_id) (sent_answers current_state new_state epoch) ∙ fresh in
      let none_waits : find_key (λ (b : PendingBreak). b.lease_key == encode bytes)
            s'.pending_breaks
          ≡ none =
        ap (find_key (λ (b : PendingBreak). b.lease_key == encode bytes))
          (sent_pending current_state new_state epoch)
        ∙ alone in
      let lost : (handle_acknowledgment encode bytes state s').1 ≡ s' =
        ap (λ (r : Result LeaseBreakError (Unit {0}) × LeaseBreakRegistry). r.1)
          (acknowledged_nothing encode bytes state s' none_waits) in
      (
        waited (λ s. s) (λ s. (handle_acknowledgment encode bytes state s).1) now current_state
              new_state epoch path waits
            ∙ ap ok (
                ended_acknowledged encode bytes state now s.next_break_id new_state path s'
                  unanswered),
        waited (λ s. (handle_acknowledgment encode bytes state s).1) (λ s. s) now current_state
              new_state epoch path waits
            ∙ ap
                (λ (t : LeaseBreakRegistry).
                  ok
                    (end_lease_break s.next_break_id
                      (await_lease now s.next_break_id (encode bytes) new_state path t)).0)
                lost
            ∙ ap ok (
                ended_unanswered encode bytes state now s.next_break_id new_state path s'
                  unanswered),
      )
