-- ===== src/LeaseBreak/Lease.antt =====
-- crates/rustsmb-server/src/lease_break.rs, lines 584-877: the breaks of leases. `decode` and `encode`
-- are those of the crate `hex`.
use rustsmb.Base.{
  ℕ, ◌+◌, ◌-◌, ◌^◌, bit_and, bit_or, String, Bool, not, Option, none, some, List, [], ◌∷◌, map,
  nat_key, string_key, ◌==◌, nat_eq, leb, length, add_u64, if◌then◌else◌,
}
use rustsmb.Base.Bytes.{zeros}
use rustsmb.Base.Map
use rustsmb.Base.Map.{Map, retain}
use rustsmb.Core.Action.{ok, err, or_fail, ◌>>=◌}
use rustsmb.State.Lease.{read_caching, write_caching, handle_caching}
use rustsmb.LeaseBreak.{
  LeaseBreakEvent, PendingBreak, LeaseBreakResult, acknowledged, timed_out, no_ack_required,
  lease_not_found, no_pending_break, send_failed, invalid_state_subset, LeaseBreakRegistry, Op,
  outcome, find_key,
}

-- All zeros where the text is not that of 16 bytes.
abbrev pub key_bytes : Option (List ℕ) → List ℕ
key_bytes none = zeros 16
key_bytes (some bytes) = if nat_eq (length bytes) 16 then bytes else zeros 16

unfoldable pub ack_required : ℕ → Bool
ack_required current_state = not (nat_eq current_state read_caching)

-- `break_lease` until its event is sent: the ID of the break, and whether it waits.
unfoldable pub send_lease_break :
    (String → Option (List ℕ)) → Bool → String → ℕ → ℕ → ℕ → Op (ℕ × Bool)
unfolding ack_required
send_lease_break decode accepts lease_key current_state new_state epoch s =
    (or_fail (Map.get lease_key s.lease_connections) (lease_not_found lease_key) >>= λ entry s.
    let break_id = s.next_break_id in
    let event : LeaseBreakEvent = record {
      lease_key = key_bytes (decode lease_key);
      current_state = current_state;
      new_state = new_state;
      new_epoch = epoch;
      ack_required = ack_required current_state;
      break_id = break_id;
    } in
    let s' = record s { next_break_id = add_u64 break_id 1 } in
    if accepts
    then (
      ok (break_id, ack_required current_state),
      record s' { events = (entry.break_tx, event) ∷ s'.events },
    )
    else (err send_failed, s'))
      s

unfoldable pub await_lease : ℕ → ℕ → String → ℕ → String → LeaseBreakRegistry → LeaseBreakRegistry
await_lease now break_id lease_key new_state file_path s = record s {
  pending_breaks =
      Map.insert break_id
        (record {
          lease_key = lease_key;
          new_state = new_state;
          sent_at = now;
          deadline = now + s.break_timeout;
          file_path = file_path;
        })
        s.pending_breaks;
}

unfoldable pub end_lease_break : ℕ → LeaseBreakRegistry → LeaseBreakResult × LeaseBreakRegistry
end_lease_break break_id s = (
  outcome (Map.get break_id s.answers) (Map.contains_key break_id s.pending_breaks),
  record s { pending_breaks = Map.remove break_id s.pending_breaks },
)

-- What happens between the parts of a call is `first` and `meanwhile`.
unfoldable pub break_lease :
    (String → Option (List ℕ))
    → (LeaseBreakRegistry → LeaseBreakRegistry)
    → (LeaseBreakRegistry → LeaseBreakRegistry)
    → ℕ
    → Bool
    → String
    → ℕ
    → ℕ
    → ℕ
    → String
    → Op LeaseBreakResult
unfolding send_lease_break await_lease end_lease_break
break_lease decode first meanwhile now accepts lease_key current_state new_state epoch file_path =
    send_lease_break decode accepts lease_key current_state new_state epoch >>= λ sent s.
    if sent.1
    then (let (result, s') =
          end_lease_break sent.0
            (meanwhile (await_lease now sent.0 lease_key new_state file_path (first s))) in
        (ok result, s'))
    else (ok no_ack_required, s)

-- `acked & !new_state` on 32 bits.
abbrev pub exceeds : ℕ → ℕ → Bool
exceeds acked new_state = not (nat_eq (bit_and acked (2 ^ 32 - 1 - new_state)) 0)

unfoldable pub handle_acknowledgment : (List ℕ → String) → List ℕ → ℕ → Op (Unit {0})
handle_acknowledgment encode lease_key acked_state s =
    let lease_key_hex = encode lease_key in
    elim (find_key (λ (b : PendingBreak). b.lease_key == lease_key_hex) s.pending_breaks) [
      | none ↦ (err (no_pending_break lease_key_hex), s)
      | some (break_id, pending) ↦
          let s' = record s { pending_breaks = Map.remove break_id s.pending_breaks } in
          if exceeds acked_state pending.new_state
          then (err (invalid_state_subset acked_state pending.new_state), s')
          else (
            ok tt,
            record s' { answers = Map.insert break_id (acknowledged acked_state 0) s'.answers },
          )
    ]

unfoldable pub lease_count : LeaseBreakRegistry → ℕ
lease_count s = length s.lease_connections

unfoldable pub pending_break_count : LeaseBreakRegistry → ℕ
pending_break_count s = length s.pending_breaks

abbrev pub is_expired : ℕ → PendingBreak → Bool
is_expired now b = leb b.deadline now

-- The loop over the breaks that have expired, which are all there still.
abbrev pub expire : List (ℕ × PendingBreak) → LeaseBreakRegistry → LeaseBreakRegistry
expire [] s = s
expire ((break_id, b) ∷ rest) s = expire rest (record s {
  pending_breaks = Map.remove break_id s.pending_breaks;
  answers = Map.insert break_id timed_out s.answers;
})

unfoldable pub process_expired_breaks : ℕ → LeaseBreakRegistry → List String × LeaseBreakRegistry
process_expired_breaks now s =
    let expired = retain (is_expired now) s.pending_breaks in
    (map (λ e. e.1.lease_key) expired, expire expired s)

unfoldable pub calculate_break_state : ℕ → ℕ → ℕ
calculate_break_state existing_state requested_state =
    if not (nat_eq (bit_and requested_state write_caching) 0)
    then if not (nat_eq (bit_and existing_state read_caching) 0) then read_caching else 0
    else if not (nat_eq (bit_and requested_state handle_caching) 0)
    then bit_and existing_state (bit_or read_caching write_caching)
    else bit_and existing_state (2 ^ 32 - 1 - write_caching)
