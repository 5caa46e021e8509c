-- ===== src/LeaseBreak/Oplock.antt =====
-- crates/rustsmb-server/src/lease_break.rs, lines 289-581: the registration and the breaks of oplocks.
use rustsmb.Base.{
  ℕ, ◌+◌, ◌*◌, ◌/◌, ◌%◌, ◌^◌, bit_or, String, Bool, false, not, ◌&&◌, ◌||◌, none, some, List, ◌∷◌,
  map, nat_key, string_key, ◌==◌, nat_eq, add_u64, if◌then◌else◌,
}
use rustsmb.Base.Map
use rustsmb.Base.Map.{Map, retain, keys}
use rustsmb.Core.Action.{ok, err, or_fail, ◌>>=◌}
use rustsmb.LeaseBreak.{
  OplockBreakEvent, OplockConnectionEntry, PendingOplockBreak, LeaseBreakResult, acknowledged,
  handle_not_found, no_pending_handle, send_failed, invalid_state_subset, LeaseBreakRegistry, Op,
  outcome, find_key,
}

unfoldable pub register_oplock : ℕ → OplockConnectionEntry → LeaseBreakRegistry → LeaseBreakRegistry
register_oplock handle_id entry s = record s {
  oplock_connections = Map.insert handle_id entry s.oplock_connections;
}

unfoldable pub unregister_oplock : ℕ → LeaseBreakRegistry → Bool × LeaseBreakRegistry
unregister_oplock handle_id s = (
  Map.contains_key handle_id s.oplock_connections,
  record s { oplock_connections = Map.remove handle_id s.oplock_connections },
)

abbrev oplock_of : String → ℕ → OplockConnectionEntry → Bool
oplock_of server_id session_id e = e.server_id == server_id && e.session_id == session_id

unfoldable pub unregister_connection_oplocks : String → ℕ → LeaseBreakRegistry → LeaseBreakRegistry
unregister_connection_oplocks server_id session_id s = record s {
  oplock_connections = retain (λ e. not (oplock_of server_id session_id e)) s.oplock_connections;
}

unfoldable pub is_oplock_registered : ℕ → LeaseBreakRegistry → Bool
is_oplock_registered handle_id s = Map.contains_key handle_id s.oplock_connections

unfoldable pub get_oplocks_for_file :
    String → String → LeaseBreakRegistry → List (ℕ × ℕ × String × ℕ)
get_oplocks_for_file share_name file_path s =
    map (λ e. (e.0, e.1.oplock_level, e.1.server_id, e.1.session_id))
      (retain (λ e. e.share_name == share_name && e.file_path == file_path) s.oplock_connections)

-- ACK is required of an exclusive or a batch oplock.
unfoldable pub oplock_ack_required : ℕ → Bool
oplock_ack_required level = nat_eq level 0x09 || nat_eq level 0x08

unfoldable pub oplock_event : ℕ → ℕ → ℕ → ℕ → OplockBreakEvent
unfolding oplock_ack_required
oplock_event handle_id current_level new_level break_id = record {
  persistent_id = handle_id % 2 ^ 64;
  volatile_id = handle_id / 2 ^ 64 % 2 ^ 64;
  current_level = current_level;
  new_level = new_level;
  ack_required = oplock_ack_required current_level;
  break_id = break_id;
}

abbrev send_oplock_event : Bool → ℕ → OplockBreakEvent → LeaseBreakRegistry → LeaseBreakRegistry
send_oplock_event accepts channel event s =
    if accepts then record s { oplock_events = (channel, event) ∷ s.oplock_events } else s

unfoldable pub initiate_oplock_break_nowait :
    Bool → ℕ → ℕ → LeaseBreakRegistry → Bool × LeaseBreakRegistry
unfolding oplock_event
initiate_oplock_break_nowait accepts handle_id new_level s =
    elim (Map.get handle_id s.oplock_connections) [
      | none ↦ (false, s)
      | some entry ↦
          let event = oplock_event handle_id entry.oplock_level new_level s.next_break_id in
          (
            accepts,
            send_oplock_event accepts entry.break_tx event
                (record s { next_break_id = add_u64 s.next_break_id 1 }),
          )
    ]

-- `break_oplock` until its event is sent: the ID of the break, and whether it waits.
unfoldable pub send_oplock_break : Bool → ℕ → ℕ → Op (ℕ × Bool)
unfolding oplock_event oplock_ack_required
send_oplock_break accepts handle_id new_level s =
    (or_fail (Map.get handle_id s.oplock_connections) (handle_not_found handle_id) >>= λ entry s.
    let break_id = s.next_break_id in
    let event = oplock_event handle_id entry.oplock_level new_level break_id in
    let s' =
      send_oplock_event accepts entry.break_tx event
        (record s { next_break_id = add_u64 break_id 1 }) in
    if accepts
    then (ok (break_id, oplock_ack_required entry.oplock_level), s')
    else (err send_failed, s'))
      s

unfoldable pub await_oplock : ℕ → ℕ → ℕ → ℕ → String → LeaseBreakRegistry → LeaseBreakRegistry
await_oplock now break_id handle_id new_level file_path s = record s {
  pending_oplock_breaks =
      Map.insert break_id
        (record {
          handle_id = handle_id;
          new_level = new_level;
          sent_at = now;
          deadline = now + s.break_timeout;
          file_path = file_path;
        })
        s.pending_oplock_breaks;
}

unfoldable pub end_oplock_break : ℕ → LeaseBreakRegistry → LeaseBreakResult × LeaseBreakRegistry
end_oplock_break break_id s = (
  outcome (Map.get break_id s.oplock_answers) (Map.contains_key break_id s.pending_oplock_breaks),
  record s { pending_oplock_breaks = Map.remove break_id s.pending_oplock_breaks },
)

-- The sender is taken out of the break, and gone with it.
unfoldable pub handle_oplock_acknowledgment : ℕ → ℕ → ℕ → Op (Unit {0})
handle_oplock_acknowledgment persistent_id volatile_id acked_level s =
    let handle_id = bit_or persistent_id (volatile_id * 2 ^ 64) in
    elim (find_key (λ (b : PendingOplockBreak). nat_eq b.handle_id handle_id)
      s.pending_oplock_breaks) [
        | none ↦ (err (no_pending_handle handle_id), s)
        | some (break_id, pending) ↦
            let s' = record s {
              pending_oplock_breaks = Map.remove break_id s.pending_oplock_breaks;
            } in
            if not (nat_eq acked_level pending.new_level) && not (nat_eq acked_level 0)
            then (err (invalid_state_subset acked_level pending.new_level), s')
            else (
              ok tt,
              record s' {
                oplock_answers = Map.insert break_id (acknowledged acked_level 0) s'.oplock_answers;
              },
            )
      ]

unfoldable pub update_oplock_level : ℕ → ℕ → LeaseBreakRegistry → LeaseBreakRegistry
update_oplock_level handle_id new_level s = record s {
  oplock_connections =
      Map.modify handle_id (λ e. record e { oplock_level = new_level }) s.oplock_connections;
}
