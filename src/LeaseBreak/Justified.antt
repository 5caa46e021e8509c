-- ===== src/LeaseBreak/Justified.antt =====
-- What breaks of leases end with, in every run.
use rustsmb.Base.{ℕ, ◌≡◌, String, false, Option, List, In, All-In, nat_key, string_key}
use rustsmb.LeaseBreak.{acknowledged, with_timeout}
use rustsmb.LeaseBreak.Lease.{exceeds}
use rustsmb.LeaseBreak.Runs.{
  System, Step, sends, waits, ends, acknowledges, expires, registers, unregisters, disconnects, Run,
  begun, stepped, Asked, Justified, IsJustified,
}
use rustsmb.LeaseBreak.Quiet.{
  acknowledges-IsJustified, register_lease-IsJustified, unregister_lease-IsJustified,
  unregister_connection_leases-IsJustified, await_lease-IsJustified, end_lease_break-IsJustified,
  process_expired_breaks-IsJustified,
}
use rustsmb.LeaseBreak.Sent.{send-IsJustified}

module _ (decode : String → Option (List ℕ)) (encode : List ℕ → String) where
  Step-IsJustified :
      (sys sys' : System) → IsJustified sys → Step decode encode sys sys' → IsJustified sys'
  Step-IsJustified sys _ j (sends accepts key current_state new_state epoch path) =
      send-IsJustified decode sys j key current_state new_state epoch path accepts
  Step-IsJustified sys _ j (waits now front back b e) =
      await_lease-IsJustified sys j now front back b e
  Step-IsJustified sys _ j (ends front back id e) = end_lease_break-IsJustified sys j front back id
  Step-IsJustified sys _ j (acknowledges bytes state) =
      acknowledges-IsJustified sys j encode bytes state
  Step-IsJustified sys _ j (expires now) = process_expired_breaks-IsJustified sys j now
  Step-IsJustified sys _ j (registers key entry) = register_lease-IsJustified sys j key entry
  Step-IsJustified sys _ j (unregisters key) = unregister_lease-IsJustified sys j key
  Step-IsJustified sys _ j (disconnects server_id session_id) =
      unregister_connection_leases-IsJustified sys j server_id session_id

  Run-IsJustified : (sys : System) → Run decode encode sys → IsJustified sys
  unfolding with_timeout
  Run-IsJustified _ (begun timeout) = record {
    started = tt;
    pending = tt;
    answers = tt;
    results = tt;
  }
  Run-IsJustified sys' (stepped {sys = sys} run step) =
      Step-IsJustified sys sys' (Run-IsJustified sys run) step

  -- However calls, acknowledgements and the timer interleave, a break that ends with an acknowledged state
  -- has sent its client an event, and the state is a part of the one which that event asked for.
  pub Run-acknowledged :
      (sys : System) (id state epoch : ℕ)
      → Run decode encode sys
      → In (id, acknowledged state epoch) sys.results
      → (new_state : ℕ) × (Asked id new_state sys.registry.events
          × (exceeds state new_state ≡ false))
  Run-acknowledged sys id state epoch run returned =
      All-In (Justified sys.registry.events) sys.results (Run-IsJustified sys run).results returned
