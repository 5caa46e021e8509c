-- ===== src/LeaseBreak/Quiet.antt =====
-- Steps that send nothing keep what breaks end with justified.
use rustsmb.Base.{
  ℕ, ◌+◌, ◌≡◌, String, Bool, true, false, none, List, [], ◌∷◌, ◌++◌, All, All-findb, All-without,
  refl, sym, subst, nat_key, string_key, ◌==◌, Bool-cases, Option-cases, inl, inr,
}
use rustsmb.Base.Map
use rustsmb.Base.Map.{Map, retain, All-remove}
use rustsmb.Base.Entries.{All-get, All-insert}
use rustsmb.LeaseBreak.{
  LeaseConnectionEntry, LeaseBreakEvent, PendingBreak, acknowledged, timed_out, LeaseBreakRegistry,
  outcome, find_key, register_lease, unregister_lease, unregister_connection_leases,
}
use rustsmb.LeaseBreak.Lease.{
  await_lease, end_lease_break, exceeds, handle_acknowledgment, is_expired, expire,
  process_expired_breaks,
}
use rustsmb.LeaseBreak.Runs.{
  Started, System, on_registry, Justified, AskedStart, AskedBreak, IsJustified,
}

module _ (sys : System) (j : IsJustified sys) where
  -- A change of the registry that sends nothing.
  pub quiet :
      (reg : LeaseBreakRegistry)
      → reg.events ≡ sys.registry.events
      → All (AskedBreak sys.registry.events) reg.pending_breaks
      → All (Justified sys.registry.events) reg.answers
      → IsJustified (record sys { registry = reg })
  quiet reg same p a = record {
    started = subst (λ events. All (AskedStart events) sys.started) (sym same) j.started;
    pending = subst (λ events. All (AskedBreak events) reg.pending_breaks) (sym same) p;
    answers = subst (λ events. All (Justified events) reg.answers) (sym same) a;
    results = subst (λ events. All (Justified events) sys.results) (sym same) j.results;
  }

  pub acknowledges-IsJustified :
      (encode : List ℕ → String) (bytes : List ℕ) (state : ℕ)
      → IsJustified (on_registry (λ r. (handle_acknowledgment encode bytes state r).1) sys)
  unfolding handle_acknowledgment
  acknowledges-IsJustified encode bytes state =
      let of_key : PendingBreak → Bool = λ b. b.lease_key == encode bytes in
      elim (Option-cases (find_key of_key sys.registry.pending_breaks)) [
        | inl alone ↦
            let left : (handle_acknowledgment encode bytes state sys.registry).1 ≡ sys.registry =
              rw (alone, handle_acknowledgment) refl in
            rw left j
        | inr ((id, b), found) ↦
            let asked =
              All-findb (AskedBreak sys.registry.events) (λ e. of_key e.1)
                sys.registry.pending_breaks j.pending found in
            let less =
              All-remove (AskedBreak sys.registry.events) id sys.registry.pending_breaks
                j.pending in
            elim (Bool-cases (exceeds state b.new_state)) [
              | inl beyond ↦
                  let left : (handle_acknowledgment encode bytes state sys.registry).1
                      ≡ record sys.registry {
                        pending_breaks = Map.remove id sys.registry.pending_breaks;
                      } =
                    rw (found, handle_acknowledgment) rw beyond refl in
                  rw left (
                    quiet
                      (record sys.registry {
                        pending_breaks = Map.remove id sys.registry.pending_breaks;
                      })
                      refl less j.answers)
              | inr within ↦
                  let left : (handle_acknowledgment encode bytes state sys.registry).1
                      ≡ record sys.registry {
                        pending_breaks = Map.remove id sys.registry.pending_breaks;
                        answers = Map.insert id (acknowledged state 0) sys.registry.answers;
                      } =
                    rw (found, handle_acknowledgment) rw within refl in
                  rw left (
                    quiet
                      (record sys.registry {
                        pending_breaks = Map.remove id sys.registry.pending_breaks;
                        answers = Map.insert id (acknowledged state 0) sys.registry.answers;
                      })
                      refl less
                      (All-insert (Justified sys.registry.events) id (acknowledged state 0)
                        sys.registry.answers (b.new_state, (asked, within)) j.answers))
            ]
      ]

  pub register_lease-IsJustified :
      (key : String) (entry : LeaseConnectionEntry)
      → IsJustified (on_registry (register_lease key entry) sys)
  unfolding register_lease
  register_lease-IsJustified key entry =
      quiet (register_lease key entry sys.registry) refl j.pending j.answers

  pub unregister_lease-IsJustified :
      (key : String) → IsJustified (on_registry (λ r. (unregister_lease key r).1) sys)
  unfolding unregister_lease
  unregister_lease-IsJustified key =
      quiet (unregister_lease key sys.registry).1 refl j.pending j.answers

  pub unregister_connection_leases-IsJustified :
      (server_id : String) (session_id : ℕ)
      → IsJustified (on_registry (unregister_connection_leases server_id session_id) sys)
  unfolding unregister_connection_leases
  unregister_connection_leases-IsJustified server_id session_id =
      quiet (unregister_connection_leases server_id session_id sys.registry) refl j.pending
        j.answers

  pub await_lease-IsJustified :
      (now : ℕ) (front back : List Started) (b : Started)
      → sys.started ≡ front ++ (b ∷ back)
      → IsJustified (record sys {
        registry = await_lease now b.break_id b.lease_key b.new_state b.file_path sys.registry;
        started = front ++ back;
        waiting = b.break_id ∷ sys.waiting;
      })
  unfolding await_lease
  await_lease-IsJustified now front back b e =
      let (asked, others) =
        All-without (AskedStart sys.registry.events) front back b
          (subst (All (AskedStart sys.registry.events)) e j.started) in
      record {
        started = others;
        pending =
            All-insert (AskedBreak sys.registry.events) b.break_id
              (record {
                lease_key = b.lease_key;
                new_state = b.new_state;
                sent_at = now;
                deadline = now + sys.registry.break_timeout;
                file_path = b.file_path;
              })
              sys.registry.pending_breaks asked j.pending;
        answers = j.answers;
        results = j.results;
      }

  outcome-Justified :
      (id : ℕ) (still : Bool)
      → Justified sys.registry.events (id, outcome (Map.get id sys.registry.answers) still)
  outcome-Justified id still = elim (Option-cases (Map.get id sys.registry.answers)) [
    | inr (r, found) ↦
        rw found (All-get (Justified sys.registry.events) id sys.registry.answers j.answers found)
    | inl missing ↦ rw missing (by_wait still)
  ]
    where
      by_wait : (w : Bool) → Justified sys.registry.events (id, outcome none w)
      by_wait true = tt
      by_wait false = tt

  pub end_lease_break-IsJustified :
      (front back : List ℕ) (id : ℕ)
      → IsJustified (record sys {
        registry = (end_lease_break id sys.registry).1;
        waiting = front ++ back;
        results = (id, (end_lease_break id sys.registry).0) ∷ sys.results;
      })
  unfolding end_lease_break
  end_lease_break-IsJustified front back id = record {
    started = j.started;
    pending = All-remove (AskedBreak sys.registry.events) id sys.registry.pending_breaks j.pending;
    answers = j.answers;
    results = (outcome-Justified id (Map.contains_key id sys.registry.pending_breaks), j.results);
  }

-- The breaks that expire are answered as timed out.
expire-Justified :
    (events : List (ℕ × LeaseBreakEvent)) (expired : List (ℕ × PendingBreak))
    (reg : LeaseBreakRegistry)
    → All (AskedBreak events) reg.pending_breaks
    → All (Justified events) reg.answers
    → ((expire expired reg).events ≡ reg.events)
      × (All (AskedBreak events) (expire expired reg).pending_breaks
          × All (Justified events) (expire expired reg).answers)
expire-Justified events [] reg p a = (refl, (p, a))
expire-Justified events ((id, b) ∷ rest) reg p a =
    expire-Justified events rest
      (record reg {
        pending_breaks = Map.remove id reg.pending_breaks;
        answers = Map.insert id timed_out reg.answers;
      })
      (All-remove (AskedBreak events) id reg.pending_breaks p)
      (All-insert (Justified events) id timed_out reg.answers tt a)

pub process_expired_breaks-IsJustified :
    (sys : System) (j : IsJustified sys) (now : ℕ)
    → IsJustified (on_registry (λ r. (process_expired_breaks now r).1) sys)
unfolding process_expired_breaks
process_expired_breaks-IsJustified sys j now =
    let (same, (p, a)) =
      expire-Justified sys.registry.events (retain (is_expired now) sys.registry.pending_breaks)
        sys.registry j.pending j.answers in
    quiet sys j (process_expired_breaks now sys.registry).1 same p a
