-- ===== src/Coordinator/Replicas.antt =====
-- Coordinators that apply one log, each by its own clock.
use rustsmb.Base.{
  ℕ, ◌≡◌, String, Option, none, some, List, [], ◌∷◌, refl, sym, ap, ◌∙◌, string_key, ◌==◌, add_u64,
  Option-cases, Bool-cases, inl, inr, if◌then◌else◌, arith,
}
use rustsmb.Base.Map
use rustsmb.Base.Map.{get-insert, get-remove, get-modify}
use mathlib.Core.Option
use rustsmb.Coord.{ServerRegistration}
use rustsmb.Coordinator.{
  CoordRequest, register_server, unregister_server, update_heartbeat, increment_epoch,
  CoordResponse, done, epoch, server_not_found, CoordinationState, new, beat, apply, get_server,
  get_epoch,
}

-- A registration but for what a clock was read for.
abbrev untimed : ServerRegistration → ServerRegistration
untimed r = record r { registered_at = 0; last_heartbeat = 0 }

abbrev untimed? : Option ServerRegistration → Option ServerRegistration
untimed? none = none
untimed? (some r) = some (untimed r)

-- Two states are the same but for the times of registrations.
pub record Agree (s t : CoordinationState) : Type 0 where
  same_epoch : get_epoch s ≡ get_epoch t
  same_servers : (id : String) → untimed? (get_server s id) ≡ untimed? (get_server t id)

-- Each request of a log comes with what the clocks of two coordinators read when they apply it.
abbrev pub replay :
    List (ℕ × CoordRequest) → CoordinationState → List CoordResponse × CoordinationState
replay [] s = ([], s)
replay ((now, request) ∷ log) s =
    let (response, s') = apply now request s in
    let (responses, s'') = replay log s' in (response ∷ responses, s'')

abbrev pub first_log : List (ℕ × ℕ × CoordRequest) → List (ℕ × CoordRequest)
first_log [] = []
first_log ((now, now', request) ∷ log) = (now, request) ∷ first_log log

abbrev pub second_log : List (ℕ × ℕ × CoordRequest) → List (ℕ × CoordRequest)
second_log [] = []
second_log ((now, now', request) ∷ log) = (now', request) ∷ second_log log

beat-untimed :
    (timestamp sessions files : ℕ) (o p : Option ServerRegistration)
    → untimed? o ≡ untimed? p
    → untimed? (Option.map (beat timestamp sessions files) o)
      ≡ untimed? (Option.map (beat timestamp sessions files) p)
beat-untimed timestamp sessions files none none e = refl
beat-untimed timestamp sessions files none (some r) e = cc
beat-untimed timestamp sessions files (some r) none e = cc
beat-untimed timestamp sessions files (some r) (some q) e =
    ap
      (Option.map {A = ServerRegistration}
        (λ r. record r { active_sessions = sessions; active_handles = files }))
      e

abbrev answer : String → Option ServerRegistration → CoordResponse
answer server none = server_not_found server
answer server (some r) = done

untimed-answer :
    (server : String) (o : Option ServerRegistration) → answer server (untimed? o) ≡ answer server o
untimed-answer server none = refl
untimed-answer server (some r) = refl

pub heartbeat_absent :
    (now : ℕ) (server : String) (timestamp sessions files : ℕ) (s : CoordinationState)
    → get_server s server ≡ none
    → apply now (update_heartbeat server timestamp sessions files) s ≡ (server_not_found server, s)
unfolding apply get_server
heartbeat_absent now server timestamp sessions files s absent = ground arith

pub heartbeat_present :
    (now : ℕ) (server : String) (timestamp sessions files : ℕ) (s : CoordinationState)
    (r : ServerRegistration)
    → get_server s server ≡ some r
    → apply now (update_heartbeat server timestamp sessions files) s
      ≡ (done, record s { servers = Map.modify server (beat timestamp sessions files) s.servers })
unfolding apply get_server
heartbeat_present now server timestamp sessions files s r present = ground arith

heartbeat_lem :
    (now : ℕ) (server : String) (timestamp sessions files : ℕ) (s : CoordinationState)
    → let (response, s') = apply now (update_heartbeat server timestamp sessions files) s in
      (response ≡ answer server (get_server s server))
      × (get_epoch s' ≡ get_epoch s)
      × ((id : String)
          → get_server s' id ≡ (
              if server == id
              then Option.map (beat timestamp sessions files) (get_server s id)
              else get_server s id))
unfolding get_server get_epoch
heartbeat_lem now server timestamp sessions files s =
    elim (Option-cases (Map.get server s.servers)) [
      | inl absent ↦ rw (heartbeat_absent now server timestamp sessions files s absent) (
        rw absent refl,
        refl,
        λ id. elim (Bool-cases (server == id)) [
          | inl hit ↦
              let same : server ≡ id = (string_key.same_iff server id).0 hit in
              rw hit rw (sym same) rw absent refl
          | inr miss ↦ rw miss refl
        ],
      )
      | inr (r, present) ↦ rw (heartbeat_present now server timestamp sessions files s r present) (
        rw present refl,
        refl,
        λ id. get-modify server id (beat timestamp sessions files) s.servers,
      )
    ]

heartbeat-Agree :
    (now now' : ℕ) (server : String) (timestamp sessions files : ℕ) (s t : CoordinationState)
    → Agree s t
    → let request = update_heartbeat server timestamp sessions files in
      ((apply now request s).0 ≡ (apply now' request t).0)
      × Agree (apply now request s).1 (apply now' request t).1
heartbeat-Agree now now' server timestamp sessions files s t a =
    let (answered, epochs, found) = heartbeat_lem now server timestamp sessions files s in
    let (answered', epochs', found') = heartbeat_lem now' server timestamp sessions files t in
    (
      answered
          ∙ sym (untimed-answer server (get_server s server))
          ∙ ap (answer server) (a.same_servers server)
          ∙ untimed-answer server (get_server t server)
          ∙ sym answered',
      record {
        same_epoch = epochs ∙ a.same_epoch ∙ sym epochs';
        same_servers = λ id.
            rw (found id, found' id)
              (elim (Bool-cases (server == id)) [
                | inl hit ↦ rw hit (
                    beat-untimed timestamp sessions files (get_server s id) (get_server t id)
                      (a.same_servers id))
                | inr miss ↦ rw miss (a.same_servers id)
              ]);
      },
    )

apply-Agree :
    (now now' : ℕ) (request : CoordRequest) (s t : CoordinationState)
    → Agree s t
    → ((apply now request s).0 ≡ (apply now' request t).0)
      × Agree (apply now request s).1 (apply now' request t).1
unfolding apply get_server get_epoch
apply-Agree now now' (register_server r) s t a = (
  ap epoch a.same_epoch,
  record {
    same_epoch = a.same_epoch;
    same_servers = λ id. elim (Bool-cases (r.server_id == id)) [
      | inl hit ↦
          rw
            (
              get-insert r.server_id id (record r { registered_at = now; last_heartbeat = now })
                  s.servers,
              get-insert r.server_id id (record r { registered_at = now'; last_heartbeat = now' })
                  t.servers,
            )
            rw hit refl
      | inr miss ↦
          rw
            (
              get-insert r.server_id id (record r { registered_at = now; last_heartbeat = now })
                  s.servers,
              get-insert r.server_id id (record r { registered_at = now'; last_heartbeat = now' })
                  t.servers,
            )
            rw miss (a.same_servers id)
    ];
  },
)
apply-Agree now now' (unregister_server gone) s t a = (
  ap (λ n. epoch (add_u64 n 1)) a.same_epoch,
  record {
    same_epoch = ap (λ n. add_u64 n 1) a.same_epoch;
    same_servers = λ id. elim (Bool-cases (gone == id)) [
      | inl hit ↦ rw (get-remove gone id s.servers, get-remove gone id t.servers) rw hit refl
      | inr miss ↦
          rw (get-remove gone id s.servers, get-remove gone id t.servers) rw miss
            (a.same_servers id)
    ];
  },
)
apply-Agree now now' (increment_epoch reason) s t a = (
  ap (λ n. epoch (add_u64 n 1)) a.same_epoch,
  record { same_epoch = ap (λ n. add_u64 n 1) a.same_epoch; same_servers = a.same_servers },
)
apply-Agree now now' (update_heartbeat server timestamp sessions files) s t a =
    heartbeat-Agree now now' server timestamp sessions files s t a

replay-Agree :
    (log : List (ℕ × ℕ × CoordRequest)) (s t : CoordinationState)
    → Agree s t
    → ((replay (first_log log) s).0 ≡ (replay (second_log log) t).0)
      × Agree (replay (first_log log) s).1 (replay (second_log log) t).1
replay-Agree [] s t a = (refl, a)
replay-Agree ((now, now', request) ∷ log) s t a =
    let (answered, a') = apply-Agree now now' request s t a in
    let (responses, end) = replay-Agree log (apply now request s).1 (apply now' request t).1 a' in
    (rw (answered, responses) refl, end)

-- Two coordinators start from the empty state and apply one log of requests, each request at whatever
-- times their own clocks read. They give the same responses, end at the same epoch, and have the same
-- registrations but for when a server registered and was last heard of.
pub replicas_lem :
    (log : List (ℕ × ℕ × CoordRequest))
    → ((replay (first_log log) new).0 ≡ (replay (second_log log) new).0)
      × Agree (replay (first_log log) new).1 (replay (second_log log) new).1
replicas_lem log = replay-Agree log new new record { same_epoch = refl; same_servers = λ id. refl }
