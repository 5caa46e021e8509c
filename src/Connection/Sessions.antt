-- ===== src/Connection/Sessions.antt =====
-- The sessions of a connection and its state agree, and a session takes its requests with it.
use rustsmb.Base.{
  ℕ, ◌+◌, ◌≤◌, ◌≡◌, ◌≢◌, refl, ap, Bool, true, false, not, ◌&&◌, ◌||◌, List, [], ◌∷◌, filterb,
  nat_key, ◌==◌, nat_eq_iff, leb, length, length-filterb-le, All, Pairwise, Pairwise-filterb,
  Bool-cases, inl, inr, if◌then◌else◌, arith,
}
use rustsmb.Base.Map.{get, keep, memb, IsMap}
use rustsmb.Core.{SmbDialect}
use rustsmb.Connection.{
  ConnectionConfig, ConnectionState, awaiting_negotiate, negotiated, session_active, disconnecting,
  Connection, with_config, negotiate, disconnect, add_session, remove_session, has_session, touch,
  set_insert, is_empty, state_eq,
}
use rustsmb.AsyncRequest.Cancel.{bulk_cancel}

-- What the server does to the sessions of a connection, in any order: the handler negotiates again
-- whenever it is asked to. The Boolean says whether it did so while there were sessions.
pub data Run (config : ConnectionConfig) : Bool → Connection → Type 0 where
  begin : (now id : ℕ) → Run config false (with_config now id config)
  negotiating :
      {again : Bool} {c : Connection} (now : ℕ) (dialect : SmbDialect)
      → Run config again c
      → Run config (again || not (is_empty c.session_ids)) (negotiate now dialect c)
  adding :
      {again : Bool} {c : Connection} (now id : ℕ)
      → Run config again c
      → Run config again (add_session now id c).0
  removing :
      {again : Bool} {c : Connection} (now id : ℕ)
      → Run config again c
      → Run config again (remove_session now id c)
  closing : {again : Bool} {c : Connection} → Run config again c → Run config again (disconnect c)

-- No session is listed twice, no more than the limit are listed, an active connection has some, and a
-- connection that has negotiated only has none, unless it negotiated while there were sessions.
pub record IsConsistent (config : ConnectionConfig) (again : Bool) (c : Connection) : Type 0 where
  same_config : c.config ≡ config
  distinct : Pairwise (λ x y. (x == y) ≡ false) c.session_ids
  pub within : length c.session_ids ≤ config.max_sessions
  negotiated_empty : again ≡ false → c.state ≡ negotiated → c.session_ids ≡ []
  active_nonempty : c.state ≡ session_active → c.session_ids ≢ []

memb-filterb :
    (x y : ℕ) (xs : List ℕ) → memb x (filterb (λ z. not (z == y)) xs) ≡ (memb x xs && not (x == y))
memb-filterb x y [] = refl
memb-filterb x y (z ∷ zs) =
    ground (arith, memb-filterb x y zs, nat_eq_iff z x, nat_eq_iff z y, nat_eq_iff x y)

not_memb-All : (x : ℕ) (xs : List ℕ) → memb x xs ≡ false → All (λ y. (x == y) ≡ false) xs
not_memb-All x [] e = tt
not_memb-All x (y ∷ ys) e =
    (ground (arith, nat_eq_iff x y, nat_eq_iff y x), not_memb-All x ys (ground arith))

-- A set that gets an element keeps its elements distinct and grows by one at most.
set_insert_lem :
    (x : ℕ) (xs : List ℕ)
    → Pairwise (λ x y. (x == y) ≡ false) xs
    → Pairwise (λ x y. (x == y) ≡ false) (set_insert x xs)
      × (length (set_insert x xs) ≤ 1 + length xs)
      × (set_insert x xs ≢ [])
set_insert_lem x [] h = (ground arith, ground arith, λ e. cc e)
set_insert_lem x (y ∷ ys) h = elim (Bool-cases (memb x (y ∷ ys))) [
  | inl there ↦ rw there (h, ground arith, λ e. cc e)
  | inr new ↦ rw new ((not_memb-All x (y ∷ ys) new, h), ground arith, λ e. cc e)
]

-- The state after a session is added, and after one is removed that leaves `rest`.
added_state :
    (s : ConnectionState) → (if state_eq s negotiated then session_active else s) ≢ negotiated
added_state awaiting_negotiate e = cc e
added_state negotiated e = cc e
added_state session_active e = cc e
added_state disconnecting e = cc e

removed_active :
    (s : ConnectionState) (rest : List ℕ)
    → (if is_empty rest && state_eq s session_active then negotiated else s) ≡ session_active
    → rest ≢ []
removed_active awaiting_negotiate [] e = absurd (cc e)
removed_active negotiated [] e = absurd (cc e)
removed_active session_active [] e = absurd (cc e)
removed_active disconnecting [] e = absurd (cc e)
removed_active s (x ∷ xs) e = λ p. cc p

removed_negotiated :
    (s : ConnectionState) (rest : List ℕ)
    → (s ≡ negotiated → rest ≡ [])
    → (if is_empty rest && state_eq s session_active then negotiated else s) ≡ negotiated
    → rest ≡ []
removed_negotiated s [] h e = refl
removed_negotiated s (x ∷ xs) h e = h e

module _ (config : ConnectionConfig) (again : Bool) {c : Connection}
    (v : IsConsistent config again c) where
  add_session-IsConsistent : (now id : ℕ) → IsConsistent config again (add_session now id c).0
  unfolding add_session touch
  add_session-IsConsistent now id =
      elim (Bool-cases (leb c.config.max_sessions (length c.session_ids))) [
        | inl full ↦ rw (full, add_session) v
        | inr room ↦
            let (apart, grown, some_left) = set_insert_lem id c.session_ids v.distinct in
            rw (room, add_session)
              (record {
                same_config = v.same_config;
                distinct = apart;
                within =
                    ground (arith, ap (λ (k : ConnectionConfig). k.max_sessions) v.same_config);
                negotiated_empty = λ first e. absurd (added_state c.state e);
                active_nonempty = λ e. some_left;
              })
      ]

  remove_session-IsConsistent : (now id : ℕ) → IsConsistent config again (remove_session now id c)
  unfolding remove_session touch
  remove_session-IsConsistent now id =
      let rest = filterb (λ x. not (x == id)) c.session_ids in
      let shrinks = length-filterb-le (λ x. not (x == id)) c.session_ids in
      record {
        same_config = v.same_config;
        distinct =
            Pairwise-filterb (λ x y. (x == y) ≡ false) (λ x. not (x == id)) c.session_ids
              v.distinct;
        within = ground (arith, v.within);
        negotiated_empty = λ first.
            removed_negotiated c.state rest
              (λ e. ap (filterb (λ x. not (x == id))) (v.negotiated_empty first e));
        active_nonempty = removed_active c.state rest;
      }

none_before : (again : Bool) (ids : List ℕ) → (again || not (is_empty ids)) ≡ false → ids ≡ []
none_before false [] e = refl
none_before false (x ∷ xs) e = absurd (cc e)
none_before true [] e = absurd (cc e)
none_before true (x ∷ xs) e = absurd (cc e)

-- In every run of a connection, in which the handler may also negotiate again at any time, the sessions
-- stay within the configured limit, each is listed once, and `session_active` means that there is one.
-- As long as no negotiation came while there were sessions, `negotiated` means that there is none;
-- a later negotiation may leave that state beside sessions.
pub Run-IsConsistent :
    (config : ConnectionConfig) (again : Bool) (c : Connection)
    → Run config again c
    → IsConsistent config again c
unfolding with_config negotiate disconnect touch
Run-IsConsistent config again c (begin now id) = record {
  same_config = refl;
  distinct = tt;
  within = omega arith;
  negotiated_empty = λ first e. refl;
  active_nonempty = λ e. absurd (cc e);
}
Run-IsConsistent config again c (negotiating {again = before} {c = d} now dialect r) =
    let v = Run-IsConsistent config before d r in
    record {
      same_config = v.same_config;
      distinct = v.distinct;
      within = v.within;
      negotiated_empty = λ first e. none_before before d.session_ids first;
      active_nonempty = λ e. absurd (cc e);
    }
Run-IsConsistent config again c (adding now id r) =
    add_session-IsConsistent config again (Run-IsConsistent config again _ r) now id
Run-IsConsistent config again c (removing now id r) =
    remove_session-IsConsistent config again (Run-IsConsistent config again _ r) now id
Run-IsConsistent config again c (closing r) =
    let v = Run-IsConsistent config again _ r in
    record {
      same_config = v.same_config;
      distinct = v.distinct;
      within = v.within;
      negotiated_empty = λ first e. absurd (cc e);
      active_nonempty = λ e. absurd (cc e);
    }

-- Removing a session takes out that session and no other, and cancels the requests of that session
-- and no others.
remove_session_lem :
    (now session_id other async_id : ℕ) (c : Connection)
    → IsMap c.async_requests.pending
    → (has_session other (remove_session now session_id c)
        ≡ (has_session other c && not (other == session_id)))
      × (get async_id (remove_session now session_id c).async_requests.pending
          ≡ keep (λ r. not (r.session_id == session_id)) (get async_id c.async_requests.pending))
unfolding remove_session has_session touch
remove_session_lem now session_id other async_id c h = (
  memb-filterb other session_id c.session_ids,
  (bulk_cancel c.async_requests now session_id 0 (0, 0) async_id h).0,
)
