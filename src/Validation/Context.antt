-- ===== src/Validation/Context.antt =====
-- Which requests pass: exactly those whose session is alive and owns the tree and the handle.
use rustsmb.Base.{
  ℕ, ◌<◌, ◌≡◌, ◌↔◌, refl, sym, ap, ◌∙◌, subst, true, none, some, inl, inr, nat_key, pair_key, ◌==◌,
  nat_eq_iff, ltb, Bool-cases, Option-cases, if◌then◌else◌, arith,
}
use rustsmb.Core.{SessionError, session_expired}
use rustsmb.Core.Action.{Result, ok, err}
use rustsmb.State.Types.{SessionState}
use rustsmb.State.Store.{StateStore}
use rustsmb.State.Store.Lawful.{View, Reading, IsStateStore, drop}
use rustsmb.Validation.{
  RequestContext, validate_session, validate_tree, validate_handle, validate_full, with_handle,
}
use rustsmb.Validation.Verdicts.{
  Admits, session_result, session_view, tree_result, handle_result, chain, Result-cases,
  passed_view, chain_iff,
}

module _ {S : Type 0} (r : Reading S) (store : StateStore S) (law : IsStateStore r store) where
  -- The step ends with `a`, error or not, in a well-formed state with the tables `w`.
  abbrev Gives : {A : Type 0} → Result SessionError A × S → Result SessionError A → View → Type 0
  Gives (result, s) a w = (result ≡ a) × r.Valid s × (r.view s ≡ w)

  validate_session-Gives :
      (now id : ℕ) (s : S)
      → r.Valid s
      → Gives
          (validate_session store now id s)
          (session_result now id ((r.view s).sessions id))
          (session_view now id (r.view s) ((r.view s).sessions id))
  unfolding validate_session
  validate_session-Gives now id s v =
      let g = law.get_session_does id s v in
      elim (Option-cases ((r.view s).sessions id)) [
        | inl absent ↦ rw (g.0, absent) (refl, g.1, g.2)
        | inr (x, present) ↦ elim (Bool-cases (ltb x.expires_at now)) [
          | inl expired ↦
              let d = law.delete_session_does id (store.get_session id s).1 g.1 in
              rw (g.0, present, expired)
                (refl, d.1, d.2 ∙ ap (λ (w : View). record w { sessions = drop id w.sessions }) g.2)
          | inr alive ↦ rw (g.0, present, alive) (refl, g.1, g.2)
        ]
      ]

  validate_tree-Gives :
      (session tree : ℕ) (s : S)
      → r.Valid s
      → Gives
          (validate_tree store session tree s)
          (tree_result tree ((r.view s).trees (session, tree)))
          (r.view s)
  unfolding validate_tree
  validate_tree-Gives session tree s v =
      let g = law.get_tree_does session tree s v in
      elim (Option-cases ((r.view s).trees (session, tree))) [
        | inl absent ↦ rw (g.0, absent) (refl, g.1, g.2)
        | inr (t, present) ↦
            let own : (t.session_id == session) ≡ true =
              (nat_eq_iff t.session_id session).1
                (ap (λ p. p.0) (law.tree_key s (session, tree) t v present)) in
            rw (g.0, present, own) (refl, g.1, g.2)
      ]

  validate_full-Gives :
      (persistent volatile session tree : ℕ) (s : S)
      → r.Valid s
      → Gives
          (validate_full store persistent volatile session tree s)
          (handle_result persistent volatile session tree ((r.view s).handles persistent))
          (r.view s)
  unfolding validate_full validate_handle
  validate_full-Gives persistent volatile session tree s v =
      let g = law.get_handle_does persistent s v in
      elim (Option-cases ((r.view s).handles persistent)) [
        | inl absent ↦ rw (g.0, absent) (refl, g.1, g.2)
        | inr (h, present) ↦ elim (Bool-cases (h.session_id == session)) [
          | inr other ↦ rw (g.0, present, other) (refl, g.1, g.2)
          | inl own ↦ elim (Bool-cases (h.tree_id == tree)) [
            | inr off ↦ rw (g.0, present, own, off) (refl, g.1, g.2)
            | inl on ↦ elim (Bool-cases (h.volatile_id == volatile)) [
              | inl same ↦ rw (g.0, present, own, on, same) (refl, g.1, g.2)
              | inr stale ↦ rw (g.0, present, own, on, stale) (refl, g.1, g.2)
            ]
          ]
        ]
      ]

  with_handle-chain :
      (now session tree persistent volatile : ℕ) (s : S)
      → r.Valid s
      → (with_handle store now session tree persistent volatile s).0
        ≡ chain
            (session_result now session ((r.view s).sessions session))
            (tree_result tree ((r.view s).trees (session, tree)))
            (handle_result persistent volatile session tree ((r.view s).handles persistent))
  unfolding with_handle
  with_handle-chain now session tree persistent volatile s v =
      let a = validate_session-Gives now session s v in
      elim (Result-cases (session_result now session ((r.view s).sessions session))) [
        | inr (e, refused) ↦ rw (a.0, refused) refl
        | inl (x, passed) ↦
            let s1 = (validate_session store now session s).1 in
            let same =
              a.2 ∙ passed_view now session (r.view s) ((r.view s).sessions session) x passed in
            let b =
              subst
                (λ (w : View).
                  Gives (validate_tree store session tree s1)
                    (tree_result tree (w.trees (session, tree))) w)
                same (validate_tree-Gives session tree s1 a.1) in
            elim (Result-cases (tree_result tree ((r.view s).trees (session, tree)))) [
              | inr (e, refused) ↦ rw (a.0, passed, b.0, refused) refl
              | inl (t, found) ↦
                  let s2 = (validate_tree store session tree s1).1 in
                  let c =
                    subst
                      (λ (w : View).
                        Gives (validate_full store persistent volatile session tree s2)
                          (handle_result persistent volatile session tree (w.handles persistent)) w)
                      b.2 (validate_full-Gives persistent volatile session tree s2 b.1) in
                  elim (Result-cases (
                    handle_result persistent volatile session tree
                      ((r.view s).handles persistent))) [
                        | inr (e, refused) ↦ rw (a.0, passed, b.0, found, c.0, refused) refl
                        | inl (l, held) ↦ rw (a.0, passed, b.0, found, c.0, held) refl
                      ]
            ]
      ]

  -- A request is given its context exactly when its session is stored and has not expired, its tree
  -- is one of that session, and its handle is one of that session and that tree and has the volatile
  -- ID; the context is then made of just these.
  pub with_handle_iff :
      (now session tree persistent volatile : ℕ) (s : S) (c : RequestContext)
      → r.Valid s
      → ((with_handle store now session tree persistent volatile s).0 ≡ ok c)
        ↔ Admits (r.view s) now session tree persistent volatile c
  with_handle_iff now session tree persistent volatile s c v =
      let e = with_handle-chain now session tree persistent volatile s v in
      let i = chain_iff (r.view s) now session tree persistent volatile c in
      (λ f. i.0 (sym e ∙ f), λ y. e ∙ i.1 y)

  -- A session whose time is up is refused as expired and deleted, and nothing else changes.
  pub validate_session_expired :
      (now id other : ℕ) (x : SessionState) (s : S)
      → r.Valid s
      → (r.view s).sessions id ≡ some x
      → x.expires_at < now
      → ((validate_session store now id s).0 ≡ err session_expired)
        × ((r.view (validate_session store now id s).1).sessions other
            ≡ (if id == other then none else (r.view s).sessions other))
        × ((r.view (validate_session store now id s).1).trees ≡ (r.view s).trees)
        × ((r.view (validate_session store now id s).1).handles ≡ (r.view s).handles)
  validate_session_expired now id other x s v e h =
      let g = validate_session-Gives now id s v in
      let expired : ltb x.expires_at now ≡ true = ground arith in
      let after = rw (e, expired) at g.2 in
      (
        g.0 ∙ rw (e, expired) refl,
        ap (λ (w : View). w.sessions other) after,
        ap (λ (w : View). w.trees) after,
        ap (λ (w : View). w.handles) after,
      )
