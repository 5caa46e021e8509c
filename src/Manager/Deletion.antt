-- ===== src/Manager/Deletion.antt =====
-- What deleting a session leaves of its handles and its trees, in any lawful store.
use rustsmb.Base.{
  ℕ, ◌≡◌, ◌↔◌, refl, ap, ◌∙◌, subst, String, Option, none, some, List, [], ◌∷◌, In, inl, inr,
  nat_key, pair_key, ◌==◌, Bool-cases, if◌then◌else◌,
}
use rustsmb.Core.{StateError}
use rustsmb.Core.Action.{Action, ok, ◌>>=◌, for_each}
use rustsmb.State.Types.{
  TreeState, HandleState, should_preserve_for_reconnect, prepare_for_reconnect,
}
use rustsmb.State.Store.{StateStore}
use rustsmb.State.Store.Lawful.{View, Reading, Does, IsStateStore, put, drop}
use rustsmb.Manager.Tables.{
  left, prepare-persistent_id, settle, settled, felled, settled-left, felled-drop,
}
use rustsmb.Manager.{release_handle, drop_lease, delete_session}

module _ {S : Type 0} (r : Reading S) (store : StateStore S) (law : IsStateStore r store) where
  bind-Does :
      {A B : Type 0} (m : Action S StateError A) (f : A → Action S StateError B) (s : S) (a : A)
      (w : View) (b : B) (w' : View)
      → Does r (m s) a w
      → Does r (f a (m s).1) b w'
      → Does r ((m >>= f) s) b w'
  bind-Does m f s a w b w' h k = rw (h.0) k

  drop-Does :
      (key : Option String) (s : S) → r.Valid s → Does r (drop_lease store key s) tt (r.view s)
  drop-Does none s v = (refl, v, refl)
  drop-Does (some key) s v = let d = law.delete_lease_does key s v in (refl, d.1, d.2)

  release-Does :
      (clock : ℕ → ℕ) (h : HandleState) (s : S)
      → r.Valid s
      → Does r
          (release_handle store clock h s)
          tt
          (record (r.view s) { handles = settle clock h (r.view s).handles })
  unfolding release_handle
  release-Does clock h s v = elim (Bool-cases (should_preserve_for_reconnect h)) [
    | inl kept ↦
        let p = prepare_for_reconnect (clock h.persistent_id) h 60000 in
        let d = law.update_handle_does p s v in
        rw (kept, release_handle)
          (
            refl,
            d.1,
            d.2
                ∙ ap (λ i. record (r.view s) { handles = put i p (r.view s).handles })
                    (prepare-persistent_id (clock h.persistent_id) h 60000),
          )
    | inr given_up ↦
        let d = drop-Does h.lease_key s v in
        let e = law.delete_handle_does h.persistent_id (drop_lease store h.lease_key s).1 d.1 in
        rw (given_up, release_handle)
          (bind-Does (drop_lease store h.lease_key) (λ _. store.delete_handle h.persistent_id) s tt
            (r.view s) tt (record (r.view s) { handles = drop h.persistent_id (r.view s).handles })
            d
            (subst
              (Does r (store.delete_handle h.persistent_id (drop_lease store h.lease_key s).1) tt)
              (ap (λ (w : View). record w { handles = drop h.persistent_id w.handles }) d.2) e))
  ]

  loop-Does :
      (clock : ℕ → ℕ) (hs : List HandleState) (s : S)
      → r.Valid s
      → Does r
          (for_each hs (release_handle store clock) s)
          tt
          (record (r.view s) { handles = settled clock hs (r.view s).handles })
  unfolding for_each
  loop-Does clock [] s v = (refl, v, refl)
  loop-Does clock (h ∷ hs) s v =
      let d = release-Does clock h s v in
      let t = (release_handle store clock h s).1 in
      let e = loop-Does clock hs t d.1 in
      bind-Does (release_handle store clock h) (λ _. for_each hs (release_handle store clock)) s tt
        (record (r.view s) { handles = settle clock h (r.view s).handles }) tt _ d
        (subst
          (λ w.
            Does r (for_each hs (release_handle store clock) t) tt
              (record w { handles = settled clock hs w.handles }))
          d.2 e)

  trees-Does :
      (session : ℕ) (ts : List TreeState) (s : S)
      → r.Valid s
      → Does r
          (for_each ts (λ tree. store.delete_tree session tree.tree_id) s)
          tt
          (record (r.view s) { trees = felled session ts (r.view s).trees })
  unfolding for_each
  trees-Does session [] s v = (refl, v, refl)
  trees-Does session (t ∷ ts) s v =
      let d = law.delete_tree_does session t.tree_id s v in
      let body : TreeState → Action S StateError (Unit {0}) =
        λ tree. store.delete_tree session tree.tree_id in
      let u = (body t s).1 in
      bind-Does (body t) (λ _. for_each ts body) s tt
        (record (r.view s) { trees = drop (session, t.tree_id) (r.view s).trees }) tt _ d
        (subst
          (λ w. Does r (for_each ts body u) tt (record w { trees = felled session ts w.trees })) d.2
          (trees-Does session ts u d.1))

  -- The whole deletion, on the lists that the store answers.
  delete_session-Does :
      (clock : ℕ → ℕ) (session : ℕ) (s : S)
      → r.Valid s
      → (hs : List HandleState) × (ts : List TreeState) × ((h : HandleState)
          → In h hs ↔ ((h.session_id ≡ session) × ((r.view s).handles h.persistent_id ≡ some h)))
        × ((t : TreeState)
            → In t ts
              ↔ ((t.session_id ≡ session) × ((r.view s).trees (session, t.tree_id) ≡ some t)))
        × Does r (delete_session store clock session s) tt (record {
          sessions = drop session (r.view s).sessions;
          trees = felled session ts (r.view s).trees;
          handles = settled clock hs (r.view s).handles;
        })
  unfolding delete_session
  delete_session-Does clock session s v =
      let (hs, of_hs, hs_iff) = law.handles_by_session_does session s v in
      let s1 = (store.get_handles_by_session session s).1 in
      let loop = for_each hs (release_handle store clock) in
      let settling =
        subst (λ w. Does r (loop s1) tt (record w { handles = settled clock hs w.handles })) of_hs.2
          (loop-Does clock hs s1 of_hs.1) in
      let s2 = (loop s1).1 in
      let (ts, of_ts, ts_iff) = law.trees_by_session_does session s2 settling.1 in
      let s3 = (store.get_trees_by_session session s2).1 in
      let felling = trees-Does session ts s3 of_ts.1 in
      let s4 = (for_each ts (λ tree. store.delete_tree session tree.tree_id) s3).1 in
      let last = law.delete_session_does session s4 felling.1 in
      (
        hs,
        ts,
        hs_iff,
        λ t.
            subst
              (λ (w : View).
                In t ts ↔ ((t.session_id ≡ session) × (w.trees (session, t.tree_id) ≡ some t)))
              settling.2 (ts_iff t),
        rw (of_hs.0, settling.0, of_ts.0, felling.0)
            (
              last.0,
              last.1,
              last.2
                  ∙ ap (λ (w : View). record w { sessions = drop session w.sessions }) felling.2
                  ∙ ap
                      (λ (w : View). record w {
                        sessions = drop session w.sessions;
                        trees = felled session ts w.trees;
                      })
                      (of_ts.2 ∙ settling.2),
            ),
      )

  -- Deleting a session, whatever the clock reads at each of its handles, succeeds and leaves a well-formed
  -- store. After it the session and all of its trees are gone, and each of its
  -- handles is prepared for a reconnect, where it is durable or persistent, or is gone; the sessions,
  -- the trees and the handles of others stay as they were.
  pub delete_session_leaves :
      (clock : ℕ → ℕ) (session other tree handle : ℕ) (s : S)
      → r.Valid s
      → ((delete_session store clock session s).0 ≡ ok tt)
        × r.Valid (delete_session store clock session s).1
        × ((r.view (delete_session store clock session s).1).sessions other
            ≡ (if session == other then none else (r.view s).sessions other))
        × ((r.view (delete_session store clock session s).1).trees (other, tree)
            ≡ (if session == other then none else (r.view s).trees (other, tree)))
        × ((r.view (delete_session store clock session s).1).handles handle
            ≡ left clock session ((r.view s).handles handle))
  delete_session_leaves clock session other tree handle s v =
      let (hs, ts, hs_iff, ts_iff, d) = delete_session-Does clock session s v in
      (
        d.0,
        d.1,
        ap (λ (w : View). w.sessions other) d.2,
        ap (λ (w : View). w.trees (other, tree)) d.2
            ∙ felled-drop session ts (r.view s).trees other tree
                (λ t e. law.tree_key s (other, tree) t v e) ts_iff,
        ap (λ (w : View). w.handles handle) d.2
            ∙ settled-left clock session hs (r.view s).handles handle
                (λ h e. law.handle_key s handle h v e) hs_iff,
      )
