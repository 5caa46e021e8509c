-- ===== src/Validation/Verdicts.antt =====
-- The verdicts on a request's IDs, read off the tables of a store.
use rustsmb.Base.{
  ℕ, ◌≤◌, ◌≡◌, ◌↔◌, refl, sym, ap, false, ◌&&◌, Option, none, some, inl, inr, ◌⊎◌, nat_key,
  pair_key, ◌==◌, nat_eq_iff, ltb, Bool-cases, Option-cases, if◌then◌else◌, arith,
}
use rustsmb.Core.{
  SessionError, invalid_session_id, invalid_tree_id, invalid_handle_id, session_expired,
}
use rustsmb.Core.Action.{Result, ok, err}
use rustsmb.State.Types.{SessionState, TreeState, HandleState}
use rustsmb.State.Store.Lawful.{View, drop}
use rustsmb.Validation.{RequestContext, HandleLookup}

-- The tables `w` have a session that has not expired, a tree of it, and a handle of both, with the
-- volatile ID; the context is made of them.
pub record Admits (w : View) (now session tree persistent volatile : ℕ) (c : RequestContext)
    : Type 0 where
  pub of_session : SessionState
  of_tree : TreeState
  of_handle : HandleState
  session_found : w.sessions session ≡ some of_session
  pub alive : now ≤ of_session.expires_at
  tree_found : w.trees (session, tree) ≡ some of_tree
  handle_found : w.handles persistent ≡ some of_handle
  owned : (of_handle.session_id ≡ session) × (of_handle.tree_id ≡ tree)
  same_volatile : of_handle.volatile_id ≡ volatile
  pub made : c ≡ record { session = of_session; tree = some of_tree; handle = some of_handle }

abbrev pub session_result : ℕ → ℕ → Option SessionState → Result SessionError SessionState
session_result now id none = err (invalid_session_id id)
session_result now id (some x) = if ltb x.expires_at now then err session_expired else ok x

abbrev pub session_view : ℕ → ℕ → View → Option SessionState → View
session_view now id w none = w
session_view now id w (some x) =
    if ltb x.expires_at now then record w { sessions = drop id w.sessions } else w

abbrev pub tree_result : ℕ → Option TreeState → Result SessionError TreeState
tree_result id none = err (invalid_tree_id id)
tree_result id (some t) = ok t

abbrev pub handle_result : ℕ → ℕ → ℕ → ℕ → Option HandleState → Result SessionError HandleLookup
handle_result persistent volatile session tree none = err (invalid_handle_id persistent)
handle_result persistent volatile session tree (some h) =
    if h.session_id == session && (h.tree_id == tree && h.volatile_id == volatile)
    then ok (record { handle = h; session_id = session; tree_id = tree })
    else err (invalid_handle_id persistent)

-- The three verdicts, in the order in which they are asked for.
abbrev pub chain :
    Result SessionError SessionState
    → Result SessionError TreeState
    → Result SessionError HandleLookup
    → Result SessionError RequestContext
chain (err e) t h = err e
chain (ok x) (err e) h = err e
chain (ok x) (ok t) (err e) = err e
chain (ok x) (ok t) (ok l) = ok (record { session = x; tree = some t; handle = some l.handle })

pub Result-cases :
    {E A : Type 0} (x : Result E A) → ((a : A) × (x ≡ ok a)) ⊎ ((e : E) × (x ≡ err e))
Result-cases (ok a) = inl (a, refl)
Result-cases (err e) = inr (e, refl)

-- A session that passes leaves the tables.
pub passed_view :
    (now id : ℕ) (w : View) (o : Option SessionState) (x : SessionState)
    → session_result now id o ≡ ok x
    → session_view now id w o ≡ w
passed_view now id w none x e = refl
passed_view now id w (some y) x e = elim (Bool-cases (ltb y.expires_at now)) [
  | inl expired ↦ absurd (ground arith)
  | inr alive ↦ rw alive refl
]

abbrev pub context : SessionState → TreeState → HandleState → RequestContext
context x t h = record { session = x; tree = some t; handle = some h }

-- The verdicts make a context exactly where the tables admit it.
pub chain_iff :
    (w : View) (now session tree persistent volatile : ℕ) (c : RequestContext)
    → (chain
          (session_result now session (w.sessions session))
          (tree_result tree (w.trees (session, tree)))
          (handle_result persistent volatile session tree (w.handles persistent))
        ≡ ok c)
      ↔ Admits w now session tree persistent volatile c
chain_iff w now session tree persistent volatile c = (
  λ e. elim (Option-cases (w.sessions session)) [
    | inl absent ↦ absurd (ground arith)
    | inr (x, a) ↦ elim (Option-cases (w.trees (session, tree))) [
      | inl absent ↦ absurd (ground arith)
      | inr (t, b) ↦ elim (Option-cases (w.handles persistent)) [
        | inl absent ↦ absurd (ground arith)
        | inr (h, d) ↦ record {
          of_session = x;
          of_tree = t;
          of_handle = h;
          session_found = a;
          alive = ground arith;
          tree_found = b;
          handle_found = d;
          owned = ground (arith, nat_eq_iff h.session_id session, nat_eq_iff h.tree_id tree);
          same_volatile = ground (arith, nat_eq_iff h.volatile_id volatile);
          made = ground arith;
        }
      ]
    ]
  ],
  λ y.
      let alive : ltb y.of_session.expires_at now ≡ false = ground (arith, y.alive) in
      let own = (nat_eq_iff y.of_handle.session_id session).1 y.owned.0 in
      let on = (nat_eq_iff y.of_handle.tree_id tree).1 y.owned.1 in
      let same = (nat_eq_iff y.of_handle.volatile_id volatile).1 y.same_volatile in
      rw (y.session_found, y.tree_found, y.handle_found, alive, own, on, same) (ap ok (sym y.made)),
)
