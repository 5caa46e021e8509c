-- ===== src/Manager/Tables.antt =====
-- What the loops of `delete_session` do to the tables of a store, given the lists that they go through.
use rustsmb.Base.{
  ℕ, ◌≡◌, ◌↔◌, refl, sym, ap, ◌∙◌, subst, true, ◌&&◌, Option, none, some, List, [], ◌∷◌, map, In,
  inl, inr, nat_key, pair_key, ◌==◌, nat_eq_iff, Bool-cases, Option-cases, if◌then◌else◌, arith,
}
use rustsmb.Base.Map.{memb}
use rustsmb.State.Types.{
  TreeState, HandleState, should_preserve_for_reconnect, prepare_for_reconnect, set_durable_timeout,
}
use rustsmb.State.Store.Lawful.{drop}

-- What becomes of a handle of the session, for which `clock` is what is read at the handle of each ID: a durable or persistent one is prepared for its client to
-- come back, any other is gone.
abbrev pub outcome : (ℕ → ℕ) → HandleState → Option HandleState
outcome clock h =
    if should_preserve_for_reconnect h
    then some (prepare_for_reconnect (clock h.persistent_id) h 60000)
    else none

-- What stands at a handle's ID after the session is deleted.
abbrev pub left : (ℕ → ℕ) → ℕ → Option HandleState → Option HandleState
left clock session none = none
left clock session (some h) = if h.session_id == session then outcome clock h else some h

pub prepare-persistent_id :
    (now : ℕ) (h : HandleState) (t : ℕ)
    → (prepare_for_reconnect now h t).persistent_id ≡ h.persistent_id
unfolding prepare_for_reconnect set_durable_timeout
prepare-persistent_id now h t = ground arith

abbrev place : ℕ → Option HandleState → (ℕ → Option HandleState) → ℕ → Option HandleState
place id o f k = if id == k then o else f k

abbrev pub settle : (ℕ → ℕ) → HandleState → (ℕ → Option HandleState) → ℕ → Option HandleState
settle clock h = place h.persistent_id (outcome clock h)

abbrev pub settled : (ℕ → ℕ) → List HandleState → (ℕ → Option HandleState) → ℕ → Option HandleState
settled clock [] f = f
settled clock (h ∷ hs) f = settled clock hs (settle clock h f)

abbrev pub felled : ℕ → List TreeState → (ℕ × ℕ → Option TreeState) → ℕ × ℕ → Option TreeState
felled session [] f = f
felled session (t ∷ ts) f = felled session ts (drop (session, t.tree_id) f)

abbrev outcome_at : (ℕ → ℕ) → Option HandleState → Option HandleState
outcome_at clock none = none
outcome_at clock (some h) = outcome clock h

abbrev pub ids : List HandleState → List ℕ
ids = map (λ (h : HandleState). h.persistent_id)

-- The loop settles each ID of the list by the handle that stands at it in the table `w`.
settled_lem :
    (clock : ℕ → ℕ) (hs : List HandleState) (w f : ℕ → Option HandleState) (k : ℕ)
    → ((h : HandleState) → In h hs → w h.persistent_id ≡ some h)
    → settled clock hs f k ≡ (if memb k (ids hs) then outcome_at clock (w k) else f k)
settled_lem clock [] w f k stands = refl
settled_lem clock (h ∷ hs) w f k stands =
    let rest = settled_lem clock hs w (settle clock h f) k (λ x i. stands x (inr i)) in
    elim (Bool-cases (h.persistent_id == k)) [
      | inl hit ↦
          let at : w k ≡ some h =
            subst (λ i. w i ≡ some h) ((nat_eq_iff h.persistent_id k).0 hit)
              (stands h (inl refl)) in
          ground (arith, rest, ap (outcome_at clock) at)
      | inr miss ↦ ground (arith, rest)
    ]

memb-ids :
    (k : ℕ) (hs : List HandleState)
    → memb k (ids hs) ≡ true
    → (h : HandleState) × In h hs × (h.persistent_id ≡ k)
memb-ids k [] e = cc e
memb-ids k (h ∷ hs) e = elim (Bool-cases (h.persistent_id == k)) [
  | inl hit ↦ (h, inl refl, (nat_eq_iff h.persistent_id k).0 hit)
  | inr miss ↦ let (x, i, same) = memb-ids k hs (ground arith) in (x, inr i, same)
]

In-memb :
    {A : Type 0} (f : A → ℕ) (k : ℕ) (xs : List A) (a : A)
    → In a xs
    → f a ≡ k
    → memb k (map f xs) ≡ true
In-memb f k [] a i e = absurd i
In-memb f k (x ∷ xs) a (inl p) e = ground (arith, ap f p, nat_eq_iff (f x) k)
In-memb f k (x ∷ xs) a (inr i) e = ground (arith, In-memb f k xs a i e)

felled_lem :
    (session : ℕ) (ts : List TreeState) (f : ℕ × ℕ → Option TreeState) (j k : ℕ)
    → felled session ts f (j, k)
      ≡ (if session == j && memb k (map (λ (t : TreeState). t.tree_id) ts) then none else f (j, k))
felled_lem session [] f j k = ground arith
felled_lem session (t ∷ ts) f j k =
    ground (arith, felled_lem session ts (drop (session, t.tree_id) f) j k)

pair_path : {a b c d : ℕ} → a ≡ b → c ≡ d → ◌≡◌ {A = ℕ × ℕ} (a, c) (b, d)
pair_path p q i = (p i, q i)

stored_once :
    (w : ℕ → Option HandleState) (f : HandleState → ℕ) (k : ℕ) (h x : HandleState)
    → w k ≡ some h
    → w k ≡ some x
    → f h ≡ f x
stored_once w f k h x a b = ground (arith, ap f)

-- What the loop over the handles of the session leaves at an ID.
pub settled-left :
    (clock : ℕ → ℕ) (session : ℕ) (hs : List HandleState) (w : ℕ → Option HandleState) (k : ℕ)
    → ((h : HandleState) → w k ≡ some h → h.persistent_id ≡ k)
    → ((h : HandleState) → In h hs ↔ ((h.session_id ≡ session) × (w h.persistent_id ≡ some h)))
    → settled clock hs w k ≡ left clock session (w k)
settled-left clock session hs w k keyed exact =
    let all = settled_lem clock hs w w k (λ h i. ((exact h).0 i).1) in
    elim (Option-cases (w k)) [
      | inl absent ↦ ground (arith, all)
      | inr (h, present) ↦ elim (Bool-cases (h.session_id == session)) [
        | inl own ↦
            let of_session = (nat_eq_iff h.session_id session).0 own in
            let here = keyed h present in
            let listed = (exact h).1 (of_session, subst (λ i. w i ≡ some h) (sym here) present) in
            ground (arith, all, In-memb (λ (x : HandleState). x.persistent_id) k hs h listed here)
        | inr other ↦ elim (Bool-cases (memb k (ids hs))) [
          | inl listed ↦
              let (x, i, same) = memb-ids k hs listed in
              let (of_session, at) = (exact x).0 i in
              let one : h.session_id ≡ x.session_id =
                stored_once w (λ y. y.session_id) k h x present
                  (subst (λ i. w i ≡ some x) same at) in
              absurd (ground (arith, nat_eq_iff h.session_id session))
          | inr unlisted ↦ ground (arith, all)
        ]
      ]
    ]

-- What the loop over the trees of the session leaves at a key.
pub felled-drop :
    (session : ℕ) (ts : List TreeState) (w : ℕ × ℕ → Option TreeState) (j k : ℕ)
    → ((t : TreeState) → w (j, k) ≡ some t → ◌≡◌ {A = ℕ × ℕ} (t.session_id, t.tree_id) (j, k))
    → ((t : TreeState) → In t ts ↔ ((t.session_id ≡ session) × (w (session, t.tree_id) ≡ some t)))
    → felled session ts w (j, k) ≡ (if session == j then none else w (j, k))
felled-drop session ts w j k keyed exact =
    let all = felled_lem session ts w j k in
    elim (Bool-cases (session == j)) [
      | inr other ↦ ground (arith, all)
      | inl own ↦ elim (Option-cases (w (j, k))) [
        | inl absent ↦ ground (arith, all)
        | inr (t, present) ↦
            let of_j : t.session_id ≡ j = ap (λ p. p.0) (keyed t present) in
            let of_k : t.tree_id ≡ k = ap (λ p. p.1) (keyed t present) in
            let at : w (session, t.tree_id) ≡ some t =
              subst (λ p. w p ≡ some t) (sym (pair_path ((nat_eq_iff session j).0 own) of_k))
                present in
            let listed = (exact t).1 (of_j ∙ sym ((nat_eq_iff session j).0 own), at) in
            ground (arith, all, In-memb (λ (x : TreeState). x.tree_id) k ts t listed of_k)
      ]
    ]
