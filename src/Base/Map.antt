-- ===== src/Base/Map.antt =====
-- `std::collections::HashMap` as an association list in which each key stands once. Iteration
-- order, which Rust leaves open, is the order of the list.
use mathlib.Core.Path.{◌≡◌, refl, subst}
use mathlib.Core.Bool.{Bool, true, false, ◌||◌}
use mathlib.Core.List.{List, [], ◌∷◌, map}
use mathlib.Core.Option.{Option, none, some}
use mathlib.Core.Logic.{◌≢◌, ◌⊎◌, inl, inr}
use mathlib.Core.Option
use native.Mathlib.Omega.{arith}
use rustsmb.Base.Tests.{Key, ◌==◌, if◌then◌else◌, Bool-cases}
use rustsmb.Base.Lists.{filterb, All, All-filterb, In}

abbrev pub Map {ℓ κ} : Type ℓ → Type κ → Type (ℓ ⊔ κ)
Map K V = List (K × V)

module _ {κ} {V : Type κ} where
  -- `Option::filter`
  abbrev pub keep : (V → Bool) → Option V → Option V
  keep p none = none
  keep p (some v) = if p v then some v else none

module _ {ℓ κ} {K : Type ℓ} {V : Type κ} where
  abbrev pub values : Map K V → List V
  values = map (λ e. e.1)

  abbrev pub keys : Map K V → List K
  keys = map (λ e. e.0)

  -- `retain(|_, v| p(v))`
  abbrev pub retain : (V → Bool) → Map K V → Map K V
  retain p = filterb (λ e. p e.1)

  -- `for v in map.values_mut() { *v = f(v) }`
  abbrev pub map_values : (V → V) → Map K V → Map K V
  map_values f = map (λ e. (e.0, f e.1))

  -- Every stored value satisfies `P`.
  abbrev Values {η} : (V → Type η) → Map K V → Type η
  Values P = All (λ e. P e.1)

module _ {ℓ κ} {K : Type ℓ} {V : Type κ} ⦃q : Key K⦄ where
  unfoldable pub get : K → Map K V → Option V
  get k [] = none
  get k ((j, v) ∷ m) = if j == k then some v else get k m

  unfoldable pub remove : K → Map K V → Map K V
  remove k [] = []
  remove k ((j, v) ∷ m) = let rest = remove k m in if j == k then rest else (j, v) ∷ rest

  unfoldable pub insert : K → V → Map K V → Map K V
  unfolding remove
  insert k v m = (k, v) ∷ remove k m

  unfoldable pub contains_key : K → Map K V → Bool
  unfolding get
  contains_key k m = elim (get k m) [ none ↦ false | some v ↦ true ]

  -- `if let Some(v) = map.get_mut(&k) { *v = f(v) }`
  unfoldable pub modify : K → (V → V) → Map K V → Map K V
  modify k f [] = []
  modify k f ((j, v) ∷ m) = (if j == k then (j, f v) else (j, v)) ∷ modify k f m

  abbrev pub Fresh : K → Map K V → Type 0
  Fresh k m = All (λ e. (e.0 == k) ≡ false) m

  abbrev pub IsMap : Map K V → Type 0
  IsMap [] = Unit
  IsMap ((k, v) ∷ m) = Fresh k m × IsMap m

module _ {ℓ κ} {K : Type ℓ} {V : Type κ} ⦃q : Key K⦄ where
  pub get-remove : (k j : K) (m : Map K V) → get j (remove k m) ≡ (if k == j then none else get j m)
  unfolding get remove
  get-remove k j [] = ground arith
  get-remove k j ((i, v) ∷ m) =
      ground (arith, get-remove k j m, q.same_iff i k, q.same_iff i j, q.same_iff k j)

  pub get-insert :
      (k j : K) (v : V) (m : Map K V) → get j (insert k v m) ≡ (if k == j then some v else get j m)
  unfolding get insert
  get-insert k j v m = ground (arith, get-remove k j m)

  -- What is stored after an insertion is the new value at its key, or was there, at another key.
  pub insert_cases :
      (k j : K) (v w : V) (m : Map K V)
      → get j (insert k v m) ≡ some w
      → ((k ≡ j) × (v ≡ w)) ⊎ ((k ≢ j) × (get j m ≡ some w))
  insert_cases k j v w m e = elim (Bool-cases (k == j)) [
    | inl hit ↦ inl ((q.same_iff k j).0 hit, ground (arith, get-insert k j v m))
    | inr miss ↦ inr (λ p. cc (miss, (q.same_iff k j).1 p), ground (arith, get-insert k j v m))
  ]

  pub remove_cases :
      (k j : K) (w : V) (m : Map K V) → get j (remove k m) ≡ some w → (k ≢ j) × (get j m ≡ some w)
  remove_cases k j w m e = elim (Bool-cases (k == j)) [
    | inl hit ↦ absurd (ground (arith, get-remove k j m))
    | inr miss ↦ (λ p. cc (miss, (q.same_iff k j).1 p), ground (arith, get-remove k j m))
  ]

  pub get-modify :
      (k j : K) (f : V → V) (m : Map K V)
      → get j (modify k f m) ≡ (if k == j then Option.map f (get j m) else get j m)
  unfolding get modify
  get-modify k j f [] = ground arith
  get-modify k j f ((i, v) ∷ m) =
      ground (arith, get-modify k j f m, q.same_iff i k, q.same_iff i j, q.same_iff k j)

  pub get-map_values :
      (j : K) (f : V → V) (m : Map K V) → get j (map_values f m) ≡ Option.map f (get j m)
  unfolding get
  get-map_values j f [] = refl
  get-map_values j f ((i, v) ∷ m) = ground (arith, get-map_values j f m)

  pub get-Fresh : (k : K) (m : Map K V) → Fresh k m → get k m ≡ none
  unfolding get
  get-Fresh k [] h = refl
  get-Fresh k ((j, v) ∷ m) h = ground (arith, get-Fresh k m h.1)

  Fresh-remove_self : (k : K) (m : Map K V) → Fresh k (remove k m)
  unfolding remove
  Fresh-remove_self k [] = tt
  Fresh-remove_self k ((j, v) ∷ m) = ground (arith, Fresh-remove_self k m)

  pub All-remove {η} : (P : K × V → Type η) (k : K) (m : Map K V) → All P m → All P (remove k m)
  unfolding remove
  All-remove P k [] h = tt
  All-remove P k ((j, v) ∷ m) h = ground (arith, All-remove P k m h.1)

  pub IsMap-remove : (k : K) (m : Map K V) → IsMap m → IsMap (remove k m)
  unfolding remove
  IsMap-remove k [] h = tt
  IsMap-remove k ((j, v) ∷ m) h =
      ground (arith, IsMap-remove k m h.1, All-remove (λ e. (e.0 == j) ≡ false) k m h.0)

  Fresh-modify : (j k : K) (f : V → V) (m : Map K V) → Fresh j m → Fresh j (modify k f m)
  unfolding modify
  Fresh-modify j k f [] h = tt
  Fresh-modify j k f ((i, v) ∷ m) h = ground (arith, Fresh-modify j k f m h.1)

  pub IsMap-modify : (k : K) (f : V → V) (m : Map K V) → IsMap m → IsMap (modify k f m)
  unfolding modify
  IsMap-modify k f [] h = tt
  IsMap-modify k f ((j, v) ∷ m) h = ground (arith, IsMap-modify k f m h.1, Fresh-modify j k f m h.0)

  pub IsMap-insert : (k : K) (v : V) (m : Map K V) → IsMap m → IsMap (insert k v m)
  unfolding insert
  IsMap-insert k v m h = (Fresh-remove_self k m, IsMap-remove k m h)

  pub IsMap-retain : (p : V → Bool) (m : Map K V) → IsMap m → IsMap (retain p m)
  IsMap-retain p [] h = tt
  IsMap-retain p ((j, v) ∷ m) h = ground (
    arith,
    IsMap-retain p m h.1,
    All-filterb (λ (e : K × V). (e.0 == j) ≡ false) (λ (e : K × V). p e.1) m h.0,
  )

  Values-insert {η} :
      (P : V → Type η) (k : K) (v : V) (m : Map K V) → P v → Values P m → Values P (insert k v m)
  unfolding insert
  Values-insert P k v m hv h = (hv, All-remove (λ e. P e.1) k m h)

  Values-get {η} :
      (P : V → Type η) (k : K) (m : Map K V) {v : V} → Values P m → get k m ≡ some v → P v
  unfolding get
  Values-get P k [] {v} h e = cc
  Values-get P k ((j, w) ∷ m) {v} h e = elim (Bool-cases (j == k)) [
    | inl hit ↦ let same : w ≡ v = ground arith in subst P same h.0
    | inr miss ↦ Values-get P k m h.1 (rw (miss, get) at e)
  ]

  -- What `retain` leaves at a key.
  pub get-retain :
      (p : V → Bool) (k : K) (m : Map K V) → IsMap m → get k (retain p m) ≡ keep p (get k m)
  unfolding get
  get-retain p k [] h = refl
  get-retain p k ((j, v) ∷ m) h = elim (Bool-cases (j == k)) [
    | inl hit ↦
        let fresh = subst (λ i. Fresh i m) ((q.same_iff j k).0 hit) h.0 in
        let gone =
          get-Fresh k (retain p m)
            (All-filterb (λ (e : K × V). (e.0 == k) ≡ false) (λ (e : K × V). p e.1) m fresh) in
        ground (arith, gone)
    | inr miss ↦ ground (arith, get-retain p k m h.1)
  ]

  pub retain_cases :
      (p : V → Bool) (k : K) (m : Map K V) {w : V}
      → IsMap m
      → get k (retain p m) ≡ some w
      → (get k m ≡ some w) × (p w ≡ true)
  retain_cases p k m h e = ground (arith, get-retain p k m h)

-- What is stored at a key is among the values.
pub get-In :
    {K V : Type 0} ⦃q : Key K⦄ (k : K) (m : Map K V) (v : V) → get k m ≡ some v → In v (values m)
unfolding get
get-In k [] v e = cc
get-In k ((j, w) ∷ m) v e = elim (Bool-cases (j == k)) [
  | inl hit ↦ inl (ground arith)
  | inr miss ↦ inr (get-In k m v (ground arith))
]

-- Each value of a map is stored at some key.
pub In-get :
    {K V : Type 0} ⦃q : Key K⦄ (m : Map K V) (v : V)
    → IsMap m
    → In v (values m)
    → (k : K) × (get k m ≡ some v)
unfolding get
In-get [] v h i = absurd i
In-get ⦃q⦄ ((j, w) ∷ m) v h (inl e) = (j, rw ((q.same_iff j j).1 refl, e))
In-get ⦃q⦄ ((j, w) ∷ m) v h (inr i) =
    let (k, e) = In-get m v h.1 i in
    (
      k,
      elim (Bool-cases (j == k)) [
        | inl hit ↦
            let fresh = subst (λ i. Fresh i m) ((q.same_iff j k).0 hit) h.0 in
            absurd (ground (arith, get-Fresh k m fresh))
        | inr miss ↦ ground arith
      ],
    )

abbrev pub is_stored {ℓ} : {V : Type ℓ} → Option V → Bool
is_stored none = false
is_stored (some v) = true

-- Whether a key is in a list.
abbrev pub memb {ℓ} : {K : Type ℓ} ⦃q : Key K⦄ → K → List K → Bool
memb k [] = false
memb k (j ∷ js) = j == k || memb k js

pub memb-keys {ℓ κ} :
    {K : Type ℓ} {V : Type κ} ⦃q : Key K⦄ (k : K) (m : Map K V)
    → memb k (keys m) ≡ is_stored (get k m)
unfolding get
memb-keys k [] = refl
memb-keys k ((j, v) ∷ m) = ground (arith, memb-keys k m)
