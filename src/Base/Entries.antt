-- ===== src/Base/Entries.antt =====
-- What holds of all entries of a map, and of the entry at one key.
use mathlib.Core.Path.{◌≡◌, refl, ◌∙◌, subst}
use mathlib.Core.Bool.{true, false}
use mathlib.Core.List.{[], ◌∷◌}
use mathlib.Core.Option.{none, some}
use mathlib.Core.Logic.{inl, inr}
use rustsmb.Base.Tests.{Key, ◌==◌, Bool-cases}
use rustsmb.Base.Lists.{All}
use rustsmb.Base.Map.{Map, get, remove, insert, contains_key, get-insert, get-remove, All-remove}

module _ {K V : Type 0} ⦃q : Key K⦄ where
  pub All-get :
      (P : K × V → Type 0) (k : K) (m : Map K V) {v : V} → All P m → get k m ≡ some v → P (k, v)
  unfolding get
  All-get P k [] h e = cc
  All-get P k ((j, w) ∷ m) {v} h e = elim (Bool-cases (j == k)) [
    | inl hit ↦
        let same : w ≡ v = cc (rw hit at e) in
        let here : j ≡ k = (q.same_iff j k).0 hit in
        subst (λ (i : K). P (i, v)) here (subst (λ (u : _). P (j, u)) same h.0)
    | inr miss ↦ All-get P k m h.1 (rw miss at e)
  ]

  pub All-insert :
      (P : K × V → Type 0) (k : K) (v : V) (m : Map K V) → P (k, v) → All P m → All P (insert k v m)
  unfolding insert
  All-insert P k v m p h = (p, All-remove P k m h)

  pub contains-insert : (k : K) (v : V) (m : Map K V) → contains_key k (insert k v m) ≡ true
  unfolding contains_key
  contains-insert k v m =
      let there : get k (insert k v m) ≡ some v =
        get-insert k k v m ∙ rw ((q.same_iff k k).1 refl) refl in
      rw (there, contains_key) refl

  pub contains-remove : (k : K) (m : Map K V) → contains_key k (remove k m) ≡ false
  unfolding contains_key
  contains-remove k m =
      let gone : get k (remove k m) ≡ none = get-remove k k m ∙ rw ((q.same_iff k k).1 refl) refl in
      rw (gone, contains_key) refl

  pub get-insert_self : (k : K) (v : V) (m : Map K V) → get k (insert k v m) ≡ some v
  get-insert_self k v m = get-insert k k v m ∙ rw ((q.same_iff k k).1 refl) refl
