-- ===== src/Base/Keyed.antt =====
-- Tables whose values stand under their own keys, as a store keeps records by their IDs.
use mathlib.Core.Path.{◌≡◌, refl, sym, ap, ◌∙◌, subst}
use mathlib.Core.Logic.{◌↔◌, inl, inr}
use mathlib.Core.Bool.{Bool, true}
use mathlib.Core.Option.{some}
use mathlib.Core.List.{[], ◌∷◌, map}
use native.Mathlib.Omega.{arith}
use rustsmb.Base.Tests.{Key, ◌==◌, Bool-cases, Option-cases}
use rustsmb.Base.Lists.{filterb, In, In-filterb_iff}
use rustsmb.Base.Map.{
  Map, get, insert, remove, modify, values, IsMap, get-modify, insert_cases, remove_cases,
  IsMap-insert, IsMap-remove, IsMap-modify, get-In, In-get, Fresh, get-Fresh,
}

-- A table in which each key stands once, with a value of that key.
pub record IsKeyed {K V : Type 0} ⦃q : Key K⦄ (key : V → K) (m : Map K V) : Type 0 where
  pub is_map : IsMap m
  pub keyed : (k : K) (v : V) → get k m ≡ some v → key v ≡ k

module _ {K V : Type 0} ⦃q : Key K⦄ (key : V → K) where
  pub IsKeyed-insert : (v : V) (m : Map K V) → IsKeyed key m → IsKeyed key (insert (key v) v m)
  IsKeyed-insert v m x = record {
    is_map = IsMap-insert (key v) v m x.is_map;
    keyed = λ k w e. elim (insert_cases (key v) k v w m e) [
      | inl (p, r) ↦ sym (ap key r) ∙ p
      | inr (n, f) ↦ x.keyed k w f
    ];
  }

  pub IsKeyed-remove : (k : K) (m : Map K V) → IsKeyed key m → IsKeyed key (remove k m)
  IsKeyed-remove k m x = record {
    is_map = IsMap-remove k m x.is_map;
    keyed = λ j w e. x.keyed j w (remove_cases k j w m e).1;
  }

  pub IsKeyed-modify :
      (k : K) (f : V → V) (m : Map K V)
      → ((v : V) → key (f v) ≡ key v)
      → IsKeyed key m
      → IsKeyed key (modify k f m)
  IsKeyed-modify k f m same x = record {
    is_map = IsMap-modify k f m x.is_map;
    keyed = λ j w e. elim (Option-cases (get j m)) [
      | inl absent ↦ absurd (ground (arith, get-modify k j f m))
      | inr (v, present) ↦ ground (arith, get-modify k j f m, x.keyed j v present, same v, ap key)
    ];
  }

  -- The values that pass a test, by what is stored.
  pub values_iff :
      (p : V → Bool) (m : Map K V) (v : V)
      → IsKeyed key m
      → In v (filterb p (values m)) ↔ ((p v ≡ true) × (get (key v) m ≡ some v))
  values_iff p m v x = (
    λ i.
        let (j, t) = (In-filterb_iff p (values m) v).0 i in
        let (k, e) = In-get m v x.is_map j in
        (t, subst (λ z. get z m ≡ some v) (sym (x.keyed k v e)) e),
    λ h. (In-filterb_iff p (values m) v).1 (get-In (key v) m v h.1, h.0),
  )

  IsKeyed-tail : (j : K) (w : V) (m : Map K V) → IsKeyed key ((j, w) ∷ m) → IsKeyed key m
  unfolding get
  IsKeyed-tail j w m x = record {
    is_map = x.is_map.1;
    keyed = λ k v e. elim (Bool-cases (j == k)) [
      | inl hit ↦
          let fresh = subst (λ i. Fresh i m) ((q.same_iff j k).0 hit) x.is_map.0 in
          absurd (ground (arith, get-Fresh k m fresh))
      | inr miss ↦ x.keyed k v (ground arith)
    ];
  }

  -- Entries that are selected by their keys are selected by the keys of their values.
  pub by_key :
      (p : K → Bool) (m : Map K V)
      → IsKeyed key m
      → map (λ e. e.1) (filterb (λ e. p e.0) m) ≡ filterb (λ v. p (key v)) (values m)
  unfolding get
  by_key p [] x = refl
  by_key p ((j, w) ∷ m) x =
      let own : key w ≡ j = x.keyed j w (ground (arith, q.same_iff j j)) in
      ground (arith, by_key p m (IsKeyed-tail j w m x), ap p own)
