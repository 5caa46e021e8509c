-- ===== src/Cached/AsStore.antt =====
-- The bodies that the operations of the caching store share: writing through, reading through, passing on.
use rustsmb.Base.{◌≡◌, ◌⊎◌, refl, sym, ap, subst, Option, none, some, inl, inr, nat_key, pair_key}
use mathlib.Core.Option
use rustsmb.Core.{StateError}
use rustsmb.Core.Action.{Action, ok, ◌>>◌}
use rustsmb.State.Store.Lawful.{View, Reading, Does}
use rustsmb.Cached.{
  Lru, LocalCache, CachedStateStore, on_bulk, on_cache, look_in, hit_or_fetch, read_through,
}
use rustsmb.Cached.Coherent.{IsCoherent}

abbrev pub Agrees : (l : Lru) → Option (LocalCache l) → View → Type 0
Agrees l none w = Unit
Agrees l (some c) w = IsCoherent l c w

-- The tables of the caching store are those of the bulk store, and its cache agrees with them.
abbrev pub cached_reading : {S : Type 0} → (l : Lru) → Reading S → Reading (CachedStateStore l S)
cached_reading l r = record {
  Valid = λ s. r.Valid s.bulk_store × Agrees l s.cache (r.view s.bulk_store);
  view = λ s. r.view s.bulk_store;
}

map-Agrees :
    (l : Lru) (w w' : View) (g : LocalCache l → LocalCache l) (o : Option (LocalCache l))
    → ((c : LocalCache l) → IsCoherent l c w → IsCoherent l (g c) w')
    → Agrees l o w
    → Agrees l (Option.map g o) w'
map-Agrees l w w' g none keeps a = tt
map-Agrees l w w' g (some c) keeps a = keeps c a

look_in-Agrees :
    {V : Type 0} (l : Lru) (w : View) (o : Option V) (look : LocalCache l → LocalCache l × Option V)
    (cache : Option (LocalCache l))
    → ((c : LocalCache l)
        → IsCoherent l c w
        → IsCoherent l (look c).0 w × (((look c).1 ≡ none) ⊎ ((look c).1 ≡ o)))
    → Agrees l cache w
    → Agrees l (look_in look cache).0 w
      × (((look_in look cache).1 ≡ none) ⊎ ((look_in look cache).1 ≡ o))
look_in-Agrees l w o look none keeps a = (tt, inl refl)
look_in-Agrees l w o look (some c) keeps a = keeps c a

module _ {S : Type 0} (l : Lru) (r : Reading S) where
  -- A write to the bulk store that the cache follows.
  pub write-Does :
      (m : Action S StateError (Unit {0})) (g : LocalCache l → LocalCache l)
      (s : CachedStateStore l S) (w : View)
      → Agrees l s.cache (r.view s.bulk_store)
      → Does r (m s.bulk_store) tt w
      → ((c : LocalCache l) → IsCoherent l c (r.view s.bulk_store) → IsCoherent l (g c) w)
      → Does (cached_reading l r) ((on_bulk m >> on_cache g) s) tt w
  write-Does m g s w a d keeps =
      let after = map-Agrees l (r.view s.bulk_store) w g s.cache keeps a in
      rw (d.0) (refl, (d.1, subst (Agrees l (Option.map g s.cache)) (sym d.2) after), d.2)

  -- A call of the bulk store that leaves its tables.
  pub pass-Does :
      {A : Type 0} (m : Action S StateError A) (s : CachedStateStore l S) (a : A)
      → Agrees l s.cache (r.view s.bulk_store)
      → Does r (m s.bulk_store) a (r.view s.bulk_store)
      → Does (cached_reading l r) (on_bulk m s) a (r.view s.bulk_store)
  pass-Does m s a agrees d = (d.0, (d.1, subst (Agrees l s.cache) (sym d.2) agrees), d.2)

  hit-Does :
      {V : Type 0} (hit o : Option V) (fetch : Action S StateError (Option V))
      (store : V → LocalCache l → LocalCache l) (s : CachedStateStore l S)
      → (hit ≡ none) ⊎ (hit ≡ o)
      → r.Valid s.bulk_store
      → Agrees l s.cache (r.view s.bulk_store)
      → Does r (fetch s.bulk_store) o (r.view s.bulk_store)
      → ((v : V) (c : LocalCache l)
          → o ≡ some v
          → IsCoherent l c (r.view s.bulk_store)
          → IsCoherent l (store v c) (r.view s.bulk_store))
      → Does (cached_reading l r) (hit_or_fetch hit fetch store s) o (r.view s.bulk_store)
  hit-Does (some v) o fetch store s e valid a d keeps =
      (elim e [ inl p ↦ absurd (cc p) | inr p ↦ ap ok p ], (valid, a), refl)
  hit-Does none none fetch store s e valid a d keeps =
      rw (d.0) (refl, (d.1, subst (Agrees l s.cache) (sym d.2) a), d.2)
  hit-Does none (some v) fetch store s e valid a d keeps =
      let after =
        map-Agrees l (r.view s.bulk_store) (r.view s.bulk_store) (store v) s.cache
          (λ c. keeps v c refl) a in
      rw (d.0) (refl, (d.1, subst (Agrees l (Option.map (store v) s.cache)) (sym d.2) after), d.2)

  pub read-Does :
      {V : Type 0} (o : Option V) (look : LocalCache l → LocalCache l × Option V)
      (fetch : Action S StateError (Option V)) (store : V → LocalCache l → LocalCache l)
      (s : CachedStateStore l S)
      → r.Valid s.bulk_store
      → Agrees l s.cache (r.view s.bulk_store)
      → ((c : LocalCache l)
          → IsCoherent l c (r.view s.bulk_store)
          → IsCoherent l (look c).0 (r.view s.bulk_store)
            × (((look c).1 ≡ none) ⊎ ((look c).1 ≡ o)))
      → Does r (fetch s.bulk_store) o (r.view s.bulk_store)
      → ((v : V) (c : LocalCache l)
          → o ≡ some v
          → IsCoherent l c (r.view s.bulk_store)
          → IsCoherent l (store v c) (r.view s.bulk_store))
      → Does (cached_reading l r) (read_through look fetch store s) o (r.view s.bulk_store)
  unfolding read_through
  read-Does o look fetch store s valid a looks d keeps =
      let (b, hit) = look_in-Agrees l (r.view s.bulk_store) o look s.cache looks a in
      hit-Does (look_in look s.cache).1 o fetch store
        (record s { cache = (look_in look s.cache).0 }) hit valid b d keeps
