-- ===== src/Cached/Coherent.antt =====
-- What the cache holds agrees with the bulk store, as long as no other server writes to it.
use rustsmb.Base.{
  ℕ, ◌≡◌, ◌≢◌, ◌⊎◌, refl, sym, ap, ◌∙◌, false, Option, none, some, inl, inr, nat_key, pair_key, Key,
  ◌==◌, nat_eq_iff, Bool-cases, arith,
}
use rustsmb.State.Store.Lawful.{View, put}
use rustsmb.Cached.{Lru, CacheEntry, LocalCache, is_valid, is_stale, answer, look_up}

-- What the documentation of `lru::LruCache` says: `get` answers what is stored and leaves it stored,
-- after `put` and `pop` an entry is the one put, or was there under another key.
pub record IsLru (l : Lru) : Type 1 where
  pub find-make :
      {K V : Type 0} ⦃q : Key K⦄ (n : ℕ) (k : K) → l.find k (l.make {K = K} {V = V} n) ≡ none
  pub get-finds : {K V : Type 0} ⦃q : Key K⦄ (k : K) (c : l.Cache K V) → (l.get k c).1 ≡ l.find k c
  pub find-get :
      {K V : Type 0} ⦃q : Key K⦄ (k j : K) (c : l.Cache K V) → l.find j (l.get k c).0 ≡ l.find j c
  pub put_cases :
      {K V : Type 0} ⦃q : Key K⦄ (k j : K) (v w : V) (c : l.Cache K V)
      → l.find j (l.put k v c) ≡ some w
      → ((k ≡ j) × (v ≡ w)) ⊎ ((k ≢ j) × (l.find j c ≡ some w))
  pub pop_cases :
      {K V : Type 0} ⦃q : Key K⦄ (k j : K) (w : V) (c : l.Cache K V)
      → l.find j (l.pop k c) ≡ some w
      → (k ≢ j) × (l.find j c ≡ some w)

-- Each entry of the epoch is what the table says.
abbrev pub Holds :
    (l : Lru) {K V : Type 0} ⦃q : Key K⦄ → ℕ → l.Cache K (CacheEntry V) → (K → Option V) → Type 0
Holds l {K} {V} epoch c f =
    (k : K) (e : CacheEntry V) → l.find k c ≡ some e → e.epoch ≡ epoch → f k ≡ some e.payload

pub record IsCoherent (l : Lru) (c : LocalCache l) (w : View) : Type 0 where
  pub sessions : Holds l c.current_epoch c.sessions w.sessions
  pub trees : Holds l c.current_epoch c.trees w.trees
  pub handles : Holds l c.current_epoch c.handles w.handles

module _ (l : Lru) (law : IsLru l) {K V : Type 0} ⦃q : Key K⦄ (epoch : ℕ)
    (c : l.Cache K (CacheEntry V)) (f : K → Option V) (h : Holds l epoch c f) where
  pub Holds-put : (k : K) (e : CacheEntry V) → Holds l epoch (l.put k e c) (put k e.payload f)
  Holds-put k e j x at now = elim (law.put_cases k j e x c at) [
    | inl (p, same) ↦ ground (arith, q.same_iff k j, ap (λ (y : CacheEntry V). y.payload) same)
    | inr (n, old) ↦ ground (arith, q.same_iff k j, h j x old now)
  ]

  -- An entry that the table has may be put into the cache.
  pub Holds-put_known :
      (k : K) (e : CacheEntry V) → f k ≡ some e.payload → Holds l epoch (l.put k e c) f
  Holds-put_known k e known j x at now = elim (law.put_cases k j e x c at) [
    | inl (p, same) ↦ ap f (sym p) ∙ known ∙ ap (λ (y : CacheEntry V). some y.payload) same
    | inr (n, old) ↦ h j x old now
  ]

  -- An entry may be dropped where the table changes at its key only.
  pub Holds-pop :
      (k : K) (g : K → Option V)
      → ((j : K) → (k == j) ≡ false → g j ≡ f j)
      → Holds l epoch (l.pop k c) g
  Holds-pop k g same j x at now =
      let (n, old) = law.pop_cases k j x c at in
      same j (ground (arith, q.same_iff k j)) ∙ h j x old now

  Holds-get : (k : K) → Holds l epoch (l.get k c).0 f
  Holds-get k j x at now = h j x (sym (law.find-get k j c) ∙ at) now

  answer_lem :
      (now : ℕ) (k : K) (found : Option (CacheEntry V))
      → ((e : CacheEntry V) → found ≡ some e → e.epoch ≡ epoch → f k ≡ some e.payload)
      → Holds l epoch (answer l now epoch k c found).0 f
        × (((answer l now epoch k c found).1 ≡ none) ⊎ ((answer l now epoch k c found).1 ≡ f k))
  unfolding is_valid is_stale
  answer_lem now k none exact = (h, inl refl)
  answer_lem now k (some e) exact = elim (Bool-cases (is_valid now epoch e)) [
    | inl valid ↦
        let current : e.epoch ≡ epoch = ground (arith, nat_eq_iff e.epoch epoch) in
        rw valid (h, inr (sym (exact e refl current)))
    | inr invalid ↦ rw invalid (Holds-pop k f (λ j n. refl), inl refl)
  ]

-- Looking up keeps the cache in agreement, and what it answers is what the table says.
pub look_up_lem :
    (l : Lru) (law : IsLru l) {K V : Type 0} ⦃q : Key K⦄ (now epoch : ℕ) (k : K)
    (c : l.Cache K (CacheEntry V)) (f : K → Option V)
    → Holds l epoch c f
    → Holds l epoch (look_up l now epoch k c).0 f
      × (((look_up l now epoch k c).1 ≡ none) ⊎ ((look_up l now epoch k c).1 ≡ f k))
unfolding look_up
look_up_lem l law now epoch k c f h =
    answer_lem l law epoch (l.get k c).0 f (Holds-get l law epoch c f h k) now k (l.get k c).1
      (λ e at current. h k e (sym (law.get-finds k c) ∙ at) current)
