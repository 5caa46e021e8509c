-- ===== src/Cached/Epochs.antt =====
-- Entries of an old epoch are not answered: after the epoch rises, the cache agrees with whatever the
-- bulk store holds by then.
use rustsmb.Base.{
  ℕ, ◌+◌, ◌^◌, ◌≤◌, ◌<◌, ◌≡◌, sym, subst, ◌∙◌, Option, none, some, max, inl, inr, nat_key, pair_key,
  Key, add_u64, Bool-cases, Option-cases, nat_eq_iff, refl, false, arith,
}
use rustsmb.State.Types.{SessionState, TreeState, HandleState}
use rustsmb.State.Store.Lawful.{View}
use rustsmb.Cached.{
  Lru, CacheConfig, CacheEntry, LocalCache, new, set_epoch, invalidate_all, entry, answer, look_up,
  is_valid, is_stale, get_session, put_session, remove_session, get_handle, put_handle,
  remove_handle, get_tree, put_tree, remove_tree,
}
use rustsmb.Cached.Coherent.{IsLru, IsCoherent, Holds}

-- No entry is of a later epoch than `n`.
abbrev Dated : (l : Lru) {K V : Type 0} ⦃q : Key K⦄ → ℕ → l.Cache K (CacheEntry V) → Type 0
Dated l {K} {V} n c = (k : K) (e : CacheEntry V) → l.find k c ≡ some e → e.epoch ≤ n

record IsDated (l : Lru) (c : LocalCache l) : Type 0 where
  sessions : Dated l c.current_epoch c.sessions
  trees : Dated l c.current_epoch c.trees
  handles : Dated l c.current_epoch c.handles

-- What a server does with its cache: epochs only rise.
pub data CacheRun (l : Lru) : LocalCache l → Type 0 where
  begin : (config : CacheConfig) → CacheRun l (new l config)
  raising :
      {c : LocalCache l} (epoch : ℕ)
      → CacheRun l c
      → c.current_epoch ≤ epoch
      → CacheRun l (set_epoch l epoch c)
  invalidating :
      {c : LocalCache l}
      → CacheRun l c
      → c.current_epoch + 1 < 2 ^ 64
      → CacheRun l (invalidate_all l c)
  putting_session :
      {c : LocalCache l} (now : ℕ) (x : SessionState)
      → CacheRun l c
      → CacheRun l (put_session l now x c)
  removing_session : {c : LocalCache l} (id : ℕ) → CacheRun l c → CacheRun l (remove_session l id c)
  reading_session :
      {c : LocalCache l} (now : ℕ) (id : ℕ) → CacheRun l c → CacheRun l (get_session l now id c).0
  putting_handle :
      {c : LocalCache l} (now : ℕ) (x : HandleState)
      → CacheRun l c
      → CacheRun l (put_handle l now x c)
  removing_handle : {c : LocalCache l} (id : ℕ) → CacheRun l c → CacheRun l (remove_handle l id c)
  reading_handle :
      {c : LocalCache l} (now : ℕ) (id : ℕ) → CacheRun l c → CacheRun l (get_handle l now id c).0
  putting_tree :
      {c : LocalCache l} (now : ℕ) (x : TreeState) → CacheRun l c → CacheRun l (put_tree l now x c)
  removing_tree : {c : LocalCache l} (id : (ℕ × ℕ)) → CacheRun l c → CacheRun l (remove_tree l id c)
  reading_tree :
      {c : LocalCache l} (now : ℕ) (id : (ℕ × ℕ))
      → CacheRun l c
      → CacheRun l (get_tree l now id c).0

module _ (l : Lru) (law : IsLru l) {K V : Type 0} ⦃q : Key K⦄ (n : ℕ) (c : l.Cache K (CacheEntry V))
    (h : Dated l n c) where
  Dated-put : (k : K) (e : CacheEntry V) → e.epoch ≤ n → Dated l n (l.put k e c)
  Dated-put k e old j x at = elim (law.put_cases k j e x c at) [
    | inl (p, same) ↦ subst (λ (y : CacheEntry V). y.epoch ≤ n) same old
    | inr (d, there) ↦ h j x there
  ]

  Dated-pop : (k : K) → Dated l n (l.pop k c)
  Dated-pop k j x at = h j x (law.pop_cases k j x c at).1

  Dated-get : (k : K) → Dated l n (l.get k c).0
  Dated-get k j x at = h j x (sym (law.find-get k j c) ∙ at)

  Dated-answer :
      (now epoch : ℕ) (k : K) (found : Option (CacheEntry V))
      → Dated l n (answer l now epoch k c found).0
  Dated-answer now epoch k none = h
  Dated-answer now epoch k (some e) = elim (Bool-cases (is_valid now epoch e)) [
    | inl valid ↦ rw valid h
    | inr invalid ↦ rw invalid (Dated-pop k)
  ]

Dated-look_up :
    (l : Lru) (law : IsLru l) {K V : Type 0} ⦃q : Key K⦄ (n now epoch : ℕ) (k : K)
    (c : l.Cache K (CacheEntry V))
    → Dated l n c
    → Dated l n (look_up l now epoch k c).0
unfolding look_up
Dated-look_up l law n now epoch k c h =
    Dated-answer l law n (l.get k c).0 (Dated-get l law n c h k) now epoch k (l.get k c).1

Dated-mono :
    (l : Lru) {K V : Type 0} ⦃q : Key K⦄ (m n : ℕ) (c : l.Cache K (CacheEntry V))
    → m ≤ n
    → Dated l m c
    → Dated l n c
Dated-mono l m n c le h k e at = omega (arith, h k e at)

Dated-make :
    (l : Lru) (law : IsLru l) {K V : Type 0} ⦃q : Key K⦄ (n m : ℕ)
    → Dated l n (l.make {K = K} {V = CacheEntry V} m)
Dated-make l law {V = W} n m k e at = absurd (cc (at, law.find-make {V = CacheEntry W} m k))

risen :
    (l : Lru) (epoch : ℕ) (c : LocalCache l)
    → c.current_epoch ≤ epoch
    → IsDated l c
    → IsDated l (record c { current_epoch = epoch })
risen l epoch c le v = record {
  sessions = Dated-mono l c.current_epoch epoch c.sessions le v.sessions;
  trees = Dated-mono l c.current_epoch epoch c.trees le v.trees;
  handles = Dated-mono l c.current_epoch epoch c.handles le v.handles;
}

CacheRun-IsDated : (l : Lru) (law : IsLru l) {c : LocalCache l} → CacheRun l c → IsDated l c
unfolding new set_epoch invalidate_all entry put_session remove_session get_session put_handle
    remove_handle get_handle put_tree remove_tree get_tree
CacheRun-IsDated l law (begin config) = record {
  sessions = Dated-make l law 1 (max config.max_sessions 1);
  trees = Dated-make l law 1 (max config.max_trees 1);
  handles = Dated-make l law 1 (max config.max_handles 1);
}
CacheRun-IsDated l law (raising {c} epoch run le) = risen l epoch c le (CacheRun-IsDated l law run)
CacheRun-IsDated l law (invalidating {c} run fits) =
    risen l (add_u64 c.current_epoch 1) c (omega arith) (CacheRun-IsDated l law run)
CacheRun-IsDated l law (putting_session {c} now x run) =
    let v = CacheRun-IsDated l law run in
    record {
      sessions =
          Dated-put l law c.current_epoch c.sessions v.sessions x.session_id (entry l now x c)
            (omega arith);
      trees = v.trees;
      handles = v.handles;
    }
CacheRun-IsDated l law (removing_session {c} id run) =
    let v = CacheRun-IsDated l law run in
    record {
      sessions = Dated-pop l law c.current_epoch c.sessions v.sessions id;
      trees = v.trees;
      handles = v.handles;
    }
CacheRun-IsDated l law (reading_session {c} now id run) =
    let v = CacheRun-IsDated l law run in
    record {
      sessions = Dated-look_up l law c.current_epoch now c.current_epoch id c.sessions v.sessions;
      trees = v.trees;
      handles = v.handles;
    }
CacheRun-IsDated l law (putting_handle {c} now x run) =
    let v = CacheRun-IsDated l law run in
    record {
      handles =
          Dated-put l law c.current_epoch c.handles v.handles x.persistent_id (entry l now x c)
            (omega arith);
      sessions = v.sessions;
      trees = v.trees;
    }
CacheRun-IsDated l law (removing_handle {c} id run) =
    let v = CacheRun-IsDated l law run in
    record {
      handles = Dated-pop l law c.current_epoch c.handles v.handles id;
      sessions = v.sessions;
      trees = v.trees;
    }
CacheRun-IsDated l law (reading_handle {c} now id run) =
    let v = CacheRun-IsDated l law run in
    record {
      handles = Dated-look_up l law c.current_epoch now c.current_epoch id c.handles v.handles;
      sessions = v.sessions;
      trees = v.trees;
    }
CacheRun-IsDated l law (putting_tree {c} now x run) =
    let v = CacheRun-IsDated l law run in
    record {
      trees =
          Dated-put l law c.current_epoch c.trees v.trees (x.session_id, x.tree_id)
            (entry l now x c) (omega arith);
      sessions = v.sessions;
      handles = v.handles;
    }
CacheRun-IsDated l law (removing_tree {c} id run) =
    let v = CacheRun-IsDated l law run in
    record {
      trees = Dated-pop l law c.current_epoch c.trees v.trees id;
      sessions = v.sessions;
      handles = v.handles;
    }
CacheRun-IsDated l law (reading_tree {c} now id run) =
    let v = CacheRun-IsDated l law run in
    record {
      trees = Dated-look_up l law c.current_epoch now c.current_epoch id c.trees v.trees;
      sessions = v.sessions;
      handles = v.handles;
    }

-- A look-up at a later epoch than all entries finds nothing.
look_up_unanswered :
    (l : Lru) (law : IsLru l) {K V : Type 0} ⦃q : Key K⦄ (n now epoch : ℕ) (k : K)
    (c : l.Cache K (CacheEntry V))
    → Dated l n c
    → n < epoch
    → (look_up l now epoch k c).1 ≡ none
unfolding look_up is_valid is_stale
look_up_unanswered l law n now epoch k c h less = elim (Option-cases (l.get k c).1) [
  | inl miss ↦ rw miss refl
  | inr (e, hit) ↦
      let old = h k e (sym (law.get-finds k c) ∙ hit) in
      let invalid : is_valid now epoch e ≡ false = ground (arith, nat_eq_iff e.epoch epoch) in
      rw hit rw invalid refl
]

outdated :
    (l : Lru) {K V : Type 0} ⦃q : Key K⦄ (m n : ℕ) (c : l.Cache K (CacheEntry V)) (f : K → Option V)
    → m < n
    → Dated l m c
    → Holds l n c f
outdated l m n c f less h k e at now = absurd (omega (arith, h k e at))

set_epoch-IsCoherent :
    (l : Lru) (law : IsLru l) (c : LocalCache l) (epoch : ℕ) (w : View)
    → CacheRun l c
    → c.current_epoch < epoch
    → IsCoherent l (set_epoch l epoch c) w
unfolding set_epoch
set_epoch-IsCoherent l law c epoch w run less =
    let v = CacheRun-IsDated l law run in
    record {
      sessions = outdated l c.current_epoch epoch c.sessions w.sessions less v.sessions;
      trees = outdated l c.current_epoch epoch c.trees w.trees less v.trees;
      handles = outdated l c.current_epoch epoch c.handles w.handles less v.handles;
    }

-- After any run of a cache whose epochs only rise, `set_epoch` with a later epoch than its own leaves no
-- entry that is answered: at whatever time and for whatever key, `get_session`, `get_tree` and
-- `get_handle` find nothing. So the cache agrees with any tables at all, whatever other servers wrote.
pub set_epoch-unanswered :
    (l : Lru) (law : IsLru l) (c : LocalCache l) (epoch now session handle : ℕ) (tree : ℕ × ℕ)
    (w : View)
    → CacheRun l c
    → c.current_epoch < epoch
    → ((get_session l now session (set_epoch l epoch c)).1 ≡ none)
      × ((get_tree l now tree (set_epoch l epoch c)).1 ≡ none)
      × ((get_handle l now handle (set_epoch l epoch c)).1 ≡ none)
      × IsCoherent l (set_epoch l epoch c) w
unfolding set_epoch get_session get_tree get_handle
set_epoch-unanswered l law c epoch now session handle tree w run less =
    let v = CacheRun-IsDated l law run in
    (
      look_up_unanswered l law c.current_epoch now epoch session c.sessions v.sessions less,
      look_up_unanswered l law c.current_epoch now epoch tree c.trees v.trees less,
      look_up_unanswered l law c.current_epoch now epoch handle c.handles v.handles less,
      set_epoch-IsCoherent l law c epoch w run less,
    )
