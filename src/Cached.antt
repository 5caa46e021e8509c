-- ===== src/Cached.antt =====
-- crates/rustsmb-state-cached: a state store with a local cache before another store, and the epochs
-- that invalidate the cache. `now` is what the clock reads. The LRU cache of the crate `lru` is a
-- parameter.
pub mod Coherent
pub mod Follows
pub mod AsStore
pub mod Lawful
pub mod Epochs
mod Examples
use rustsmb.Base.{
  ℕ, ◌-◌, Bool, true, false, not, ◌&&◌, Option, none, some, List, max, nat_key, pair_key, Key, ◌==◌,
  ltb, add_u64, if◌then◌else◌,
}
use mathlib.Core.Option
use rustsmb.Core.{StateError}
use rustsmb.Core.Action.{Action, ok, pure, ◌>>=◌, ◌>>◌}
use rustsmb.State.Types.{SessionState, TreeState, HandleState}
use rustsmb.State.Store.{StateStore}

-- `lru::LruCache`: `get` also marks the entry as used, `put` may drop an entry, and `find` is what is
-- stored at a key, for the laws.
pub record Lru : Type 1 where
  pub Cache : Type 0 → Type 0 → Type 0
  pub make : {K V : Type 0} → ℕ → Cache K V
  pub find : {K V : Type 0} ⦃q : Key K⦄ → K → Cache K V → Option V
  pub get : {K V : Type 0} ⦃q : Key K⦄ → K → Cache K V → Cache K V × Option V
  pub put : {K V : Type 0} ⦃q : Key K⦄ → K → V → Cache K V → Cache K V
  pub pop : {K V : Type 0} ⦃q : Key K⦄ → K → Cache K V → Cache K V

pub record CacheConfig : Type 0 where
  pub max_sessions : ℕ
  pub max_handles : ℕ
  pub max_trees : ℕ
  pub default_ttl : ℕ

-- The field `data` is `payload` here.
pub record CacheEntry (V : Type 0) : Type 0 where
  pub payload : V
  pub epoch : ℕ
  cached_at : ℕ
  pub ttl : ℕ

module _ {V : Type 0} where
  unfoldable pub is_expired : ℕ → CacheEntry V → Bool
  is_expired now e = ltb e.ttl (now - e.cached_at)

  unfoldable pub is_stale : ℕ → CacheEntry V → Bool
  is_stale current_epoch e = not (e.epoch == current_epoch)

  unfoldable pub is_valid : ℕ → ℕ → CacheEntry V → Bool
  unfolding is_expired is_stale
  is_valid now current_epoch e = not (is_expired now e) && not (is_stale current_epoch e)

pub record LocalCache (l : Lru) : Type 0 where
  pub sessions : l.Cache ℕ (CacheEntry SessionState)
  pub handles : l.Cache ℕ (CacheEntry HandleState)
  pub trees : l.Cache (ℕ × ℕ) (CacheEntry TreeState)
  pub current_epoch : ℕ
  pub config : CacheConfig

-- The store's state: its cache, where there is one, and the bulk store's state.
pub record CachedStateStore (l : Lru) (S : Type 0) : Type 0 where
  pub cache : Option (LocalCache l)
  pub bulk_store : S

module _ (l : Lru) where
  unfoldable pub new : CacheConfig → LocalCache l
  new config = record {
    sessions = l.make (max config.max_sessions 1);
    handles = l.make (max config.max_handles 1);
    trees = l.make (max config.max_trees 1);
    current_epoch = 1;
    config = config;
  }

  unfoldable pub set_epoch : ℕ → LocalCache l → LocalCache l
  set_epoch epoch c = record c { current_epoch = epoch }

  unfoldable pub invalidate_all : LocalCache l → LocalCache l
  invalidate_all c = record c { current_epoch = add_u64 c.current_epoch 1 }

  unfoldable pub entry : {V : Type 0} → ℕ → V → LocalCache l → CacheEntry V
  entry now v c = record {
    payload = v;
    epoch = c.current_epoch;
    cached_at = now;
    ttl = c.config.default_ttl;
  }

  -- What is answered for the entry found; an entry that is not valid is removed.
  abbrev pub answer :
      {K V : Type 0} ⦃q : Key K⦄
      → ℕ
      → ℕ
      → K
      → l.Cache K (CacheEntry V)
      → Option (CacheEntry V)
      → l.Cache K (CacheEntry V) × Option V
  answer now epoch key used none = (used, none)
  answer now epoch key used (some e) =
      if is_valid now epoch e then (used, some e.payload) else (l.pop key used, none)

  -- The common body of `get_session`, `get_handle` and `get_tree`.
  unfoldable pub look_up :
      {K V : Type 0} ⦃q : Key K⦄
      → ℕ
      → ℕ
      → K
      → l.Cache K (CacheEntry V)
      → l.Cache K (CacheEntry V) × Option V
  look_up now epoch key cache =
      let (used, found) = l.get key cache in answer now epoch key used found

  unfoldable pub get_session : ℕ → ℕ → LocalCache l → LocalCache l × Option SessionState
  unfolding look_up
  get_session now id c =
      let (sessions, found) = look_up now c.current_epoch id c.sessions in
      (record c { sessions = sessions }, found)

  unfoldable pub put_session : ℕ → SessionState → LocalCache l → LocalCache l
  unfolding entry
  put_session now x c = record c { sessions = l.put x.session_id (entry now x c) c.sessions }

  unfoldable pub remove_session : ℕ → LocalCache l → LocalCache l
  remove_session id c = record c { sessions = l.pop id c.sessions }

  unfoldable pub get_handle : ℕ → ℕ → LocalCache l → LocalCache l × Option HandleState
  unfolding look_up
  get_handle now id c =
      let (handles, found) = look_up now c.current_epoch id c.handles in
      (record c { handles = handles }, found)

  unfoldable pub put_handle : ℕ → HandleState → LocalCache l → LocalCache l
  unfolding entry
  put_handle now h c = record c { handles = l.put h.persistent_id (entry now h c) c.handles }

  unfoldable pub remove_handle : ℕ → LocalCache l → LocalCache l
  remove_handle id c = record c { handles = l.pop id c.handles }

  unfoldable pub get_tree : ℕ → ℕ × ℕ → LocalCache l → LocalCache l × Option TreeState
  unfolding look_up
  get_tree now key c =
      let (trees, found) = look_up now c.current_epoch key c.trees in
      (record c { trees = trees }, found)

  unfoldable pub put_tree : ℕ → TreeState → LocalCache l → LocalCache l
  unfolding entry
  put_tree now t c = record c { trees = l.put (t.session_id, t.tree_id) (entry now t c) c.trees }

  unfoldable pub remove_tree : ℕ × ℕ → LocalCache l → LocalCache l
  remove_tree key c = record c { trees = l.pop key c.trees }

module _ {l : Lru} where
  abbrev pub look_in :
      {V : Type 0}
      → (LocalCache l → LocalCache l × Option V)
      → Option (LocalCache l)
      → Option (LocalCache l) × Option V
  look_in look none = (none, none)
  look_in look (some c) = let (used, found) = look c in (some used, found)

module _ {l : Lru} {S : Type 0} where
  -- `self.bulk_store.op(...)`
  abbrev pub on_bulk : {E A : Type 0} → Action S E A → Action (CachedStateStore l S) E A
  on_bulk m s = let (r, b) = m s.bulk_store in (r, record s { bulk_store = b })

  -- `if let Some(cache) = &self.cache { cache.op(...) }`
  abbrev pub on_cache :
      {E : Type 0} → (LocalCache l → LocalCache l) → Action (CachedStateStore l S) E (Unit {0})
  on_cache f s = (ok tt, record s { cache = Option.map f s.cache })

  abbrev pub remember :
      {E V : Type 0}
      → (V → LocalCache l → LocalCache l)
      → Option V
      → Action (CachedStateStore l S) E (Unit {0})
  remember store none = pure tt
  remember store (some v) = on_cache (store v)

  abbrev pub hit_or_fetch :
      {E V : Type 0}
      → Option V
      → Action S E (Option V)
      → (V → LocalCache l → LocalCache l)
      → Action (CachedStateStore l S) E (Option V)
  hit_or_fetch (some v) fetch store = pure (some v)
  hit_or_fetch none fetch store = on_bulk fetch >>= λ found. remember store found >> pure found

  -- The common body of the three reading operations: the cache first, then the bulk store, whose
  -- answer is cached.
  unfoldable pub read_through :
      {E V : Type 0}
      → (LocalCache l → LocalCache l × Option V)
      → Action S E (Option V)
      → (V → LocalCache l → LocalCache l)
      → Action (CachedStateStore l S) E (Option V)
  read_through look fetch store s =
      let (cache, hit) = look_in look s.cache in
      hit_or_fetch hit fetch store (record s { cache = cache })

-- The store at the time `now` before the store `bulk`.
abbrev pub cached_store :
    {S : Type 0} → ℕ → (l : Lru) → StateStore S → StateStore (CachedStateStore l S)
cached_store now l bulk = record {
  create_session = λ x. on_bulk (bulk.create_session x) >> on_cache (put_session l now x);
  get_session = λ id. read_through (get_session l now id) (bulk.get_session id) (put_session l now);
  update_session = λ x. on_bulk (bulk.update_session x) >> on_cache (put_session l now x);
  delete_session = λ id. on_bulk (bulk.delete_session id) >> on_cache (remove_session l id);
  refresh_session =
      λ now id ttl. on_bulk (bulk.refresh_session now id ttl) >> on_cache (remove_session l id);
  create_tree = λ t. on_bulk (bulk.create_tree t) >> on_cache (put_tree l now t);
  get_tree = λ session tree.
      read_through (get_tree l now (session, tree)) (bulk.get_tree session tree) (put_tree l now);
  get_trees_by_session = λ session. on_bulk (bulk.get_trees_by_session session);
  delete_tree = λ session tree.
      on_bulk (bulk.delete_tree session tree) >> on_cache (remove_tree l (session, tree));
  create_handle = λ h. on_bulk (bulk.create_handle h) >> on_cache (put_handle l now h);
  get_handle = λ id. read_through (get_handle l now id) (bulk.get_handle id) (put_handle l now);
  update_handle = λ h. on_bulk (bulk.update_handle h) >> on_cache (put_handle l now h);
  get_handles_by_session = λ session. on_bulk (bulk.get_handles_by_session session);
  delete_handle = λ id. on_bulk (bulk.delete_handle id) >> on_cache (remove_handle l id);
  delete_lease = λ key. on_bulk (bulk.delete_lease key);
  next_session_id = on_bulk bulk.next_session_id;
  next_tree_id = λ session. on_bulk (bulk.next_tree_id session);
  next_handle_id = on_bulk bulk.next_handle_id;
}
