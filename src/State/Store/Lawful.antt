-- ===== src/State/Store/Lawful.antt =====
-- What a state store promises: that it is three tables, whatever it keeps them in. A store that
-- refuses an operation, as one does that has lost its connection, is not lawful.
use rustsmb.Base.{
  ℕ, ◌≡◌, ◌↔◌, String, Option, none, some, List, In, nat_key, pair_key, Key, ◌==◌, add_u64,
  if◌then◌else◌,
}
use mathlib.Core.Option
use rustsmb.Core.{StateError}
use rustsmb.Core.Action.{Result, ok}
use rustsmb.State.Types.{SessionState, TreeState, HandleState}
use rustsmb.State.Store.{StateStore}

-- The tables of a store, by key; a tree's key is its session and its ID.
pub record View : Type 0 where
  pub sessions : ℕ → Option SessionState
  pub trees : ℕ × ℕ → Option TreeState
  pub handles : ℕ → Option HandleState

module _ {K V : Type 0} ⦃q : Key K⦄ where
  abbrev pub put : K → V → (K → Option V) → K → Option V
  put k v f j = if k == j then some v else f j

  abbrev pub drop : K → (K → Option V) → K → Option V
  drop k f j = if k == j then none else f j

  abbrev pub change : K → (V → V) → (K → Option V) → K → Option V
  change k g f j = if k == j then Option.map g (f j) else f j

-- The session with its time of access and of expiry set.
abbrev pub extended : ℕ → ℕ → SessionState → SessionState
extended now ttl x = record x { last_access = now; expires_at = add_u64 now ttl }

-- How a store's state is read: which states are well-formed, and what their tables are.
pub record Reading (S : Type 0) : Type 1 where
  pub Valid : S → Type 0
  pub view : S → View

module _ {S : Type 0} (r : Reading S) where
  -- The step answers `a` and ends in a well-formed state with the tables `w`.
  abbrev pub Does : {A : Type 0} → Result StateError A × S → A → View → Type 0
  Does (result, s) a w = (result ≡ ok a) × r.Valid s × (r.view s ≡ w)

  -- The step answers a list of exactly the elements that `P` holds of, and leaves the tables.
  abbrev pub Lists : {A : Type 0} → Result StateError (List A) × S → (A → Type 0) → View → Type 0
  Lists {A} step P w = (xs : List A) × Does step xs w × ((a : A) → In a xs ↔ P a)

  -- Each operation, from a well-formed state.
  pub record IsStateStore (store : StateStore S) : Type 0 where
    pub session_key :
        (s : S) (id : ℕ) (x : SessionState)
        → r.Valid s
        → (r.view s).sessions id ≡ some x
        → x.session_id ≡ id
    pub handle_key :
        (s : S) (id : ℕ) (h : HandleState)
        → r.Valid s
        → (r.view s).handles id ≡ some h
        → h.persistent_id ≡ id
    pub tree_key :
        (s : S) (k : ℕ × ℕ) (t : TreeState)
        → r.Valid s
        → (r.view s).trees k ≡ some t
        → (t.session_id, t.tree_id) ≡ k
    pub create_session_does :
        (x : SessionState) (s : S)
        → r.Valid s
        → Does
            (store.create_session x s)
            tt
            (record (r.view s) { sessions = put x.session_id x (r.view s).sessions })
    pub get_session_does :
        (id : ℕ) (s : S)
        → r.Valid s
        → Does (store.get_session id s) ((r.view s).sessions id) (r.view s)
    pub update_session_does :
        (x : SessionState) (s : S)
        → r.Valid s
        → Does
            (store.update_session x s)
            tt
            (record (r.view s) { sessions = put x.session_id x (r.view s).sessions })
    pub delete_session_does :
        (id : ℕ) (s : S)
        → r.Valid s
        → Does
            (store.delete_session id s)
            tt
            (record (r.view s) { sessions = drop id (r.view s).sessions })
    pub refresh_session_does :
        (now id ttl : ℕ) (s : S)
        → r.Valid s
        → Does
            (store.refresh_session now id ttl s)
            tt
            (record (r.view s) { sessions = change id (extended now ttl) (r.view s).sessions })
    pub create_tree_does :
        (t : TreeState) (s : S)
        → r.Valid s
        → Does
            (store.create_tree t s)
            tt
            (record (r.view s) { trees = put (t.session_id, t.tree_id) t (r.view s).trees })
    pub get_tree_does :
        (session tree : ℕ) (s : S)
        → r.Valid s
        → Does (store.get_tree session tree s) ((r.view s).trees (session, tree)) (r.view s)
    pub trees_by_session_does :
        (session : ℕ) (s : S)
        → r.Valid s
        → Lists
            (store.get_trees_by_session session s)
            (λ t. (t.session_id ≡ session) × ((r.view s).trees (session, t.tree_id) ≡ some t))
            (r.view s)
    pub delete_tree_does :
        (session tree : ℕ) (s : S)
        → r.Valid s
        → Does
            (store.delete_tree session tree s)
            tt
            (record (r.view s) { trees = drop (session, tree) (r.view s).trees })
    pub create_handle_does :
        (h : HandleState) (s : S)
        → r.Valid s
        → Does
            (store.create_handle h s)
            tt
            (record (r.view s) { handles = put h.persistent_id h (r.view s).handles })
    pub get_handle_does :
        (id : ℕ) (s : S)
        → r.Valid s
        → Does (store.get_handle id s) ((r.view s).handles id) (r.view s)
    pub update_handle_does :
        (h : HandleState) (s : S)
        → r.Valid s
        → Does
            (store.update_handle h s)
            tt
            (record (r.view s) { handles = put h.persistent_id h (r.view s).handles })
    pub handles_by_session_does :
        (session : ℕ) (s : S)
        → r.Valid s
        → Lists
            (store.get_handles_by_session session s)
            (λ h. (h.session_id ≡ session) × ((r.view s).handles h.persistent_id ≡ some h))
            (r.view s)
    pub delete_handle_does :
        (id : ℕ) (s : S)
        → r.Valid s
        → Does
            (store.delete_handle id s)
            tt
            (record (r.view s) { handles = drop id (r.view s).handles })
    pub delete_lease_does :
        (key : String) (s : S) → r.Valid s → Does (store.delete_lease key s) tt (r.view s)
