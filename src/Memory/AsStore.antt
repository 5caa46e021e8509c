-- ===== src/Memory/AsStore.antt =====
-- crates/rustsmb-state-memory/src/lib.rs, lines 68-245: the in-memory store keeps the contract of a
-- state store.
use rustsmb.Base.{
  ℕ, ◌≡◌, ◌↔◌, refl, sym, ap, subst, Option, some, map, filterb, In, nat_key, pair_key, ◌==◌,
  nat_eq_iff,
}
use rustsmb.Base.Map.{get, values, get-insert, get-remove, get-modify}
use std.Path.{fun_ext}
use rustsmb.State.Types.{SessionState, TreeState, HandleState}
use rustsmb.State.Store.{StateStore}
use rustsmb.State.Store.Lawful.{View, Reading, IsStateStore}
use rustsmb.Memory.{MemoryStateStore}
use rustsmb.Memory
use rustsmb.Memory.Leases
use rustsmb.Base.Keyed.{IsKeyed, IsKeyed-insert, IsKeyed-remove, IsKeyed-modify, values_iff, by_key}

abbrev pub memory_store : StateStore MemoryStateStore
memory_store = record {
  create_session = Memory.create_session;
  get_session = Memory.get_session;
  update_session = Memory.update_session;
  delete_session = Memory.delete_session;
  refresh_session = Memory.refresh_session;
  create_tree = Memory.create_tree;
  get_tree = Memory.get_tree;
  get_trees_by_session = Memory.get_trees_by_session;
  delete_tree = Memory.delete_tree;
  create_handle = Memory.create_handle;
  get_handle = Memory.get_handle;
  update_handle = Memory.update_handle;
  get_handles_by_session = Memory.get_handles_by_session;
  delete_handle = Memory.delete_handle;
  delete_lease = Leases.delete_lease;
  next_session_id = Memory.next_session_id;
  next_tree_id = Memory.next_tree_id;
  next_handle_id = Memory.next_handle_id;
}

-- Each table has its values under their own keys.
pub record IsStore (s : MemoryStateStore) : Type 0 where
  pub sessions : IsKeyed SessionState.session_id s.sessions
  pub trees : IsKeyed (λ (t : TreeState). (t.session_id, t.tree_id)) s.trees
  pub handles : IsKeyed HandleState.persistent_id s.handles

abbrev pub memory_reading : Reading MemoryStateStore
memory_reading = record {
  Valid = IsStore;
  view = λ s. record {
    sessions = λ k. get k s.sessions;
    trees = λ k. get k s.trees;
    handles = λ k. get k s.handles;
  };
}

abbrev with_sessions : MemoryStateStore → (ℕ → Option SessionState) → View
with_sessions s f = record {
  sessions = f;
  trees = λ k. get k s.trees;
  handles = λ k. get k s.handles;
}

abbrev with_trees : MemoryStateStore → (ℕ × ℕ → Option TreeState) → View
with_trees s f = record {
  sessions = λ k. get k s.sessions;
  trees = f;
  handles = λ k. get k s.handles;
}

abbrev with_handles : MemoryStateStore → (ℕ → Option HandleState) → View
with_handles s f = record {
  sessions = λ k. get k s.sessions;
  trees = λ k. get k s.trees;
  handles = f;
}

handle_iff :
    (session : ℕ) (s : MemoryStateStore) (h : HandleState)
    → IsStore s
    → In h (filterb (λ h. h.session_id == session) (values s.handles))
      ↔ ((h.session_id ≡ session) × (get h.persistent_id s.handles ≡ some h))
handle_iff session s h v =
    let exact =
      values_iff HandleState.persistent_id (λ h. h.session_id == session) s.handles h v.handles in
    (
      λ i. ((nat_eq_iff h.session_id session).0 (exact.0 i).0, (exact.0 i).1),
      λ e. exact.1 ((nat_eq_iff h.session_id session).1 e.0, e.1),
    )

tree_iff :
    (session : ℕ) (s : MemoryStateStore) (t : TreeState)
    → IsStore s
    → In t (map (λ e. e.1) (filterb (λ e. e.0.0 == session) s.trees))
      ↔ ((t.session_id ≡ session) × (get (session, t.tree_id) s.trees ≡ some t))
tree_iff session s t v =
    let key : TreeState → ℕ × ℕ = λ t. (t.session_id, t.tree_id) in
    let exact = values_iff key (λ t. t.session_id == session) s.trees t v.trees in
    rw (by_key key (λ k. k.0 == session) s.trees v.trees) (
      λ i.
          let own = (nat_eq_iff t.session_id session).0 (exact.0 i).0 in
          (own, subst (λ z. get (z, t.tree_id) s.trees ≡ some t) own (exact.0 i).1),
      λ e. exact.1 (
        (nat_eq_iff t.session_id session).1 e.0,
        subst (λ z. get (z, t.tree_id) s.trees ≡ some t) (sym e.0) e.1,
      ),
    )

-- The in-memory store keeps the contract of a state store: each of its operations on sessions, trees
-- and handles succeeds from a well-formed state, leaves it well-formed, answers what the tables say,
-- and changes them as the contract says; its lists hold exactly the entries of the session.
pub memory_store-IsStateStore : IsStateStore memory_reading memory_store
unfolding Memory.create_session Memory.update_session Memory.get_session Memory.delete_session
    Memory.refresh_session Memory.create_tree Memory.get_tree Memory.get_trees_by_session
    Memory.delete_tree Memory.create_handle Memory.get_handle Memory.update_handle
    Memory.get_handles_by_session Memory.delete_handle Leases.delete_lease
memory_store-IsStateStore = record {
  session_key = λ s id x v e. v.sessions.keyed id x e;
  handle_key = λ s id x v e. v.handles.keyed id x e;
  tree_key = λ s id x v e. v.trees.keyed id x e;
  create_session_does = λ x s v. (
    refl,
    record {
      sessions = IsKeyed-insert _ x s.sessions v.sessions;
      trees = v.trees;
      handles = v.handles;
    },
    ap (with_sessions s) (fun_ext (λ j. get-insert x.session_id j x s.sessions)),
  );
  update_session_does = λ x s v. (
    refl,
    record {
      sessions = IsKeyed-insert _ x s.sessions v.sessions;
      trees = v.trees;
      handles = v.handles;
    },
    ap (with_sessions s) (fun_ext (λ j. get-insert x.session_id j x s.sessions)),
  );
  get_session_does = λ id s v. (refl, v, refl);
  delete_session_does = λ id s v. (
    refl,
    record {
      sessions = IsKeyed-remove _ id s.sessions v.sessions;
      trees = v.trees;
      handles = v.handles;
    },
    ap (with_sessions s) (fun_ext (λ j. get-remove id j s.sessions)),
  );
  refresh_session_does = λ now id ttl s v. (
    refl,
    record {
      sessions = IsKeyed-modify _ id (Memory.refreshed now ttl) s.sessions (λ x. refl) v.sessions;
      trees = v.trees;
      handles = v.handles;
    },
    ap (with_sessions s) (fun_ext (λ j. get-modify id j (Memory.refreshed now ttl) s.sessions)),
  );
  create_tree_does = λ t s v. (
    refl,
    record {
      sessions = v.sessions;
      trees = IsKeyed-insert _ t s.trees v.trees;
      handles = v.handles;
    },
    ap (with_trees s) (fun_ext (λ j. get-insert (t.session_id, t.tree_id) j t s.trees)),
  );
  get_tree_does = λ session tree s v. (refl, v, refl);
  trees_by_session_does = λ session s v. (
    map (λ e. e.1) (filterb (λ e. e.0.0 == session) s.trees),
    (refl, v, refl),
    λ t. tree_iff session s t v,
  );
  delete_tree_does = λ session tree s v. (
    refl,
    record {
      sessions = v.sessions;
      trees = IsKeyed-remove _ (session, tree) s.trees v.trees;
      handles = v.handles;
    },
    ap (with_trees s) (fun_ext (λ j. get-remove (session, tree) j s.trees)),
  );
  create_handle_does = λ h s v. (
    refl,
    record {
      sessions = v.sessions;
      trees = v.trees;
      handles = IsKeyed-insert _ h s.handles v.handles;
    },
    ap (with_handles s) (fun_ext (λ j. get-insert h.persistent_id j h s.handles)),
  );
  get_handle_does = λ id s v. (refl, v, refl);
  update_handle_does = λ h s v. (
    refl,
    record {
      sessions = v.sessions;
      trees = v.trees;
      handles = IsKeyed-insert _ h s.handles v.handles;
    },
    ap (with_handles s) (fun_ext (λ j. get-insert h.persistent_id j h s.handles)),
  );
  handles_by_session_does = λ session s v. (
    filterb (λ h. h.session_id == session) (values s.handles),
    (refl, v, refl),
    λ h. handle_iff session s h v,
  );
  delete_handle_does = λ id s v. (
    refl,
    record {
      sessions = v.sessions;
      trees = v.trees;
      handles = IsKeyed-remove _ id s.handles v.handles;
    },
    ap (with_handles s) (fun_ext (λ j. get-remove id j s.handles)),
  );
  delete_lease_does = λ key s v.
      (refl, record { sessions = v.sessions; trees = v.trees; handles = v.handles }, refl);
}

-- Creating records keeps a store well-formed, as a store that is lawful does; from the empty store.
pub new-IsStore : IsStore Memory.new
unfolding Memory.new get
new-IsStore = record {
  sessions = record { is_map = tt; keyed = λ k v e. absurd (cc e) };
  trees = record { is_map = tt; keyed = λ k v e. absurd (cc e) };
  handles = record { is_map = tt; keyed = λ k v e. absurd (cc e) };
}
