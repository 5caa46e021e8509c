-- ===== src/Cached/Lawful.antt =====
-- The caching store keeps the contract of a state store over a lawful bulk store.
use rustsmb.Base.{ℕ, ◌≡◌, sym, subst, some, nat_key, pair_key, arith}
use rustsmb.State.Store.{StateStore}
use rustsmb.State.Store.Lawful.{Reading, IsStateStore, drop, change, extended}
use rustsmb.Cached.{
  Lru, cached_store, get_session, put_session, remove_session, get_handle, put_handle,
  remove_handle, get_tree, put_tree, remove_tree,
}
use rustsmb.Cached.Coherent.{IsLru}
use rustsmb.Cached.AsStore.{cached_reading, write-Does, pass-Does, read-Does}
use rustsmb.Cached.Follows

-- The caching store keeps the contract of a state store, at any time, where the bulk store keeps it
-- and only this store writes to it: what a read answers from the cache is what the bulk store holds,
-- and each write leaves the cache in agreement with it, whatever the cache evicts.
pub cached_store-IsStateStore :
    {S : Type 0} (l : Lru) (r : Reading S) (bulk : StateStore S) (now : ℕ)
    → IsLru l
    → IsStateStore r bulk
    → IsStateStore (cached_reading l r) (cached_store now l bulk)
cached_store-IsStateStore l r bulk now lru law = record {
  session_key = λ s id x v e. law.session_key s.bulk_store id x v.0 e;
  handle_key = λ s id h v e. law.handle_key s.bulk_store id h v.0 e;
  tree_key = λ s k t v e. law.tree_key s.bulk_store k t v.0 e;
  create_session_does = λ x s v.
      write-Does l r (bulk.create_session x) (put_session l now x) s _ v.1
        (law.create_session_does x s.bulk_store v.0)
        (λ c k. Follows.put_session-IsCoherent l lru c (r.view s.bulk_store) k now x);
  update_session_does = λ x s v.
      write-Does l r (bulk.update_session x) (put_session l now x) s _ v.1
        (law.update_session_does x s.bulk_store v.0)
        (λ c k. Follows.put_session-IsCoherent l lru c (r.view s.bulk_store) k now x);
  get_session_does = λ id s v.
      read-Does l r ((r.view s.bulk_store).sessions id) (get_session l now id) (bulk.get_session id)
        (put_session l now) s v.0 v.1
        (λ c k. Follows.get_session_lem l lru c (r.view s.bulk_store) k now id)
        (law.get_session_does id s.bulk_store v.0)
        (λ x c at k. Follows.put_session_known l lru c (r.view s.bulk_store) k now x (
          subst (λ i. (r.view s.bulk_store).sessions i ≡ some x)
            (sym (law.session_key s.bulk_store id x v.0 at)) at));
  delete_session_does = λ id s v.
      write-Does l r (bulk.delete_session id) (remove_session l id) s _ v.1
        (law.delete_session_does id s.bulk_store v.0)
        (λ c k.
          Follows.remove_session-IsCoherent l lru c (r.view s.bulk_store) k id
            (drop id (r.view s.bulk_store).sessions) (λ j n. ground arith));
  refresh_session_does = λ now id ttl s v.
      write-Does l r (bulk.refresh_session now id ttl) (remove_session l id) s _ v.1
        (law.refresh_session_does now id ttl s.bulk_store v.0)
        (λ c k.
          Follows.remove_session-IsCoherent l lru c (r.view s.bulk_store) k id
            (change id (extended now ttl) (r.view s.bulk_store).sessions) (λ j n. ground arith));
  create_tree_does = λ t s v.
      write-Does l r (bulk.create_tree t) (put_tree l now t) s _ v.1
        (law.create_tree_does t s.bulk_store v.0)
        (λ c k. Follows.put_tree-IsCoherent l lru c (r.view s.bulk_store) k now t);
  get_tree_does = λ session tree s v.
      read-Does l r ((r.view s.bulk_store).trees (session, tree)) (get_tree l now (session, tree))
        (bulk.get_tree session tree) (put_tree l now) s v.0 v.1
        (λ c k. Follows.get_tree_lem l lru c (r.view s.bulk_store) k now (session, tree))
        (law.get_tree_does session tree s.bulk_store v.0)
        (λ x c at k. Follows.put_tree_known l lru c (r.view s.bulk_store) k now x (
          subst (λ i. (r.view s.bulk_store).trees i ≡ some x)
            (sym (law.tree_key s.bulk_store (session, tree) x v.0 at)) at));
  trees_by_session_does = λ session s v.
      let (ts, d, exact) = law.trees_by_session_does session s.bulk_store v.0 in
      (ts, pass-Does l r (bulk.get_trees_by_session session) s ts v.1 d, exact);
  delete_tree_does = λ session tree s v.
      write-Does l r (bulk.delete_tree session tree) (remove_tree l (session, tree)) s _ v.1
        (law.delete_tree_does session tree s.bulk_store v.0)
        (λ c k.
          Follows.remove_tree-IsCoherent l lru c (r.view s.bulk_store) k (session, tree)
            (drop (session, tree) (r.view s.bulk_store).trees) (λ j n. ground arith));
  create_handle_does = λ h s v.
      write-Does l r (bulk.create_handle h) (put_handle l now h) s _ v.1
        (law.create_handle_does h s.bulk_store v.0)
        (λ c k. Follows.put_handle-IsCoherent l lru c (r.view s.bulk_store) k now h);
  get_handle_does = λ id s v.
      read-Does l r ((r.view s.bulk_store).handles id) (get_handle l now id) (bulk.get_handle id)
        (put_handle l now) s v.0 v.1
        (λ c k. Follows.get_handle_lem l lru c (r.view s.bulk_store) k now id)
        (law.get_handle_does id s.bulk_store v.0)
        (λ x c at k. Follows.put_handle_known l lru c (r.view s.bulk_store) k now x (
          subst (λ i. (r.view s.bulk_store).handles i ≡ some x)
            (sym (law.handle_key s.bulk_store id x v.0 at)) at));
  update_handle_does = λ h s v.
      write-Does l r (bulk.update_handle h) (put_handle l now h) s _ v.1
        (law.update_handle_does h s.bulk_store v.0)
        (λ c k. Follows.put_handle-IsCoherent l lru c (r.view s.bulk_store) k now h);
  handles_by_session_does = λ session s v.
      let (hs, d, exact) = law.handles_by_session_does session s.bulk_store v.0 in
      (hs, pass-Does l r (bulk.get_handles_by_session session) s hs v.1 d, exact);
  delete_handle_does = λ id s v.
      write-Does l r (bulk.delete_handle id) (remove_handle l id) s _ v.1
        (law.delete_handle_does id s.bulk_store v.0)
        (λ c k.
          Follows.remove_handle-IsCoherent l lru c (r.view s.bulk_store) k id
            (drop id (r.view s.bulk_store).handles) (λ j n. ground arith));
  delete_lease_does = λ key s v.
      pass-Does l r (bulk.delete_lease key) s tt v.1 (law.delete_lease_does key s.bulk_store v.0);
}
