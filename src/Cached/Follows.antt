-- ===== src/Cached/Follows.antt =====
-- How each operation of the local cache keeps it in agreement with the tables.
use rustsmb.Base.{ℕ, ◌≡◌, ◌⊎◌, false, Option, none, some, nat_key, pair_key, ◌==◌}
use rustsmb.State.Types.{SessionState, TreeState, HandleState}
use rustsmb.State.Store.Lawful.{View, put}
use rustsmb.Cached.{
  Lru, LocalCache, get_session, put_session, remove_session, get_handle, put_handle, remove_handle,
  get_tree, put_tree, remove_tree, entry,
}
use rustsmb.Cached.Coherent.{IsLru, IsCoherent, Holds-put, Holds-put_known, Holds-pop, look_up_lem}

module _ (l : Lru) (law : IsLru l) (c : LocalCache l) (w : View) (v : IsCoherent l c w) where
  pub put_session-IsCoherent :
      (now : ℕ) (x : SessionState)
      → IsCoherent l (put_session l now x c) (record w { sessions = put x.session_id x w.sessions })
  unfolding put_session entry
  put_session-IsCoherent now x = record {
    sessions =
        Holds-put l law c.current_epoch c.sessions w.sessions v.sessions x.session_id
          (entry l now x c);
    trees = v.trees;
    handles = v.handles;
  }

  pub put_session_known :
      (now : ℕ) (x : SessionState)
      → w.sessions x.session_id ≡ some x
      → IsCoherent l (put_session l now x c) w
  unfolding put_session entry
  put_session_known now x known = record {
    sessions =
        Holds-put_known l law c.current_epoch c.sessions w.sessions v.sessions x.session_id
          (entry l now x c) known;
    trees = v.trees;
    handles = v.handles;
  }

  pub remove_session-IsCoherent :
      (id : ℕ) (g : ℕ → Option SessionState)
      → ((j : ℕ) → (id == j) ≡ false → g j ≡ w.sessions j)
      → IsCoherent l (remove_session l id c) (record w { sessions = g })
  unfolding remove_session
  remove_session-IsCoherent id g same = record {
    sessions = Holds-pop l law c.current_epoch c.sessions w.sessions v.sessions id g same;
    trees = v.trees;
    handles = v.handles;
  }

  pub get_session_lem :
      (now : ℕ) (id : ℕ)
      → IsCoherent l (get_session l now id c).0 w
        × (((get_session l now id c).1 ≡ none) ⊎ ((get_session l now id c).1 ≡ w.sessions id))
  unfolding get_session
  get_session_lem now id =
      let (kept, found) =
        look_up_lem l law now c.current_epoch id c.sessions w.sessions v.sessions in
      (record { sessions = kept; trees = v.trees; handles = v.handles }, found)

  pub put_handle-IsCoherent :
      (now : ℕ) (x : HandleState)
      → IsCoherent l (put_handle l now x c) (record w { handles = put x.persistent_id x w.handles })
  unfolding put_handle entry
  put_handle-IsCoherent now x = record {
    handles =
        Holds-put l law c.current_epoch c.handles w.handles v.handles x.persistent_id
          (entry l now x c);
    sessions = v.sessions;
    trees = v.trees;
  }

  pub put_handle_known :
      (now : ℕ) (x : HandleState)
      → w.handles x.persistent_id ≡ some x
      → IsCoherent l (put_handle l now x c) w
  unfolding put_handle entry
  put_handle_known now x known = record {
    handles =
        Holds-put_known l law c.current_epoch c.handles w.handles v.handles x.persistent_id
          (entry l now x c) known;
    sessions = v.sessions;
    trees = v.trees;
  }

  pub remove_handle-IsCoherent :
      (id : ℕ) (g : ℕ → Option HandleState)
      → ((j : ℕ) → (id == j) ≡ false → g j ≡ w.handles j)
      → IsCoherent l (remove_handle l id c) (record w { handles = g })
  unfolding remove_handle
  remove_handle-IsCoherent id g same = record {
    handles = Holds-pop l law c.current_epoch c.handles w.handles v.handles id g same;
    sessions = v.sessions;
    trees = v.trees;
  }

  pub get_handle_lem :
      (now : ℕ) (id : ℕ)
      → IsCoherent l (get_handle l now id c).0 w
        × (((get_handle l now id c).1 ≡ none) ⊎ ((get_handle l now id c).1 ≡ w.handles id))
  unfolding get_handle
  get_handle_lem now id =
      let (kept, found) = look_up_lem l law now c.current_epoch id c.handles w.handles v.handles in
      (record { handles = kept; sessions = v.sessions; trees = v.trees }, found)

  pub put_tree-IsCoherent :
      (now : ℕ) (x : TreeState)
      → IsCoherent l
          (put_tree l now x c)
          (record w { trees = put (x.session_id, x.tree_id) x w.trees })
  unfolding put_tree entry
  put_tree-IsCoherent now x = record {
    trees =
        Holds-put l law c.current_epoch c.trees w.trees v.trees (x.session_id, x.tree_id)
          (entry l now x c);
    sessions = v.sessions;
    handles = v.handles;
  }

  pub put_tree_known :
      (now : ℕ) (x : TreeState)
      → w.trees (x.session_id, x.tree_id) ≡ some x
      → IsCoherent l (put_tree l now x c) w
  unfolding put_tree entry
  put_tree_known now x known = record {
    trees =
        Holds-put_known l law c.current_epoch c.trees w.trees v.trees (x.session_id, x.tree_id)
          (entry l now x c) known;
    sessions = v.sessions;
    handles = v.handles;
  }

  pub remove_tree-IsCoherent :
      (id : (ℕ × ℕ)) (g : (ℕ × ℕ) → Option TreeState)
      → ((j : (ℕ × ℕ)) → (id == j) ≡ false → g j ≡ w.trees j)
      → IsCoherent l (remove_tree l id c) (record w { trees = g })
  unfolding remove_tree
  remove_tree-IsCoherent id g same = record {
    trees = Holds-pop l law c.current_epoch c.trees w.trees v.trees id g same;
    sessions = v.sessions;
    handles = v.handles;
  }

  pub get_tree_lem :
      (now : ℕ) (id : (ℕ × ℕ))
      → IsCoherent l (get_tree l now id c).0 w
        × (((get_tree l now id c).1 ≡ none) ⊎ ((get_tree l now id c).1 ≡ w.trees id))
  unfolding get_tree
  get_tree_lem now id =
      let (kept, found) = look_up_lem l law now c.current_epoch id c.trees w.trees v.trees in
      (record { trees = kept; sessions = v.sessions; handles = v.handles }, found)
