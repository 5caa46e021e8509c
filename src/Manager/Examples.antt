-- ===== src/Manager/Examples.antt =====
-- Tests of the session manager of crates/rustsmb-session/src/manager.rs, on the in-memory store.
use rustsmb.Base.{◌≡◌, none, nat_key, pair_key, if◌then◌else◌}
use rustsmb.Base.Map.{get}
use rustsmb.Core.Action.{ok}
use rustsmb.Memory.Samples.{busy, busy-IsStore}
use rustsmb.Memory.AsStore.{memory_store, memory_reading, memory_store-IsStateStore, IsStore}
use rustsmb.Manager.{delete_session}
use rustsmb.Manager.Tables.{left}
use rustsmb.Manager.Deletion.{delete_session_leaves}

delete_session_leaves_example :
    let t = (delete_session memory_store (λ id. 50) 1 busy).1 in
    ((delete_session memory_store (λ id. 50) 1 busy).0 ≡ ok tt)
    × IsStore t
    × (get 1 t.sessions ≡ (if nat_key.same 1 1 then none else get 1 busy.sessions))
    × (get (1, 2) t.trees ≡ (if nat_key.same 1 1 then none else get (1, 2) busy.trees))
    × (get 5 t.handles ≡ left (λ id. 50) 1 (get 5 busy.handles))
delete_session_leaves_example =
    delete_session_leaves memory_reading memory_store memory_store-IsStateStore (λ id. 50) 1 1 2 5
      busy busy-IsStore
