-- ===== src/Validation/Examples.antt =====
-- Tests of the validators of crates/rustsmb-session/src/validation.rs, on the in-memory store.
use rustsmb.Base.{◌≡◌, ◌↔◌, refl, true, none, nat_key, pair_key, if◌then◌else◌, arith}
use rustsmb.Base.Map.{get, insert, remove}
use rustsmb.Core.{session_expired}
use rustsmb.Core.Action.{ok, err}
use rustsmb.State.Samples.{session_of, tree_of, handle_of}
use rustsmb.Memory
use rustsmb.Memory.Samples.{busy, busy-IsStore}
use rustsmb.Memory.AsStore.{memory_store, memory_reading, memory_store-IsStateStore}
use rustsmb.Validation.{RequestContext, validate_session, with_handle}
use rustsmb.Validation.Verdicts.{Admits, context}
use rustsmb.Validation.Context.{with_handle_iff, validate_session_expired}

abbrev granted : RequestContext
granted = context (session_of 1) (tree_of 1 2) (handle_of 5 true)

with_handle_iff_example :
    ((with_handle memory_store 50 1 2 5 9 busy).0 ≡ ok granted)
    ↔ Admits (memory_reading.view busy) 50 1 2 5 9 granted
with_handle_iff_example =
    with_handle_iff memory_reading memory_store memory_store-IsStateStore 50 1 2 5 9 busy granted
      busy-IsStore

validate_session_expired_example :
    let t = (validate_session memory_store 200 1 busy).1 in
    ((validate_session memory_store 200 1 busy).0 ≡ err session_expired)
    × (get 1 t.sessions ≡ (if nat_key.same 1 1 then none else get 1 busy.sessions))
    × ((memory_reading.view t).trees ≡ (memory_reading.view busy).trees)
    × ((memory_reading.view t).handles ≡ (memory_reading.view busy).handles)
unfolding Memory.create_session Memory.create_tree Memory.create_handle Memory.new insert remove get
validate_session_expired_example =
    validate_session_expired memory_reading memory_store memory_store-IsStateStore 200 1 1
      (session_of 1) busy busy-IsStore refl (omega arith)
