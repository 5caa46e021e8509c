-- ===== src/Memory/Samples.antt =====
-- Data for the tests: an in-memory store with a session.
use rustsmb.Base.{true, false}
use rustsmb.State.Samples.{session_of, tree_of, handle_of}
use rustsmb.Memory.{MemoryStateStore}
use rustsmb.Memory
use rustsmb.Memory.AsStore.{memory_store-IsStateStore, IsStore, new-IsStore}

-- A store with session 1, its tree 2, and a durable and a plain handle.
abbrev with_session : MemoryStateStore
with_session = (Memory.create_session (session_of 1) Memory.new).1

abbrev with_tree : MemoryStateStore
with_tree = (Memory.create_tree (tree_of 1 2) with_session).1

abbrev with_durable : MemoryStateStore
with_durable = (Memory.create_handle (handle_of 5 true) with_tree).1

abbrev pub busy : MemoryStateStore
busy = (Memory.create_handle (handle_of 6 false) with_durable).1

pub busy-IsStore : IsStore busy
busy-IsStore =
    let law = memory_store-IsStateStore in
    let a = (law.create_session_does (session_of 1) Memory.new new-IsStore).1 in
    let b = (law.create_tree_does (tree_of 1 2) with_session a).1 in
    let c = (law.create_handle_does (handle_of 5 true) with_tree b).1 in
    (law.create_handle_does (handle_of 6 false) with_durable c).1
