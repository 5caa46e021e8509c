-- ===== src/Memory/Tokens.antt =====
-- crates/rustsmb-state-memory/src/lib.rs: named locks that are held by a token. The token of
-- `acquire_distributed_lock` comes from the clock, so it is an argument here.
pub mod Owner
use rustsmb.Base.{String, Bool, true, false, Option, none, some, string_key, ◌==◌, if◌then◌else◌}
use rustsmb.Base.Map.{get, insert, remove, contains_key}
use rustsmb.Core.Action.{ok}
use rustsmb.Memory.{MemoryStateStore, Store}

unfoldable pub acquire_distributed_lock : String → String → Store (Option String)
acquire_distributed_lock token key s =
    if contains_key key s.distributed_locks
    then (ok none, s)
    else (ok (some token), record s { distributed_locks = insert key token s.distributed_locks })

abbrev is_held_by : Option String → String → Bool
is_held_by none token = false
is_held_by (some t) token = t == token

unfoldable pub release_distributed_lock : String → String → Store (Unit {0})
release_distributed_lock key token s =
    if is_held_by (get key s.distributed_locks) token
    then (ok tt, record s { distributed_locks = remove key s.distributed_locks })
    else (ok tt, s)

unfoldable pub extend_distributed_lock : String → String → Store Bool
extend_distributed_lock key token s = (ok (is_held_by (get key s.distributed_locks) token), s)
