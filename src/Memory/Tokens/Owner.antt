-- ===== src/Memory/Tokens/Owner.antt =====
-- A named lock has one holder at a time, and only its token gives it back.
use rustsmb.Base.{◌≡◌, ◌≢◌, refl, ap, String, true, false, none, some, string_key, ◌==◌, arith}
use rustsmb.Base.Map.{get, insert, remove, contains_key, get-insert, get-remove}
use rustsmb.Core.Action.{ok}
use rustsmb.Memory.{MemoryStateStore}
use rustsmb.Memory.Tokens.{
  acquire_distributed_lock, release_distributed_lock, extend_distributed_lock,
}

-- Once a lock is acquired, nobody else acquires it, its token extends it and a different token does
-- not, releasing it with a different token leaves it held, and releasing it with its token frees it
-- for the next one who asks.
pub acquired_lock :
    (s : MemoryStateStore) (key token other : String)
    → get key s.distributed_locks ≡ none
    → other ≢ token
    → let t = (acquire_distributed_lock token key s).1 in
      ((acquire_distributed_lock token key s).0 ≡ ok (some token))
      × ((acquire_distributed_lock other key t).0 ≡ ok none)
      × ((extend_distributed_lock key token t).0 ≡ ok true)
      × ((extend_distributed_lock key other t).0 ≡ ok false)
      × ((release_distributed_lock key other t).1 ≡ t)
      × ((acquire_distributed_lock other key (release_distributed_lock key token t).1).0
          ≡ ok (some other))
unfolding acquire_distributed_lock extend_distributed_lock release_distributed_lock contains_key
acquired_lock s key token other free apart =
    let own = get-insert key key token s.distributed_locks in
    let same = (string_key.same_iff key key).1 refl in
    let mine = (string_key.same_iff token token).1 refl in
    let theirs : (token == other) ≡ false = ground (arith, string_key.same_iff token other) in
    let m = insert key token s.distributed_locks in
    let gone = get-remove key key m in
    let absent : contains_key key s.distributed_locks ≡ false = rw (contains_key, free) refl in
    let held : contains_key key m ≡ true = rw (contains_key, own, same) refl in
    let freed : contains_key key (remove key m) ≡ false = rw (contains_key, gone, same) refl in
    (
      rw (acquire_distributed_lock, absent) refl,
      rw (acquire_distributed_lock, absent, held) refl,
      rw (acquire_distributed_lock, absent, extend_distributed_lock, own, same) (ap ok mine),
      rw (acquire_distributed_lock, absent, extend_distributed_lock, own, same) (ap ok theirs),
      rw (acquire_distributed_lock, absent, release_distributed_lock, own, same, theirs) refl,
      rw (acquire_distributed_lock, absent, release_distributed_lock, own, same, mine, freed) refl,
    )
