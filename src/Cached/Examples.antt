-- ===== src/Cached/Examples.antt =====
-- Tests of crates/rustsmb-state-cached over the in-memory store: a cache that never evicts.
use rustsmb.Base.{◌≡◌, refl, none, some, [], nat_key, arith}
use rustsmb.Base.Map.{Map, get, insert, remove, insert_cases, remove_cases}
use rustsmb.State.Samples.{session_of}
use rustsmb.State.Store.Lawful.{IsStateStore}
use rustsmb.Memory.AsStore.{memory_reading, memory_store, memory_store-IsStateStore}
use rustsmb.Memory.Samples.{busy}
use rustsmb.Cached.{
  Lru, CacheConfig, LocalCache, is_valid, cached_store, new, set_epoch, put_session, get_session,
  get_tree, get_handle,
}
use rustsmb.Cached.Coherent.{IsLru, IsCoherent}
use rustsmb.Cached.AsStore.{cached_reading}
use rustsmb.Cached.Lawful.{cached_store-IsStateStore}
use rustsmb.Cached.Epochs.{CacheRun, set_epoch-unanswered}
use rustsmb.Cached.Epochs

abbrev list_lru : Lru
list_lru = record {
  Cache = λ K V. Map K V;
  make = λ n. [];
  find = λ k c. get k c;
  get = λ k c. (c, get k c);
  put = λ k v c. insert k v c;
  pop = λ k c. remove k c;
}

list_lru-IsLru : IsLru list_lru
unfolding get
list_lru-IsLru = record {
  find-make = λ n k. refl;
  get-finds = λ k c. refl;
  find-get = λ k j c. refl;
  put_cases = λ k j v w c at. insert_cases k j v w c at;
  pop_cases = λ k j w c at. remove_cases k j w c at;
}

cached_store-IsStateStore_example :
    IsStateStore (cached_reading list_lru memory_reading) (cached_store 5 list_lru memory_store)
cached_store-IsStateStore_example =
    cached_store-IsStateStore list_lru memory_reading memory_store 5 list_lru-IsLru
      memory_store-IsStateStore

abbrev small : CacheConfig
small = record { max_sessions = 2; max_handles = 2; max_trees = 2; default_ttl = 10 }

abbrev warm : LocalCache list_lru
warm = put_session list_lru 3 (session_of 1) (new list_lru small)

warm_run : CacheRun list_lru warm
warm_run = Epochs.putting_session 3 (session_of 1) (Epochs.begin small)

-- The entry is answered within its time to live, and not after it.
get_session_hit : (get_session list_lru 13 1 warm).1 ≡ some (session_of 1)
unfolding get_session new put_session insert get is_valid
get_session_hit = refl

get_session_expired : (get_session list_lru 14 1 warm).1 ≡ none
unfolding get_session new put_session insert get is_valid
get_session_expired = refl

set_epoch-unanswered_example :
    ((get_session list_lru 5 1 (set_epoch list_lru 2 warm)).1 ≡ none)
    × ((get_tree list_lru 5 (1, 1) (set_epoch list_lru 2 warm)).1 ≡ none)
    × ((get_handle list_lru 5 9 (set_epoch list_lru 2 warm)).1 ≡ none)
    × IsCoherent list_lru (set_epoch list_lru 2 warm) (memory_reading.view busy)
unfolding new put_session
set_epoch-unanswered_example =
    set_epoch-unanswered list_lru list_lru-IsLru warm 2 5 1 9 (1, 1) (memory_reading.view busy)
      warm_run (omega arith)
