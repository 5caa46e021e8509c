-- ===== src/Memory/Leases/Runs.antt =====
-- Runs of the lease operations of the in-memory store.
use rustsmb.Base.{ℕ, ◌^◌, ◌<◌, ◌≡◌, sym, ◌∙◌, bit_and, String, some, ◌==◌, string_key, not}
use rustsmb.Base.Map.{get, remove_cases, retain_cases, IsMap-remove, IsMap-retain}
use rustsmb.State.Lease.{LeaseEntry}
use rustsmb.State.Lease.Compatible.{Compatible-part}
use rustsmb.Memory.{MemoryStateStore, new}
use rustsmb.Memory.Leases.{
  update_lease, delete_lease, check_and_create_lease, delete_leases_for_server,
}
use rustsmb.Memory.Leases.Coherence.{
  IsCoherent, IsCoherent-insert, check_and_create_lease-IsCoherent,
}

-- A lease step: a lease is asked for, a stored lease gives up part of its state on the same file,
-- as an acknowledged break does, or leases are deleted.
pub data LeaseStep (s : MemoryStateStore) : MemoryStateStore → Type 0 where
  asks :
      (lease : LeaseEntry) (requested : ℕ)
      → requested < 2 ^ 32
      → LeaseStep s (check_and_create_lease lease.file_path lease requested s).1
  gives_up :
      (old lease : LeaseEntry)
      → get lease.lease_key s.leases ≡ some old
      → lease.file_path ≡ old.file_path
      → bit_and lease.lease_state old.lease_state ≡ lease.lease_state
      → LeaseStep s (update_lease lease s).1
  deletes : (key : String) → LeaseStep s (delete_lease key s).1
  server_fails : (server : String) → LeaseStep s (delete_leases_for_server server s).1

pub data LeaseRun (s : MemoryStateStore) : MemoryStateStore → Type 0 where
  start : LeaseRun s s
  next : {t u : MemoryStateStore} → LeaseRun s t → LeaseStep t u → LeaseRun s u

update_lease-IsCoherent :
    (s : MemoryStateStore) (c : IsCoherent s) (old lease : LeaseEntry)
    → get lease.lease_key s.leases ≡ some old
    → lease.file_path ≡ old.file_path
    → bit_and lease.lease_state old.lease_state ≡ lease.lease_state
    → IsCoherent (update_lease lease s).1
unfolding update_lease
update_lease-IsCoherent s c old lease e p part = IsCoherent-insert s c lease λ j b eb d q.
    Compatible-part b.lease_state old.lease_state lease.lease_state part (
      let old_ok = c.compatible lease.lease_key j old b e eb d (sym p ∙ sym q) in
      (old_ok.1, old_ok.0))

delete_lease-IsCoherent :
    (s : MemoryStateStore) (c : IsCoherent s) (key : String) → IsCoherent (delete_lease key s).1
unfolding delete_lease
delete_lease-IsCoherent s c key = record {
  is_map = IsMap-remove key s.leases c.is_map;
  keyed = λ k l e. c.keyed k l (remove_cases key k l s.leases e).1;
  compatible = λ i j a b ea eb.
      c.compatible i j a b (remove_cases key i a s.leases ea).1
        (remove_cases key j b s.leases eb).1;
}

delete_leases_for_server-IsCoherent :
    (s : MemoryStateStore) (c : IsCoherent s) (server : String)
    → IsCoherent (delete_leases_for_server server s).1
unfolding delete_leases_for_server
delete_leases_for_server-IsCoherent s c server =
    let stays = λ (l : LeaseEntry). not (l.server_id == server) in
    record {
      is_map = IsMap-retain stays s.leases c.is_map;
      keyed = λ k l e. c.keyed k l (retain_cases stays k s.leases c.is_map e).0;
      compatible = λ i j a b ea eb.
          c.compatible i j a b (retain_cases stays i s.leases c.is_map ea).0
            (retain_cases stays j s.leases c.is_map eb).0;
    }

LeaseStep-IsCoherent : {s t : MemoryStateStore} → LeaseStep s t → IsCoherent s → IsCoherent t
LeaseStep-IsCoherent {s} (asks lease r h) c = check_and_create_lease-IsCoherent s c lease r h
LeaseStep-IsCoherent {s} (gives_up old lease e p part) c =
    update_lease-IsCoherent s c old lease e p part
LeaseStep-IsCoherent {s} (deletes key) c = delete_lease-IsCoherent s c key
LeaseStep-IsCoherent {s} (server_fails server) c = delete_leases_for_server-IsCoherent s c server

new-IsCoherent : IsCoherent new
unfolding new get
new-IsCoherent = record { is_map = tt; keyed = λ k l e. cc; compatible = λ i j a b ea eb d p. cc }

-- After any run from the empty store, in any order, of `check_and_create_lease` with 32-bit requests,
-- of `update_lease` where it leaves a stored lease on its file with a part of its state, and of
-- deletions by key or by server, two leases on one file under different keys are compatible: where
-- one caches writes, the other caches nothing. Runs with `create_lease`, or with an `update_lease`
-- that adds to a state or moves a lease, are left out: these two calls look at no other lease.
pub LeaseRun-IsCoherent : {s : MemoryStateStore} → LeaseRun new s → IsCoherent s
LeaseRun-IsCoherent start = new-IsCoherent
LeaseRun-IsCoherent (next run step) = LeaseStep-IsCoherent step (LeaseRun-IsCoherent run)
