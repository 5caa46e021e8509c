-- ===== src/Memory/Leases.antt =====
-- crates/rustsmb-state-memory/src/lib.rs: the leases of the in-memory store.
pub mod Coherence
pub mod Runs
use rustsmb.Base.{
  ℕ, String, Bool, true, false, not, ◌&&◌, Option, List, filterb, string_key, ◌==◌, if◌then◌else◌,
}
use rustsmb.Base.Map.{get, insert, remove, retain, values, contains_key}
use rustsmb.Core.{already_exists}
use rustsmb.Core.Action.{ok, err}
use rustsmb.State.Lease.{LeaseEntry, LeaseConflictResult, judge}
use rustsmb.Memory.{MemoryStateStore, Store}

-- The error's text is `Lease {key} already exists`; the key is what tells two of them apart.
unfoldable pub create_lease : LeaseEntry → Store (Unit {0})
create_lease lease s =
    if contains_key lease.lease_key s.leases
    then (err (already_exists lease.lease_key), s)
    else (ok tt, record s { leases = insert lease.lease_key lease s.leases })

unfoldable pub get_lease : String → Store (Option LeaseEntry)
get_lease lease_key s = (ok (get lease_key s.leases), s)

unfoldable pub update_lease : LeaseEntry → Store (Unit {0})
update_lease lease s = (ok tt, record s { leases = insert lease.lease_key lease s.leases })

unfoldable pub delete_lease : String → Store (Unit {0})
delete_lease lease_key s = (ok tt, record s { leases = remove lease_key s.leases })

unfoldable pub get_leases_for_file : String → Store (List LeaseEntry)
get_leases_for_file file_path s =
    (ok (filterb (λ l. l.file_path == file_path) (values s.leases)), s)

-- The leases of the file other than the requestor's.
abbrev pub others : String → LeaseEntry → MemoryStateStore → List LeaseEntry
others file_path lease s =
    filterb (λ l. l.file_path == file_path && not (l.lease_key == lease.lease_key))
      (values s.leases)

-- The lease is stored with the state that is granted, on every branch.
unfoldable pub check_and_create_lease : String → LeaseEntry → ℕ → Store LeaseConflictResult
check_and_create_lease file_path lease requested_state s =
    let result = judge (others file_path lease s) requested_state in
    let new_lease : LeaseEntry = record lease { lease_state = result.granted_state } in
    (ok result, record s { leases = insert lease.lease_key new_lease s.leases })

unfoldable pub delete_leases_for_server : String → Store (Unit {0})
delete_leases_for_server server_id s =
    (ok tt, record s { leases = retain (λ l. not (l.server_id == server_id)) s.leases })
