-- ===== src/State/Lease.antt =====
-- crates/rustsmb-state/src/coordination.rs: leases, and the lease rules that the in-memory store
-- and the coordinator both write out (`leases_conflict`, `reduce_lease_state`).
pub mod Compatible
pub mod Judge
use rustsmb.Base.{
  ℕ, ◌-◌, ◌^◌, bit_and, String, Bool, true, false, not, ◌&&◌, List, [], ◌∷◌, Option, none, nat_eq,
  anyb, filterb, if◌then◌else◌,
}

pub record LeaseEntry : Type 0 where
  pub lease_key : String
  pub client_guid : String
  pub session_id : ℕ
  pub server_id : String
  pub file_path : String
  pub lease_state : ℕ
  pub epoch : ℕ
  pub created_at : ℕ
  pub breaking : Bool
  pub break_to_state : ℕ
  pub break_started_at : Option ℕ
  pub is_v2 : Bool

abbrev pub read_caching : ℕ
read_caching = 0x01

abbrev pub write_caching : ℕ
write_caching = 0x02

abbrev pub handle_caching : ℕ
handle_caching = 0x04

-- `lease_key` is the text that `hex::encode` makes of the 16 bytes, and `now` the clock's reading.
unfoldable pub new : ℕ → String → String → ℕ → String → String → ℕ → Bool → LeaseEntry
new now lease_key client_guid session_id server_id file_path lease_state is_v2 = record {
  lease_key = lease_key;
  client_guid = client_guid;
  session_id = session_id;
  server_id = server_id;
  file_path = file_path;
  lease_state = lease_state;
  epoch = 1;
  created_at = now;
  breaking = false;
  break_to_state = 0;
  break_started_at = none;
  is_v2 = is_v2;
}

pub record LeaseConflictResult : Type 0 where
  can_grant : Bool
  conflicts : List LeaseEntry
  pub granted_state : ℕ

unfoldable pub granted : ℕ → LeaseConflictResult
granted state = record { can_grant = true; conflicts = []; granted_state = state }

unfoldable pub conflict : List LeaseEntry → ℕ → LeaseConflictResult
conflict conflicts state = record {
  can_grant = false;
  conflicts = conflicts;
  granted_state = state;
}

abbrev pub is_empty {ℓ} : {A : Type ℓ} → List A → Bool
is_empty [] = true
is_empty (x ∷ xs) = false

unfoldable pub has_conflicts : LeaseConflictResult → Bool
has_conflicts r = not (is_empty r.conflicts)

-- `state & WRITE_CACHING != 0`
unfoldable pub has_write : ℕ → Bool
has_write state = not (nat_eq (bit_and state write_caching) 0)

unfoldable pub leases_conflict : ℕ → ℕ → Bool
leases_conflict existing requested =
    if has_write existing && not (nat_eq requested 0)
    then true
    else if has_write requested && not (nat_eq existing 0)
    then true
    else false

-- `state &= !WRITE_CACHING` on 32 bits
unfoldable pub clear_write : ℕ → ℕ
clear_write state = bit_and state (2 ^ 32 - 1 - write_caching)

unfoldable pub reduce_lease_state : ℕ → List LeaseEntry → ℕ
reduce_lease_state requested conflicts =
    if anyb (λ l. has_write l.lease_state) conflicts
    then 0
    else if has_write requested
    then clear_write requested
    else requested

-- What `check_lease_conflict` of the coordinator and `check_and_create_lease` of the store compute
-- from the other leases on the file.
unfoldable pub judge : List LeaseEntry → ℕ → LeaseConflictResult
unfolding granted conflict
judge existing requested =
    let conflicts = filterb (λ l. leases_conflict l.lease_state requested) existing in
    let state = if is_empty conflicts then requested else reduce_lease_state requested conflicts in
    if is_empty existing
    then granted requested
    else if is_empty conflicts
    then granted state
    else conflict conflicts state
