-- ===== src/State/Samples.antt =====
-- Data for the tests: locks, leases, and a session with a tree and two handles.
use rustsmb.Base.{ℕ, String, Bool, true, false, none, []}
use rustsmb.Core.{smb311}
use rustsmb.State.Types.{SessionState, TreeState, HandleState}
use rustsmb.State.Lock.{DistributedLock}
use rustsmb.State.Lease.{LeaseEntry}

-- The lock of a handle on 10 bytes from an offset.
abbrev pub lock_at : ℕ → ℕ → Bool → DistributedLock
lock_at handle offset exclusive = record {
  lock_id = handle;
  handle_id = handle;
  session_id = 1;
  server_id = "a";
  file_path = "/f";
  offset = offset;
  length = 10;
  exclusive = exclusive;
  created_at = 0;
}

-- A lease of a client on the file, with a state.
abbrev pub lease_with : String → ℕ → LeaseEntry
lease_with key state = record {
  lease_key = key;
  client_guid = "c";
  session_id = 1;
  server_id = "a";
  file_path = "/f";
  lease_state = state;
  epoch = 1;
  created_at = 0;
  breaking = false;
  break_to_state = 0;
  break_started_at = none;
  is_v2 = true;
}

-- A session that expires at 100.
abbrev pub session_of : ℕ → SessionState
session_of id = record {
  session_id = id;
  user_id = "u";
  domain = none;
  session_key = [];
  dialect = smb311;
  signing_required = true;
  encryption_required = false;
  is_guest = false;
  is_anonymous = false;
  created_at = 0;
  last_access = 0;
  expires_at = 100;
  bound_server_id = none;
}

abbrev pub tree_of : ℕ → ℕ → TreeState
tree_of session id = record {
  tree_id = id;
  session_id = session;
  share_name = "s";
  share_path = "/s";
  access_flags = 1;
  is_dfs = false;
  created_at = 0;
}

-- A handle of session 1 and tree 2, durable or not.
abbrev pub handle_of : ℕ → Bool → HandleState
handle_of id durable = record {
  persistent_id = id;
  volatile_id = 9;
  tree_id = 2;
  session_id = 1;
  path = "/f";
  access_mask = 1;
  share_access = 1;
  create_options = 0;
  is_durable = durable;
  is_persistent = false;
  created_at = 0;
  last_access = 0;
  create_guid = none;
  file_offset = 0;
  share_name = "s";
  create_disposition = 0;
  file_attributes = 0;
  app_instance_id = none;
  durable_timeout = 0;
  reconnect_deadline = none;
  lease_key = none;
  oplock_level = 0;
  bound_server_id = none;
  delete_on_close = false;
  is_directory = false;
  backend_internal_id = none;
}
