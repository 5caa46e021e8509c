-- ===== src/Coordinator.antt =====
-- crates/rustsmb-coordinator/src/state.rs: the state machine of the coordinator, the servers that are
-- registered and the epoch of their caches. `now` is what the clock of the machine that applies a request
-- reads.
pub mod Replicas
pub mod Service
mod Examples
use rustsmb.Base.{
  ℕ, ◌-◌, String, Bool, true, false, Option, none, some, List, [], ◌∷◌, map, filterb, string_key,
  ltb, add_u64,
}
use rustsmb.Base.Map
use rustsmb.Base.Map.{Map, values, keys, retain}
use rustsmb.Coord.{ServerRegistration}

pub data CoordRequest : Type 0 where
  register_server : ServerRegistration → CoordRequest
  unregister_server : String → CoordRequest
  update_heartbeat : String → ℕ → ℕ → ℕ → CoordRequest
  increment_epoch : String → CoordRequest

pub data CoordResponse : Type 0 where
  done : CoordResponse
  epoch : ℕ → CoordResponse
  servers : List ServerRegistration → CoordResponse
  server_not_found : String → CoordResponse

pub record CoordinationState : Type 0 where
  pub cache_epoch : ℕ
  pub servers : Map String ServerRegistration

unfoldable pub new : CoordinationState
new = record { cache_epoch = 1; servers = [] }

abbrev pub beat : ℕ → ℕ → ℕ → ServerRegistration → ServerRegistration
beat timestamp sessions files r = record r {
  last_heartbeat = timestamp;
  active_sessions = sessions;
  active_handles = files;
}

-- The epoch stays below 2 ^ 64.
unfoldable pub apply : ℕ → CoordRequest → CoordinationState → CoordResponse × CoordinationState
apply now (register_server registration) s = (
  epoch s.cache_epoch,
  record s {
    servers =
        Map.insert registration.server_id
          (record registration { registered_at = now; last_heartbeat = now }) s.servers;
  },
)
apply now (unregister_server server_id) s =
    let next = add_u64 s.cache_epoch 1 in
    (epoch next, record s { servers = Map.remove server_id s.servers; cache_epoch = next })
apply now (update_heartbeat server_id timestamp sessions files) s =
    elim (Map.get server_id s.servers) [
      | none ↦ (server_not_found server_id, s)
      | some server ↦ (
        done,
        record s { servers = Map.modify server_id (beat timestamp sessions files) s.servers },
      )
    ]
apply now (increment_epoch reason) s =
    let next = add_u64 s.cache_epoch 1 in (epoch next, record s { cache_epoch = next })

unfoldable pub get_servers : CoordinationState → List ServerRegistration
get_servers s = values s.servers

unfoldable pub get_server : CoordinationState → String → Option ServerRegistration
get_server s server_id = Map.get server_id s.servers

unfoldable pub get_epoch : CoordinationState → ℕ
get_epoch s = s.cache_epoch

unfoldable pub get_stale_servers : ℕ → ℕ → CoordinationState → List String
get_stale_servers now timeout s =
    keys (retain (λ r. ltb r.last_heartbeat (now - timeout)) s.servers)
