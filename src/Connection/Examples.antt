-- ===== src/Connection/Examples.antt =====
-- Tests of the connection of crates/rustsmb-session/src/connection.rs.
use rustsmb.Base.{ℕ, ◌≡◌, refl, false, [], ◌∷◌, nat_key}
use rustsmb.Core.{smb311}
use rustsmb.Connection.{
  Connection, with_config, negotiate, add_session, negotiated, session_active, touch,
}
use rustsmb.Connection.Samples.{config}
use rustsmb.Connection.Sessions.{Run, begin, adding, negotiating, IsConsistent, Run-IsConsistent}

abbrev negotiated_one : Connection
negotiated_one = negotiate 1 smb311 (with_config 0 7 config)

abbrev active_one : Connection
active_one = (add_session 2 100 negotiated_one).0

active_test : (active_one.state ≡ session_active) × (active_one.session_ids ≡ 100 ∷ [])
unfolding with_config negotiate add_session touch
active_test = (refl, refl)

active_run : Run config false active_one
unfolding with_config
active_run = adding 2 100 (negotiating 1 smb311 (begin 0 7))

-- A client that negotiates again has a session while the state says that there is none.
again_test : (negotiate 3 smb311 active_one).state ≡ negotiated
unfolding negotiate touch
again_test = refl

again_sessions : (negotiate 3 smb311 active_one).session_ids ≡ 100 ∷ []
unfolding with_config negotiate add_session touch
again_sessions = refl

Run-IsConsistent_example : IsConsistent config false active_one
Run-IsConsistent_example = Run-IsConsistent config false active_one active_run

abbrev removed : ℕ
removed = 100

abbrev other : ℕ
other = 101
