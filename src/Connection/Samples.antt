-- ===== src/Connection/Samples.antt =====
-- Data for the tests: the configuration of a connection.
use rustsmb.Base.{true}
use rustsmb.Credits.{default_config}
use rustsmb.Connection.{ConnectionConfig}

-- At most two sessions.
abbrev pub config : ConnectionConfig
config = record {
  max_sessions = 2;
  credit_config = default_config;
  async_config = record { max_pending = 2; default_timeout = 100; send_interim_response = true };
  max_compound_commands = 64;
  max_transact_size = 8388608;
  max_read_size = 8388608;
  max_write_size = 8388608;
}
