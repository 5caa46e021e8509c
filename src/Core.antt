-- ===== src/Core.antt =====
-- crates/rustsmb-core: errors and dialects; and the actions of components that keep a state, may
-- fail, and keep what they wrote before they failed.
pub mod Action
use rustsmb.Base.{ℕ, String, Bool, true, false, Option, none, some, nat_eq, leb, if◌then◌else◌}

-- The texts that errors carry for a human reader are kept only where the program makes them of
-- data that a caller can tell apart.
pub data StateError : Type 0 where
  connection_failed serialization not_found already_exists conflict internal : String → StateError
  timeout : StateError

pub data SessionError : Type 0 where
  invalid_session_id invalid_tree_id invalid_handle_id : ℕ → SessionError
  session_expired too_many_connections too_many_sessions not_authenticated : SessionError

pub data SmbDialect : Type 0 where
  smb202 smb210 smb300 smb302 smb311 : SmbDialect

unfoldable pub revision : SmbDialect → ℕ
revision smb202 = 0x0202
revision smb210 = 0x0210
revision smb300 = 0x0300
revision smb302 = 0x0302
revision smb311 = 0x0311

unfoldable pub from_revision : ℕ → Option SmbDialect
from_revision rev =
    if nat_eq rev 0x0202
    then some smb202
    else if nat_eq rev 0x0210
    then some smb210
    else if nat_eq rev 0x0300
    then some smb300
    else if nat_eq rev 0x0302
    then some smb302
    else if nat_eq rev 0x0311
    then some smb311
    else none

-- `self >= Self::Smb300`: the order of the discriminants.
unfoldable pub supports_encryption : SmbDialect → Bool
unfolding revision
supports_encryption d = leb (revision smb300) (revision d)

unfoldable pub supports_directory_leasing : SmbDialect → Bool
unfolding revision
supports_directory_leasing d = leb (revision smb300) (revision d)

unfoldable pub supports_multi_channel : SmbDialect → Bool
unfolding revision
supports_multi_channel d = leb (revision smb300) (revision d)

unfoldable pub requires_preauth_integrity : SmbDialect → Bool
unfolding revision
requires_preauth_integrity d = leb (revision smb311) (revision d)
