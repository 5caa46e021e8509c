-- ===== src/Vfs/Examples.antt =====
-- Tests of crates/rustsmb-vfs/src/types.rs.
use rustsmb.Base.{◌≡◌, refl, true, false, none}
use rustsmb.Vfs.{
  CreateParams, is_directory, wants_read, wants_write, is_read, is_write, new_handle,
  with_backend_id, is_create, is_excl, is_trunc, is_for_directory, to_open_flags,
}
use rustsmb.Vfs.Flags.{to_open_flags_lem}

abbrev overwrite_if : CreateParams
overwrite_if = record {
  desired_access = 0x40000000;
  share_access = 0;
  create_disposition = 5;
  create_options = 0;
  file_attributes = 0;
}

to_open_flags_lem_example :
    (is_read (to_open_flags overwrite_if) ≡ false)
    × (is_write (to_open_flags overwrite_if) ≡ true)
    × (is_create (to_open_flags overwrite_if) ≡ true)
    × (is_excl (to_open_flags overwrite_if) ≡ false)
    × (is_trunc (to_open_flags overwrite_if) ≡ true)
    × (is_for_directory (to_open_flags overwrite_if) ≡ false)
unfolding is_directory wants_read wants_write
to_open_flags_lem_example = to_open_flags_lem overwrite_if

-- Two handles of different constructors have the same number.
same_number :
    (new_handle (record { for_new = 1; for_ids = 1; for_backend_id = 1 })).0.id
    ≡ (with_backend_id 0 0 none (record { for_new = 1; for_ids = 1; for_backend_id = 1 })).0.id
unfolding new_handle with_backend_id
same_number = refl
