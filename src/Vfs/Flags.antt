-- ===== src/Vfs/Flags.antt =====
-- What the flags of an open say of its parameters.
use rustsmb.Base.{ℕ, ◌≡◌, Bool, true, ◌||◌, nat_eq, arith}
use rustsmb.Vfs.{
  is_read, is_write, CreateParams, is_create, is_excl, is_trunc, is_for_directory, flags_of,
  to_open_flags, is_directory, wants_read, wants_write,
}

abbrev creates : ℕ → Bool
creates d = nat_eq d 0 || nat_eq d 2 || nat_eq d 3 || nat_eq d 5

abbrev truncates : ℕ → Bool
truncates d = nat_eq d 0 || nat_eq d 4 || nat_eq d 5

abbrev Says : ℕ → Bool → Bool → ℕ → Bool → Type 0
Says flags reads writes d directory =
    (is_read flags ≡ reads)
    × (is_write flags ≡ writes)
    × (is_create flags ≡ creates d)
    × (is_excl flags ≡ nat_eq d 2)
    × (is_trunc flags ≡ truncates d)
    × (is_for_directory flags ≡ directory)

flags_of_lem :
    (reads writes directory : Bool) (d : ℕ)
    → Says (flags_of reads writes directory d) reads writes d directory
unfolding is_read is_write is_create is_excl is_trunc is_for_directory
flags_of_lem true true true d = ground arith
flags_of_lem _ _ _ d = ground arith

-- An open creates a missing file for SUPERSEDE, CREATE, OPEN_IF and OVERWRITE_IF, fails on an existing
-- one for CREATE, empties it for SUPERSEDE, OVERWRITE and OVERWRITE_IF, is for a directory just when
-- the options say so, and reads and writes as the access that is desired says.
pub to_open_flags_lem :
    (p : CreateParams)
    → (is_read (to_open_flags p) ≡ wants_read p)
      × (is_write (to_open_flags p) ≡ wants_write p)
      × (is_create (to_open_flags p) ≡ creates p.create_disposition)
      × (is_excl (to_open_flags p) ≡ nat_eq p.create_disposition 2)
      × (is_trunc (to_open_flags p) ≡ truncates p.create_disposition)
      × (is_for_directory (to_open_flags p) ≡ is_directory p)
unfolding to_open_flags
to_open_flags_lem p =
    flags_of_lem (wants_read p) (wants_write p) (is_directory p) p.create_disposition
