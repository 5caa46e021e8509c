-- ===== src/State/Lock.antt =====
-- crates/rustsmb-state/src/coordination.rs: byte-range locks and their conflicts.
pub mod Overlap
use rustsmb.Base.{
  ℕ, ◌+◌, ◌-◌, ◌^◌, min, String, Bool, true, false, not, ◌&&◌, ◌||◌, ltb, ◌==◌, string_key, nat_key,
  if◌then◌else◌,
}

-- A 128-bit handle ID, 64-bit offsets and lengths, and a time in seconds.
pub record DistributedLock : Type 0 where
  pub lock_id : ℕ
  pub handle_id : ℕ
  pub session_id : ℕ
  pub server_id : String
  pub file_path : String
  pub offset : ℕ
  pub length : ℕ
  pub exclusive : Bool
  pub created_at : ℕ

abbrev pub u64_max : ℕ
u64_max = 2 ^ 64 - 1

-- `now` is what the clock read when the lock was made.
unfoldable pub new : ℕ → ℕ → ℕ → ℕ → String → String → ℕ → ℕ → Bool → DistributedLock
new now lock_id handle_id session_id server_id file_path offset length exclusive = record {
  lock_id = lock_id;
  handle_id = handle_id;
  session_id = session_id;
  server_id = server_id;
  file_path = file_path;
  offset = offset;
  length = length;
  exclusive = exclusive;
  created_at = now;
}

-- `self_end`: `saturating_add`, or the largest offset where the length is 0.
unfoldable pub range_end : DistributedLock → ℕ
range_end l = if l.length == 0 then u64_max else min (l.offset + l.length) u64_max

unfoldable pub conflicts_with : DistributedLock → DistributedLock → Bool
unfolding range_end
conflicts_with a b =
    if not (a.file_path == b.file_path)
    then false
    else if a.handle_id == b.handle_id
    then false
    else if not (ltb a.offset (range_end b) && ltb b.offset (range_end a))
    then false
    else a.exclusive || b.exclusive
