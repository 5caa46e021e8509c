-- ===== src/State/Lock/Overlap.antt =====
-- What `DistributedLock::conflicts_with` decides, in terms of the bytes that a lock covers.
use text.Mathlib.TextEquality.{eq_iff}
use rustsmb.Base.{ℕ, ◌+◌, ◌≤◌, ◌<◌, ◌≡◌, ◌≢◌, ◌↔◌, ◌⊎◌, max, true, string_key, arith}
use rustsmb.State.Lock.{DistributedLock, u64_max, conflicts_with}

-- The bytes of a lock: from its offset on, `length` of them, or all where the length is 0.
abbrev Covers : DistributedLock → ℕ → Type 0
Covers l b = (l.offset ≤ b) × ((l.length ≡ 0) ⊎ (b < l.offset + l.length))

-- Two locks of different handles on one file, one of them exclusive, share a byte below the last.
abbrev pub Clash : DistributedLock → DistributedLock → Type 0
Clash a b =
    (a.file_path ≡ b.file_path)
    × (a.handle_id ≢ b.handle_id)
    × ((a.exclusive ≡ true) ⊎ (b.exclusive ≡ true))
    × ((byte : ℕ) × (byte < u64_max) × Covers a byte × Covers b byte)

-- `conflicts_with` holds of two locks with 64-bit offsets exactly when they clash: they are on one
-- file, belong to different handles, one is exclusive, and both cover some byte below 2 ^ 64 - 1.
pub conflicts_with_iff :
    (a b : DistributedLock)
    → a.offset ≤ u64_max
    → b.offset ≤ u64_max
    → (conflicts_with a b ≡ true) ↔ Clash a b
unfolding conflicts_with
conflicts_with_iff a b ha hb = (
  λ h. (
    ground (arith, eq_iff a.file_path b.file_path),
    ground (arith, eq_iff a.file_path b.file_path),
    ground (arith, eq_iff a.file_path b.file_path),
    (
      max a.offset b.offset,
      ground (arith, eq_iff a.file_path b.file_path),
      ground (arith, eq_iff a.file_path b.file_path),
      ground (arith, eq_iff a.file_path b.file_path),
    ),
  ),
  λ (p, d, e, c). ground (arith, eq_iff a.file_path b.file_path),
)

pub conflicts_with_symm : (a b : DistributedLock) → conflicts_with a b ≡ conflicts_with b a
unfolding conflicts_with
conflicts_with_symm a b =
    ground (arith, eq_iff a.file_path b.file_path, eq_iff b.file_path a.file_path)
