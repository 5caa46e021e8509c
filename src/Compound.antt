-- ===== src/Compound.antt =====
-- crates/rustsmb-session/src/compound.rs: the context that the commands of a compound request share.
pub mod Context
pub mod Queue
pub mod Offsets
mod Examples
use mathlib.Core.List.{reverse}
use mathlib.Core.Option
use rustsmb.Base.{
  ℕ, ◌+◌, ◌-◌, ◌^◌, Bool, true, false, not, ◌&&◌, ◌||◌, Option, none, some, List, [], ◌∷◌, ◌++◌,
  nat_eq, leb, anyb, findb, if◌then◌else◌,
}

pub record FileId : Type 0 where
  pub persistent : ℕ
  pub volatile : ℕ

-- `u64::MAX as u128 | ((u64::MAX as u128) << 64)`
abbrev pub related_sentinel : ℕ
related_sentinel = 2 ^ 128 - 1

unfoldable pub is_related_sentinel : FileId → Bool
is_related_sentinel f = nat_eq f.persistent related_sentinel && nat_eq f.volatile related_sentinel

-- The field `success` is `is_success` here.
pub record CompoundResult : Type 0 where
  pub status : ℕ
  pub is_success : Bool
  pub file_id : Option FileId

unfoldable pub success : CompoundResult
success = record { status = 0; is_success = true; file_id = none }

unfoldable pub success_with_file : FileId → CompoundResult
success_with_file f = record { status = 0; is_success = true; file_id = some f }

unfoldable pub failure : ℕ → CompoundResult
failure status = record { status = status; is_success = false; file_id = none }

-- The field `related` is `is_related` here.
pub record CompoundContext : Type 0 where
  pub is_related : Bool
  pub session_id : Option ℕ
  pub tree_id : Option ℕ
  pub file_id : Option FileId
  pub current_index : ℕ
  total_commands : ℕ
  pub previous_results : List CompoundResult

abbrev fresh : Bool → ℕ → CompoundContext
fresh is_related total = record {
  is_related = is_related;
  session_id = none;
  tree_id = none;
  file_id = none;
  current_index = 0;
  total_commands = total;
  previous_results = [];
}

unfoldable pub unrelated : ℕ → CompoundContext
unrelated total = fresh false total

unfoldable pub related : ℕ → CompoundContext
related total = fresh true total

unfoldable pub is_first : CompoundContext → Bool
is_first c = nat_eq c.current_index 0

unfoldable pub is_last : CompoundContext → Bool
is_last c = leb c.total_commands (c.current_index + 1)

unfoldable pub resolve_session_id : CompoundContext → ℕ → Option ℕ
unfolding is_first
resolve_session_id c request =
    if not c.is_related || is_first c
    then some request
    else if nat_eq request (2 ^ 64 - 1)
    then c.session_id
    else some request

unfoldable pub resolve_tree_id : CompoundContext → ℕ → Option ℕ
unfolding is_first
resolve_tree_id c request =
    if not c.is_related || is_first c
    then some request
    else if nat_eq request (2 ^ 32 - 1)
    then c.tree_id
    else some request

unfoldable pub resolve_file_id : CompoundContext → FileId → Option FileId
unfolding is_related_sentinel
resolve_file_id c request =
    if not c.is_related
    then some request
    else if is_related_sentinel request
    then c.file_id
    else some request

abbrev pub is_some {ℓ} : {A : Type ℓ} → Option A → Bool
is_some none = false
is_some (some a) = true

-- The index and the results grow on every branch.
unfoldable pub advance : CompoundContext → CompoundResult → CompoundContext
advance c result = record c {
  file_id = if result.is_success && is_some result.file_id then result.file_id else c.file_id;
  previous_results = c.previous_results ++ (result ∷ []);
  current_index = c.current_index + 1;
}

unfoldable pub set_session_id : CompoundContext → ℕ → CompoundContext
set_session_id c id = record c { session_id = some id }

unfoldable pub set_tree_id : CompoundContext → ℕ → CompoundContext
set_tree_id c id = record c { tree_id = some id }

unfoldable pub has_previous_failure : CompoundContext → Bool
has_previous_failure c = anyb (λ r. not r.is_success) c.previous_results

unfoldable pub last_failure_status : CompoundContext → Option ℕ
last_failure_status c =
    Option.map (λ (r : CompoundResult). r.status)
      (findb (λ r. not r.is_success) (reverse c.previous_results))
