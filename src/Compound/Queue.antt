-- ===== src/Compound/Queue.antt =====
-- crates/rustsmb-session/src/compound.rs: the queue of compound requests under way.
pub mod Laws
use rustsmb.Base.{
  ℕ, String, Bool, true, false, Option, none, some, List, [], ◌∷◌, ◌++◌, nat_eq, leb, findb, length,
  add_u64, if◌then◌else◌,
}
use rustsmb.Compound.{CompoundContext}

pub record PendingCompound : Type 0 where
  pub id : ℕ
  pub context : CompoundContext
  pub first_message_id : ℕ

-- Oldest first.
pub record CompoundQueue : Type 0 where
  pub pending : List PendingCompound
  pub next_id : ℕ
  pub max_pending : ℕ

unfoldable pub new : ℕ → CompoundQueue
new max_pending = record { pending = []; next_id = 1; max_pending = max_pending }

unfoldable pub start : CompoundQueue → CompoundContext → ℕ → CompoundQueue × Option ℕ
start q context first_message_id =
    let compound : PendingCompound = record {
      id = q.next_id;
      context = context;
      first_message_id = first_message_id;
    } in
    if leb q.max_pending (length q.pending) then (q, none) else (
      record q { pending = q.pending ++ (compound ∷ []); next_id = add_u64 q.next_id 1 },
      some q.next_id,
    )

unfoldable pub get : CompoundQueue → ℕ → Option PendingCompound
get q id = findb (λ c. nat_eq c.id id) q.pending

-- `if let Some(c) = queue.get_mut(id) { c.context = f(c.context) }`
update_first : ℕ → (CompoundContext → CompoundContext) → List PendingCompound → List PendingCompound
update_first id f [] = []
update_first id f (c ∷ cs) =
    if nat_eq c.id id then record c { context = f c.context } ∷ cs else c ∷ update_first id f cs

unfoldable pub get_mut : CompoundQueue → ℕ → (CompoundContext → CompoundContext) → CompoundQueue
unfolding update_first
get_mut q id f = record q { pending = update_first id f q.pending }

-- `position` and `remove`.
unfoldable pub remove_first : ℕ → List PendingCompound → List PendingCompound
remove_first id [] = []
remove_first id (c ∷ cs) = if nat_eq c.id id then cs else c ∷ remove_first id cs

unfoldable pub complete : CompoundQueue → ℕ → CompoundQueue × Option PendingCompound
unfolding get remove_first
complete q id = (record q { pending = remove_first id q.pending }, get q id)
