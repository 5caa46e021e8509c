-- ===== src/Compound/Queue/Laws.antt =====
-- The queue hands out fresh IDs, keeps to its limit, and gives back what was started.
use rustsmb.Base.{
  ℕ, ◌+◌, ◌^◌, ◌≤◌, ◌<◌, ◌≡◌, refl, subst, inl, inr, Bool-cases, leb, none, some, List, [], ◌∷◌,
  ◌++◌, nat_eq, findb, length, length-append, add_u64, if◌then◌else◌, arith,
}
use rustsmb.Compound.{CompoundContext}
use rustsmb.Compound.Queue.{PendingCompound, CompoundQueue, new, start, get, remove_first, complete}

-- The IDs rise along the queue, from `low` on.
abbrev Rising : ℕ → List PendingCompound → Type 0
Rising low [] = Unit {0}
Rising low (c ∷ cs) = (low ≤ c.id) × Rising (c.id + 1) cs

abbrev Below : ℕ → List PendingCompound → Type 0
Below high [] = Unit {0}
Below high (c ∷ cs) = (c.id < high) × Below high cs

-- The pending IDs are distinct and already handed out, and the limit is kept.
pub record IsQueue (q : CompoundQueue) : Type 0 where
  rising : Rising 0 q.pending
  below : Below q.next_id q.pending
  pub within : length q.pending ≤ q.max_pending

pub new-IsQueue : (limit : ℕ) → IsQueue (new limit)
unfolding new
new-IsQueue limit = record { rising = tt; below = tt; within = omega arith }

findb_absent :
    (id low : ℕ) (cs : List PendingCompound)
    → Rising low cs
    → id < low
    → findb (λ c. nat_eq c.id id) cs ≡ none
findb_absent id low [] r h = refl
findb_absent id low (c ∷ cs) r h = ground (arith, findb_absent id (c.id + 1) cs r.1)

get-remove_first :
    (id j low : ℕ) (cs : List PendingCompound)
    → Rising low cs
    → findb (λ c. nat_eq c.id j) (remove_first id cs)
      ≡ (if nat_eq id j then none else findb (λ c. nat_eq c.id j) cs)
unfolding remove_first
get-remove_first id j low [] r = ground arith
get-remove_first id j low (c ∷ cs) r =
    ground (arith, get-remove_first id j (c.id + 1) cs r.1, findb_absent j (c.id + 1) cs r.1)

get-snoc :
    (j high : ℕ) (cs : List PendingCompound) (new : PendingCompound)
    → Below high cs
    → high ≤ new.id
    → findb (λ c. nat_eq c.id j) (cs ++ (new ∷ []))
      ≡ (if nat_eq new.id j then some new else findb (λ c. nat_eq c.id j) cs)
get-snoc j high [] new b h = ground arith
get-snoc j high (c ∷ cs) new b h = ground (arith, get-snoc j high cs new b.1)

-- Completing a compound takes out just that one: its ID finds nothing any more, and every other ID
-- finds what it found.
get-complete :
    (q : CompoundQueue) (id j : ℕ)
    → IsQueue q
    → get (complete q id).0 j ≡ (if nat_eq id j then none else get q j)
unfolding get complete
get-complete q id j v = get-remove_first id j 0 q.pending v.rising

-- Starting a compound below the limit adds it under the ID that is returned, and every other ID
-- finds what it found.
get-start :
    (q : CompoundQueue) (context : CompoundContext) (message j : ℕ)
    → IsQueue q
    → length q.pending < q.max_pending
    → ((start q context message).1 ≡ some q.next_id)
      × (get (start q context message).0 j ≡ (
          if nat_eq q.next_id j
          then some (record { id = q.next_id; context = context; first_message_id = message })
          else get q j))
unfolding get start
get-start q context message j v h =
    let new : PendingCompound = record {
      id = q.next_id;
      context = context;
      first_message_id = message;
    } in
    ground (arith, get-snoc j q.next_id q.pending new v.below)

Rising-snoc :
    (low : ℕ) (cs : List PendingCompound) (new : PendingCompound)
    → Rising low cs
    → Below new.id cs
    → low ≤ new.id
    → Rising low (cs ++ (new ∷ []))
Rising-snoc low [] new r b h = ground arith
Rising-snoc low (c ∷ cs) new r b h = ground (arith, Rising-snoc (c.id + 1) cs new r.1 b.1)

Below-snoc :
    (high : ℕ) (cs : List PendingCompound) (new : PendingCompound)
    → Below high cs
    → new.id ≡ high
    → Below (high + 1) (cs ++ (new ∷ []))
Below-snoc high [] new b e = ground arith
Below-snoc high (c ∷ cs) new b e = ground (arith, Below-snoc high cs new b.1)

Rising-mono :
    (low low' : ℕ) (cs : List PendingCompound) → low ≤ low' → Rising low' cs → Rising low cs
Rising-mono low low' [] h r = tt
Rising-mono low low' (c ∷ cs) h r = (omega arith, r.1)

Rising-remove_first :
    (id low : ℕ) (cs : List PendingCompound) → Rising low cs → Rising low (remove_first id cs)
unfolding remove_first
Rising-remove_first id low [] r = tt
Rising-remove_first id low (c ∷ cs) r =
    ground (arith, Rising-remove_first id (c.id + 1) cs r.1, Rising-mono low (c.id + 1) cs)

Below-remove_first :
    (id high : ℕ) (cs : List PendingCompound) → Below high cs → Below high (remove_first id cs)
unfolding remove_first
Below-remove_first id high [] b = tt
Below-remove_first id high (c ∷ cs) b = ground (arith, Below-remove_first id high cs b.1)

length-remove_first-le :
    (id : ℕ) (cs : List PendingCompound) → length (remove_first id cs) ≤ length cs
unfolding remove_first
length-remove_first-le id [] = omega arith
length-remove_first-le id (c ∷ cs) = ground (arith, length-remove_first-le id cs)

complete-IsQueue : (q : CompoundQueue) (id : ℕ) → IsQueue q → IsQueue (complete q id).0
unfolding complete
complete-IsQueue q id v = record {
  rising = Rising-remove_first id 0 q.pending v.rising;
  below = Below-remove_first id q.next_id q.pending v.below;
  within = omega (arith, v.within, length-remove_first-le id q.pending);
}

-- Starting a compound, granted or refused, keeps the IDs distinct and the queue within its limit, as
-- long as fewer than 2 ^ 64 - 1 IDs were handed out.
pub start-IsQueue :
    (q : CompoundQueue) (context : CompoundContext) (message : ℕ)
    → IsQueue q
    → q.next_id + 1 < 2 ^ 64
    → IsQueue (start q context message).0
unfolding start
start-IsQueue q context message v h =
    let new : PendingCompound = record {
      id = q.next_id;
      context = context;
      first_message_id = message;
    } in
    let next : q.next_id + 1 ≡ add_u64 q.next_id 1 = omega arith in
    elim (Bool-cases (leb q.max_pending (length q.pending))) [
      | inl full ↦ rw full v
      | inr room ↦ rw room (record {
        rising = Rising-snoc 0 q.pending new v.rising v.below (omega arith);
        below =
            subst (λ high. Below high (q.pending ++ (new ∷ []))) next
              (Below-snoc q.next_id q.pending new v.below refl);
        within = ground (arith, length-append q.pending (new ∷ []));
      })
    ]
