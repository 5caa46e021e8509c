-- ===== src/Coord/Grant.antt =====
-- What granting a lock does to the lists of the lock table.
use rustsmb.Base.{
  ◌≡◌, refl, String, Bool, not, some, List, [], ◌∷◌, ◌++◌, inl, inr, anyb, nat_key, string_key,
  ◌==◌, subst, add_u64, Bool-cases, Option-cases, if◌then◌else◌, arith,
}
use rustsmb.Base.Map.{Map, get, modify, contains_key, get-insert, get-modify}
use rustsmb.State.Lock.{DistributedLock, conflicts_with}
use rustsmb.Coord.{
  CoordinationState, lock_granted, or_empty, or_default, get_locks_for_file, grant_lock,
}

-- The lock as it is recorded: with the ID that the state machine gives out.
abbrev pub numbered : CoordinationState → DistributedLock → DistributedLock
numbered s l = record l { lock_id = s.next_lock_id }

or_default_lem :
    (p q : String) (m : Map String (List DistributedLock))
    → or_empty (get q (or_default p m)) ≡ or_empty (get q m)
unfolding contains_key
or_default_lem p q m =
    ground (arith, get-insert p q [] m, string_key.same_iff p q, Option-cases (get p m))

default_present :
    (p : String) (m : Map String (List DistributedLock))
    → get p (or_default p m) ≡ some (or_empty (get p m))
unfolding contains_key
default_present p m = ground (arith, get-insert p p [] m, string_key.same_iff p p)

push_lem :
    (p q : String) (l : DistributedLock) (m : Map String (List DistributedLock))
    → or_empty (get q (modify p (λ ls. ls ++ (l ∷ [])) (or_default p m)))
      ≡ (if p == q then or_empty (get q m) ++ (l ∷ []) else or_empty (get q m))
push_lem p q l m = elim (Bool-cases (p == q)) [
  | inl hit ↦
      let at =
        subst (λ r. get r (or_default p m) ≡ some (or_empty (get r m)))
          ((string_key.same_iff p q).0 hit) (default_present p m) in
      ground (arith, get-modify p q (λ ls. ls ++ (l ∷ [])) (or_default p m))
  | inr miss ↦
      ground (arith, get-modify p q (λ ls. ls ++ (l ∷ [])) (or_default p m), or_default_lem p q m)
]

-- Whether a lock on the file is in the way.
abbrev pub blocked : CoordinationState → DistributedLock → Bool
blocked s l = anyb (conflicts_with (numbered s l)) (get_locks_for_file s l.file_path)

abbrev pub holds : CoordinationState → DistributedLock → String → List DistributedLock
holds s l q =
    if blocked s l
    then get_locks_for_file s q
    else if l.file_path == q
    then get_locks_for_file s q ++ (numbered s l ∷ [])
    else get_locks_for_file s q

pub grant_lock_lem :
    (s : CoordinationState) (l : DistributedLock) (q : String)
    → (get_locks_for_file (grant_lock s l).0 q ≡ holds s l q)
      × ((grant_lock s l).1 ≡ lock_granted (not (blocked s l)))
      × ((grant_lock s l).0.next_lock_id ≡ add_u64 s.next_lock_id 1)
unfolding grant_lock get_locks_for_file
grant_lock_lem s l q =
    let same = or_default_lem l.file_path l.file_path s.locks in
    elim (Bool-cases (blocked s l)) [
      | inl conflicting ↦ rw (same, conflicting) (or_default_lem l.file_path q s.locks, refl, refl)
      | inr free ↦ rw (same, free) (push_lem l.file_path q (numbered s l) s.locks, refl, refl)
    ]
