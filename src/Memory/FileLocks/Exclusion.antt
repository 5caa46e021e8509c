-- ===== src/Memory/FileLocks/Exclusion.antt =====
-- The byte-range locks of the in-memory store exclude one another.
use rustsmb.Base.{
  ℕ, ◌≤◌, ◌≡◌, ◌≢◌, ◌↔◌, sym, ◌∙◌, subst, String, Bool, true, false, not, inl, inr, some, anyb,
  anyb-In, anyb_witness, nat_key, string_key, ◌==◌, Bool-cases, arith,
}
use rustsmb.Base.Map.{
  get, insert, retain, values, IsMap, insert_cases, remove_cases, retain_cases, IsMap-insert,
  IsMap-remove, IsMap-retain, get-In, In-get,
}
use rustsmb.Core.Action.{ok}
use rustsmb.State.Lock.{DistributedLock, u64_max, conflicts_with}
use rustsmb.State.Lock.Overlap.{Clash, conflicts_with_iff, conflicts_with_symm}
use rustsmb.Memory.{MemoryStateStore, new}
use rustsmb.Memory.FileLocks.{
  acquire_file_lock, release_file_lock, release_file_locks_for_session,
  release_file_locks_for_handle, release_file_locks_for_server,
}

-- The locks have 64-bit offsets, and no two of them conflict.
pub record IsExclusive (s : MemoryStateStore) : Type 0 where
  pub is_map : IsMap s.file_locks
  in_range : (k : ℕ) (l : DistributedLock) → get k s.file_locks ≡ some l → l.offset ≤ u64_max
  pub apart :
      (i j : ℕ) (a b : DistributedLock)
      → get i s.file_locks ≡ some a
      → get j s.file_locks ≡ some b
      → i ≢ j
      → conflicts_with a b ≡ false

-- A request with a 64-bit offset is granted exactly when its bytes clash with no stored lock.
pub acquire_file_lock_iff :
    (s : MemoryStateStore) (lock : DistributedLock)
    → IsExclusive s
    → lock.offset ≤ u64_max
    → ((acquire_file_lock lock s).0 ≡ ok true)
      ↔ ((k : ℕ) (b : DistributedLock) → get k s.file_locks ≡ some b → ¬ Clash lock b)
unfolding acquire_file_lock
acquire_file_lock_iff s lock x h = (
  λ e k b at clash.
      let found =
        anyb-In (conflicts_with lock) (values s.file_locks) (ground arith)
          (get-In k s.file_locks b at) in
      cc (found, (conflicts_with_iff lock b h (x.in_range k b at)).1 clash),
  λ none. elim (Bool-cases (anyb (conflicts_with lock) (values s.file_locks))) [
    | inl some_one ↦
        let (b, i, c) = anyb_witness (conflicts_with lock) (values s.file_locks) some_one in
        let (k, at) = In-get s.file_locks b x.is_map i in
        absurd (none k b at ((conflicts_with_iff lock b h (x.in_range k b at)).0 c))
    | inr no_one ↦ rw no_one
  ],
)

module _ (s : MemoryStateStore) (x : IsExclusive s) where
  IsExclusive-insert :
      (l : DistributedLock)
      → l.offset ≤ u64_max
      → ((j : ℕ) (b : DistributedLock) → get j s.file_locks ≡ some b → conflicts_with l b ≡ false)
      → IsExclusive (record s { file_locks = insert l.lock_id l s.file_locks })
  IsExclusive-insert l h free = record {
    is_map = IsMap-insert l.lock_id l s.file_locks x.is_map;
    in_range = λ k w e. elim (insert_cases l.lock_id k l w s.file_locks e) [
      | inl (p, q) ↦ subst (λ (y : DistributedLock). y.offset ≤ u64_max) q h
      | inr (p, q) ↦ x.in_range k w q
    ];
    apart = λ i j a b ea eb d. elim (insert_cases l.lock_id i l a s.file_locks ea) [
      | inl (pi, qi) ↦ elim (insert_cases l.lock_id j l b s.file_locks eb) [
        | inl (pj, qj) ↦ absurd (d (sym pi ∙ pj))
        | inr (pj, qj) ↦ subst (λ y. conflicts_with y b ≡ false) qi (free j b qj)
      ]
      | inr (pi, qi) ↦ elim (insert_cases l.lock_id j l b s.file_locks eb) [
        | inl (pj, qj) ↦
            subst (λ y. conflicts_with a y ≡ false) qj (conflicts_with_symm a l ∙ free i a qi)
        | inr (pj, qj) ↦ x.apart i j a b qi qj d
      ]
    ];
  }

  IsExclusive-retain :
      (p : DistributedLock → Bool) → IsExclusive (record s { file_locks = retain p s.file_locks })
  IsExclusive-retain p = record {
    is_map = IsMap-retain p s.file_locks x.is_map;
    in_range = λ k l e. x.in_range k l (retain_cases p k s.file_locks x.is_map e).0;
    apart = λ i j a b ea eb.
        x.apart i j a b (retain_cases p i s.file_locks x.is_map ea).0
          (retain_cases p j s.file_locks x.is_map eb).0;
  }

  acquire_file_lock-IsExclusive :
      (l : DistributedLock) → l.offset ≤ u64_max → IsExclusive (acquire_file_lock l s).1
  unfolding acquire_file_lock
  acquire_file_lock-IsExclusive l h =
      elim (Bool-cases (anyb (conflicts_with l) (values s.file_locks))) [
        | inl taken ↦ rw taken x
        | inr free ↦ rw free (
            IsExclusive-insert l h (λ j b e.
              anyb-In (conflicts_with l) (values s.file_locks) free (get-In j s.file_locks b e)))
      ]

  release_file_lock-IsExclusive : (id : ℕ) → IsExclusive (release_file_lock id s).1
  unfolding release_file_lock
  release_file_lock-IsExclusive id = record {
    is_map = IsMap-remove id s.file_locks x.is_map;
    in_range = λ k l e. x.in_range k l (remove_cases id k l s.file_locks e).1;
    apart = λ i j a b ea eb.
        x.apart i j a b (remove_cases id i a s.file_locks ea).1
          (remove_cases id j b s.file_locks eb).1;
  }

-- A lock step: a lock is asked for, or locks are released, one by one or by owner.
pub data LockStep (s : MemoryStateStore) : MemoryStateStore → Type 0 where
  asks : (l : DistributedLock) → l.offset ≤ u64_max → LockStep s (acquire_file_lock l s).1
  releases : (id : ℕ) → LockStep s (release_file_lock id s).1
  session_ends : (id : ℕ) → LockStep s (release_file_locks_for_session id s).1
  handle_closes : (id : ℕ) → LockStep s (release_file_locks_for_handle id s).1
  server_fails : (id : String) → LockStep s (release_file_locks_for_server id s).1

pub data LockRun (s : MemoryStateStore) : MemoryStateStore → Type 0 where
  start : LockRun s s
  next : {t u : MemoryStateStore} → LockRun s t → LockStep t u → LockRun s u

LockStep-IsExclusive : {s t : MemoryStateStore} → LockStep s t → IsExclusive s → IsExclusive t
unfolding release_file_locks_for_session release_file_locks_for_handle release_file_locks_for_server
LockStep-IsExclusive {s} (asks l h) x = acquire_file_lock-IsExclusive s x l h
LockStep-IsExclusive {s} (releases id) x = release_file_lock-IsExclusive s x id
LockStep-IsExclusive {s} (session_ends id) x =
    IsExclusive-retain s x (λ (l : DistributedLock). not (l.session_id == id))
LockStep-IsExclusive {s} (handle_closes id) x =
    IsExclusive-retain s x (λ (l : DistributedLock). not (l.handle_id == id))
LockStep-IsExclusive {s} (server_fails id) x =
    IsExclusive-retain s x (λ (l : DistributedLock). not (l.server_id == id))

new-IsExclusive : IsExclusive new
unfolding new get
new-IsExclusive = record { is_map = tt; in_range = λ k l e. cc; apart = λ i j a b e f d. cc }

pub LockRun-IsExclusive : {s : MemoryStateStore} → LockRun new s → IsExclusive s
LockRun-IsExclusive start = new-IsExclusive
LockRun-IsExclusive (next run step) = LockStep-IsExclusive step (LockRun-IsExclusive run)

-- After any run of lock steps from the empty store, no two stored locks clash: no byte below the
-- last is covered by locks of two handles on one file of which one is exclusive.
pub LockRun-not-Clash :
    {s : MemoryStateStore} (run : LockRun new s) (i j : ℕ) (a b : DistributedLock)
    → get i s.file_locks ≡ some a
    → get j s.file_locks ≡ some b
    → i ≢ j
    → ¬ Clash a b
LockRun-not-Clash run i j a b ea eb d clash =
    let x = LockRun-IsExclusive run in
    cc (
      x.apart i j a b ea eb d,
      (conflicts_with_iff a b (x.in_range i a ea) (x.in_range j b eb)).1 clash,
    )
