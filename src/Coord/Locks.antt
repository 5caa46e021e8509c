-- ===== src/Coord/Locks.antt =====
-- The lock table of the coordinators: its locks exclude one another, and each has its own ID.
pub mod Replay
use rustsmb.Base.{
  ℕ, ◌+◌, ◌^◌, ◌≤◌, ◌<◌, ◌≡◌, ◌≢◌, ◌↔◌, refl, sym, ap, String, Bool, true, false, not, Option, none,
  some, List, [], ◌∷◌, ◌++◌, length, inl, inr, filterb, anyb, anyb-In, anyb_witness, All, All-In,
  All-of_In, All-map, All-append, All-filterb, Pairwise, Pairwise-filterb, In, nat_key, string_key,
  ◌==◌, nat_eq_iff, Pairwise-snoc, In-append_cases, In-filterb_iff, subst, ◌⊎◌, ◌∙◌, add_u64,
  Bool-cases, Option-cases, if◌then◌else◌, arith,
}
use rustsmb.Base.Map.{
  Map, get, insert, modify, contains_key, map_values, get-insert, get-modify, get-map_values,
}
use rustsmb.State.Lock.{DistributedLock, u64_max, conflicts_with}
use rustsmb.State.Lock.Overlap.{Clash, conflicts_with_iff, conflicts_with_symm}
use rustsmb.Coord.{
  CoordinationState, CoordRequest, CoordResponse, lock_granted, new, or_empty, or_default,
  get_locks_for_file, grant_lock, keep_locks,
}
use rustsmb.Coord.Grant.{numbered, blocked, holds, grant_lock_lem}

abbrev pub Sound : CoordinationState → String → DistributedLock → Type 0
Sound s p l = (l.file_path ≡ p) × (l.offset ≤ u64_max) × (l.lock_id < s.next_lock_id)

abbrev pub Apart : DistributedLock → DistributedLock → Type 0
Apart a b = (conflicts_with a b ≡ false) × (a.lock_id ≢ b.lock_id)

-- The locks of a file are of that file, have 64-bit offsets and IDs that are used up, exclude one
-- another and have their own IDs, and an ID is not that of locks of two files.
pub record IsTable (s : CoordinationState) : Type 0 where
  pub sound : (p : String) → All (Sound s p) (get_locks_for_file s p)
  pub apart : (p : String) → Pairwise Apart (get_locks_for_file s p)
  pub one_file :
      (p q : String) (a b : DistributedLock)
      → In a (get_locks_for_file s p)
      → In b (get_locks_for_file s q)
      → a.lock_id ≡ b.lock_id
      → p ≡ q

not_blocked : (b : Bool) → lock_granted (not b) ≡ lock_granted true → b ≡ false
not_blocked true e = cc e
not_blocked false e = refl

-- A lock is granted exactly when its bytes clash with no lock that is recorded for its file.
grant_lock_iff :
    (s : CoordinationState) (l : DistributedLock)
    → IsTable s
    → l.offset ≤ u64_max
    → ((grant_lock s l).1 ≡ lock_granted true)
      ↔ ((b : DistributedLock) → In b (get_locks_for_file s l.file_path) → ¬ Clash (numbered s l) b)
grant_lock_iff s l v h =
    let ls = get_locks_for_file s l.file_path in
    let reply = (grant_lock_lem s l l.file_path).1 in
    let exact : (b : DistributedLock)
        → In b ls
        → (conflicts_with (numbered s l) b ≡ true) ↔ Clash (numbered s l) b =
      λ b i.
        conflicts_with_iff (numbered s l) b h
          (All-In (Sound s l.file_path) ls (v.sound l.file_path) i).1 in
    (
      λ e b i clash.
          let free : blocked s l ≡ false = not_blocked (blocked s l) (sym reply ∙ e) in
          cc (anyb-In (conflicts_with (numbered s l)) ls free i, (exact b i).1 clash),
      λ none. elim (Bool-cases (blocked s l)) [
        | inl conflicting ↦
            let (b, i, c) = anyb_witness (conflicts_with (numbered s l)) ls conflicting in
            absurd (none b i ((exact b i).0 c))
        | inr free ↦ reply ∙ rw free refl
      ],
    )

-- What dropping locks leaves for a file.
pub get-keep_locks :
    (keeps : DistributedLock → Bool) (s : CoordinationState) (p : String)
    → get_locks_for_file (keep_locks keeps s) p ≡ filterb keeps (get_locks_for_file s p)
unfolding keep_locks get_locks_for_file
get-keep_locks keeps s p = ground (arith, get-map_values p (filterb keeps) s.locks)

kept_In :
    (keeps : DistributedLock → Bool) (s : CoordinationState) (p : String) (a : DistributedLock)
    → In a (get_locks_for_file (keep_locks keeps s) p)
    → In a (get_locks_for_file s p)
kept_In keeps s p a i =
    ((In-filterb_iff keeps (get_locks_for_file s p) a).0
      (subst (In a) (get-keep_locks keeps s p) i)).0

granted_In :
    (s : CoordinationState) (l : DistributedLock) (p : String) (a : DistributedLock)
    → In a (get_locks_for_file (grant_lock s l).0 p)
    → In a (get_locks_for_file s p) ⊎ ((a ≡ numbered s l) × (l.file_path ≡ p))
granted_In s l p a i =
    let after = subst (In a) (grant_lock_lem s l p).0 i in
    elim (Bool-cases (blocked s l)) [
      | inl conflicting ↦ inl (rw conflicting at after)
      | inr free ↦ elim (Bool-cases (l.file_path == p)) [
        | inl hit ↦
            elim (In-append_cases a (get_locks_for_file s p) (numbered s l ∷ [])
              (rw (free, hit) at after)) [
                | inl j ↦ inl j
                | inr (inl e) ↦ inr (e, (string_key.same_iff l.file_path p).0 hit)
                | inr (inr j) ↦ absurd j
              ]
        | inr miss ↦ inl (rw (free, miss) at after)
      ]
    ]

module _ (s : CoordinationState) (v : IsTable s) where
  -- Dropping locks keeps the table in order.
  keep_locks-IsTable : (keeps : DistributedLock → Bool) → IsTable (keep_locks keeps s)
  unfolding keep_locks
  keep_locks-IsTable keeps = record {
    sound = λ p.
        rw (get-keep_locks keeps s p)
          (All-filterb (Sound s p) keeps (get_locks_for_file s p) (v.sound p));
    apart = λ p.
        rw (get-keep_locks keeps s p)
          (Pairwise-filterb Apart keeps (get_locks_for_file s p) (v.apart p));
    one_file =
        λ p q a b i j e. v.one_file p q a b (kept_In keeps s p a i) (kept_In keeps s q b j) e;
  }

  -- The new lock stands apart from those of its file.
  new-Apart :
      (l : DistributedLock)
      → blocked s l ≡ false
      → All (λ x. Apart x (numbered s l)) (get_locks_for_file s l.file_path)
  new-Apart l free =
      let ls = get_locks_for_file s l.file_path in
      All-of_In (λ x. Apart x (numbered s l)) ls
        (λ x i. (
          conflicts_with_symm x (numbered s l) ∙ anyb-In (conflicts_with (numbered s l)) ls free i,
          λ e. ground (arith, All-In (Sound s l.file_path) ls (v.sound l.file_path) i),
        ))

  granted-Apart :
      (l : DistributedLock) (p : String) → Pairwise Apart (get_locks_for_file (grant_lock s l).0 p)
  granted-Apart l p = rw ((grant_lock_lem s l p).0) (elim (Bool-cases (blocked s l)) [
    | inl conflicting ↦ rw conflicting (v.apart p)
    | inr free ↦ elim (Bool-cases (l.file_path == p)) [
      | inl hit ↦
          let beside =
            subst (λ q. All (λ x. Apart x (numbered s l)) (get_locks_for_file s q))
              ((string_key.same_iff l.file_path p).0 hit) (new-Apart l free) in
          rw (free, hit)
            (Pairwise-snoc Apart (get_locks_for_file s p) (numbered s l) (v.apart p) beside)
      | inr miss ↦ rw (free, miss) (v.apart p)
    ]
  ])

  -- Granting keeps the table in order, while IDs are left.
  grant_lock-IsTable :
      (l : DistributedLock)
      → l.offset ≤ u64_max
      → s.next_lock_id + 1 < 2 ^ 64
      → IsTable (grant_lock s l).0
  grant_lock-IsTable l h fits =
      let next = (grant_lock_lem s l l.file_path).2 in
      let older : (p : String) (a : DistributedLock)
          → In a (get_locks_for_file s p)
          → a.lock_id < s.next_lock_id =
        λ p a i. (All-In (Sound s p) (get_locks_for_file s p) (v.sound p) i).2 in
      record {
        sound = λ p.
            All-of_In (Sound (grant_lock s l).0 p) (get_locks_for_file (grant_lock s l).0 p) (λ a i.
              elim (granted_In s l p a i) [
                | inl j ↦ ground (arith, All-In (Sound s p) (get_locks_for_file s p) (v.sound p) j)
                | inr (e, f) ↦ subst (Sound (grant_lock s l).0 p) (sym e) (f, h, ground arith)
              ]);
        apart = granted-Apart l;
        one_file = λ p q a b i j e. elim (granted_In s l p a i) [
          | inl i' ↦ elim (granted_In s l q b j) [
            | inl j' ↦ v.one_file p q a b i' j' e
            | inr (same, at) ↦
                absurd (ground (arith, older p a i', ap (λ (x : DistributedLock). x.lock_id) same))
          ]
          | inr (same, at) ↦ elim (granted_In s l q b j) [
            | inl j' ↦
                absurd (ground (arith, older q b j', ap (λ (x : DistributedLock). x.lock_id) same))
            | inr (same', at') ↦ sym at ∙ at'
          ]
        ];
      }
