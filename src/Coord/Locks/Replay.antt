-- ===== src/Coord/Locks/Replay.antt =====
-- The lock table after any log of requests.
use rustsmb.Base.{
  ℕ, ◌+◌, ◌^◌, ◌≤◌, ◌<◌, ◌≡◌, ◌≢◌, sym, ap, subst, ◌∙◌, All-In, String, List, [], ◌∷◌, length, inl,
  inr, All, In, Pairwise-In, Bool-cases, string_key, arith,
}
use rustsmb.Base.Map.{Map, get, contains_key}
use rustsmb.State.Lease.{LeaseEntry}
use rustsmb.State.Lock.{DistributedLock, u64_max}
use rustsmb.State.Lock.Overlap.{Clash, conflicts_with_iff, conflicts_with_symm}
use rustsmb.Coord.{
  ServerRegistration, CoordinationState, CoordRequest, register_server, unregister_server,
  update_heartbeat, increment_epoch, create_lease, update_lease, delete_lease, leases_for_file,
  check_conflict, release_leases_for_server, acquire_lock, release_lock, release_locks_for_session,
  release_locks_for_handle, release_locks_for_server, new, apply, replay, get_locks_for_file,
  keep_locks,
}
use rustsmb.Coord.Grant.{grant_lock_lem}
use rustsmb.Coord.Locks.{IsTable, Sound, Apart, keep_locks-IsTable, grant_lock-IsTable}

-- A lock that is asked for has a 64-bit offset.
abbrev pub InRange : CoordRequest → Type 0
InRange (acquire_lock l) = l.offset ≤ u64_max
InRange _ = Unit

rest-IsTable :
    (s : CoordinationState)
    → IsTable s
    → (e : ℕ) (servers : Map String ServerRegistration) (leases : Map String LeaseEntry)
    → IsTable (record s { cache_epoch = e; servers = servers; leases = leases })
unfolding get_locks_for_file
rest-IsTable s v e servers leases = record {
  sound = v.sound;
  apart = v.apart;
  one_file = v.one_file;
}

apply-IsTable :
    (s : CoordinationState)
    → IsTable s
    → (r : CoordRequest) → InRange r
    → s.next_lock_id + 1 < 2 ^ 64
    → IsTable (apply s r).0
unfolding apply
apply-IsTable s v (register_server reg) h fits = rest-IsTable s v _ _ _
apply-IsTable s v (unregister_server id) h fits = rest-IsTable s v _ _ _
apply-IsTable s v (update_heartbeat id t) h fits = rest-IsTable s v _ _ _
apply-IsTable s v increment_epoch h fits = rest-IsTable s v _ _ _
apply-IsTable s v (create_lease l) h fits = elim (Bool-cases (contains_key l.lease_key s.leases)) [
  | inl there ↦ rw (there, apply) v
  | inr new ↦ rw (new, apply) (rest-IsTable s v _ _ _)
]
apply-IsTable s v (update_lease l) h fits = rest-IsTable s v _ _ _
apply-IsTable s v (delete_lease key) h fits = rest-IsTable s v _ _ _
apply-IsTable s v (leases_for_file path) h fits = v
apply-IsTable s v (check_conflict path key requested) h fits = v
apply-IsTable s v (release_leases_for_server id) h fits = rest-IsTable s v _ _ _
apply-IsTable s v (acquire_lock l) h fits = grant_lock-IsTable s v l h fits
apply-IsTable s v (release_lock id) h fits = keep_locks-IsTable s v _
apply-IsTable s v (release_locks_for_session id) h fits = keep_locks-IsTable s v _
apply-IsTable s v (release_locks_for_handle id) h fits = keep_locks-IsTable s v _
apply-IsTable s v (release_locks_for_server id) h fits = keep_locks-IsTable s v _

apply_next :
    (s : CoordinationState) (r : CoordRequest)
    → s.next_lock_id + 1 < 2 ^ 64
    → (apply s r).0.next_lock_id ≤ s.next_lock_id + 1
unfolding apply keep_locks
apply_next s (register_server reg) fits = omega arith
apply_next s (unregister_server id) fits = omega arith
apply_next s (update_heartbeat id t) fits = omega arith
apply_next s increment_epoch fits = omega arith
apply_next s (create_lease l) fits = ground arith
apply_next s (update_lease l) fits = omega arith
apply_next s (delete_lease key) fits = omega arith
apply_next s (leases_for_file path) fits = omega arith
apply_next s (check_conflict path key requested) fits = omega arith
apply_next s (release_leases_for_server id) fits = omega arith
apply_next s (acquire_lock l) fits = ground (arith, (grant_lock_lem s l l.file_path).2)
apply_next s (release_lock id) fits = omega arith
apply_next s (release_locks_for_session id) fits = omega arith
apply_next s (release_locks_for_handle id) fits = omega arith
apply_next s (release_locks_for_server id) fits = omega arith

replay-IsTable :
    (s : CoordinationState)
    → IsTable s
    → (rs : List CoordRequest) → All InRange rs
    → s.next_lock_id + length rs < 2 ^ 64
    → IsTable (replay s rs)
unfolding replay
replay-IsTable s v [] h fits = v
replay-IsTable s v (r ∷ rs) h fits =
    replay-IsTable (apply s r).0 (apply-IsTable s v r h.0 (omega arith)) rs h.1
      (ground (arith, apply_next s r))

new-IsTable : IsTable new
unfolding new get_locks_for_file get
new-IsTable = record { sound = λ p. tt; apart = λ p. tt; one_file = λ p q a b i j e. absurd i }

reached :
    (rs : List CoordRequest) → All InRange rs → 1 + length rs < 2 ^ 64 → IsTable (replay new rs)
unfolding new
reached rs h fits = replay-IsTable new new-IsTable rs h fits

-- Whatever log the replicas apply from the empty state, shorter than 2 ^ 64 - 1 and with 64-bit
-- offsets, two recorded locks with different IDs do not clash: where they are on one file, belong to
-- different handles, and one is exclusive, they share no byte below the last one, 2 ^ 64 - 1. Nothing
-- is said of that last byte.
pub replay-not-Clash :
    (rs : List CoordRequest) (p q : String) (a b : DistributedLock)
    → All InRange rs
    → 1 + length rs < 2 ^ 64
    → In a (get_locks_for_file (replay new rs) p)
    → In b (get_locks_for_file (replay new rs) q)
    → a.lock_id ≢ b.lock_id
    → ¬ Clash a b
replay-not-Clash rs p q a b h fits i j apart clash =
    let s = replay new rs in
    let v = reached rs h fits in
    let ls = get_locks_for_file s p in
    let of_p = All-In (Sound s p) ls (v.sound p) i in
    let of_q = All-In (Sound s q) (get_locks_for_file s q) (v.sound q) j in
    let same : q ≡ p = sym of_q.0 ∙ sym clash.0 ∙ of_p.0 in
    let found = (conflicts_with_iff a b of_p.1 of_q.1).1 clash in
    elim (Pairwise-In Apart ls (v.apart p) i (subst (λ r. In b (get_locks_for_file s r)) same j)) [
      | inl e ↦ apart (ap (λ (x : DistributedLock). x.lock_id) e)
      | inr (inl r) ↦ cc (found, r.0)
      | inr (inr r) ↦ cc (found, r.0, conflicts_with_symm a b)
    ]

-- After such a log an ID is that of one recorded lock at most, on whatever files, so that releasing
-- an ID releases one lock.
replay-unique_id :
    (rs : List CoordRequest) (p q : String) (a b : DistributedLock)
    → All InRange rs
    → 1 + length rs < 2 ^ 64
    → In a (get_locks_for_file (replay new rs) p)
    → In b (get_locks_for_file (replay new rs) q)
    → a.lock_id ≡ b.lock_id
    → (p ≡ q) × (a ≡ b)
replay-unique_id rs p q a b h fits i j e =
    let s = replay new rs in
    let v = reached rs h fits in
    let same = v.one_file p q a b i j e in
    let j' = subst (λ r. In b (get_locks_for_file s r)) (sym same) j in
    (
      same,
      elim (Pairwise-In Apart (get_locks_for_file s p) (v.apart p) i j') [
        | inl f ↦ f
        | inr (inl r) ↦ absurd (r.1 e)
        | inr (inr r) ↦ absurd (r.1 (sym e))
      ],
    )
