-- ===== src/LeaseBreak/Expired.antt =====
-- What the timer does with the breaks of leases that nobody has acknowledged in time.
use rustsmb.Base.{
  ℕ, ◌≡◌, not, Option, none, some, List, [], ◌∷◌, refl, ap, ◌∙◌, nat_key, ◌==◌, Bool-cases, inl,
  inr, arith,
}
use rustsmb.Base.Map
use rustsmb.Base.Map.{Map, retain, keep, IsMap, get-insert, get-remove, get-retain}
use rustsmb.LeaseBreak.{PendingBreak, timed_out, LeaseBreakRegistry}
use rustsmb.LeaseBreak.Lease.{is_expired, expire, process_expired_breaks}

-- What is under a key, where what is under it in another map comes to an end.
abbrev unless : {A V : Type 0} → Option A → Option V → Option V → Option V
unless none new old = old
unless (some a) new old = new

unless_same : {A V : Type 0} (a : Option A) (v : Option V) → unless a v v ≡ v
unless_same none v = refl
unless_same (some a) v = refl

expire-get :
    (id : ℕ) (expired : List (ℕ × PendingBreak)) (s : LeaseBreakRegistry)
    → (Map.get id (expire expired s).pending_breaks
        ≡ unless (Map.get id expired) none (Map.get id s.pending_breaks))
      × (Map.get id (expire expired s).answers
          ≡ unless (Map.get id expired) (some timed_out) (Map.get id s.answers))
unfolding Map.get
expire-get id [] s = (refl, refl)
expire-get id ((i, b) ∷ rest) s =
    let s' : LeaseBreakRegistry = record s {
      pending_breaks = Map.remove i s.pending_breaks;
      answers = Map.insert i timed_out s.answers;
    } in
    let (p, a) = expire-get id rest s' in
    let removed = get-remove i id s.pending_breaks in
    let inserted = get-insert i id timed_out s.answers in
    elim (Bool-cases (i == id)) [
      | inl hit ↦
          let gone : Map.get id s'.pending_breaks ≡ none = removed ∙ rw hit refl in
          let told : Map.get id s'.answers ≡ some timed_out = inserted ∙ rw hit refl in
          rw hit (
            p ∙ ap (unless (Map.get id rest) none) gone ∙ unless_same (Map.get id rest) none,
            a
                ∙ ap (unless (Map.get id rest) (some timed_out)) told
                ∙ unless_same (Map.get id rest) (some timed_out),
          )
      | inr miss ↦
          let stays : Map.get id s'.pending_breaks ≡ Map.get id s.pending_breaks =
            removed ∙ rw miss refl in
          let same : Map.get id s'.answers ≡ Map.get id s.answers = inserted ∙ rw miss refl in
          rw miss (
            p ∙ ap (unless (Map.get id rest) none) stays,
            a ∙ ap (unless (Map.get id rest) (some timed_out)) same,
          )
    ]

-- The timer takes out just the breaks whose deadline has come, answers each of them that it timed out, and
-- leaves the other breaks and their answers as they are.
pub process_expired_breaks_lem :
    (now id : ℕ) (s : LeaseBreakRegistry)
    → IsMap s.pending_breaks
    → let out = (process_expired_breaks now s).1 in
      (Map.get id out.pending_breaks
        ≡ keep (λ b. not (is_expired now b)) (Map.get id s.pending_breaks))
      × (Map.get id out.answers
          ≡ unless
              (keep (is_expired now) (Map.get id s.pending_breaks))
              (some timed_out)
              (Map.get id s.answers))
unfolding process_expired_breaks
process_expired_breaks_lem now id s h =
    let (p, a) = expire-get id (retain (is_expired now) s.pending_breaks) s in
    let which = get-retain (is_expired now) id s.pending_breaks h in
    (
      p
          ∙ ap (λ (o : Option PendingBreak). unless o none (Map.get id s.pending_breaks)) which
          ∙ kept (Map.get id s.pending_breaks),
      a ∙ ap (λ (o : Option PendingBreak). unless o (some timed_out) (Map.get id s.answers)) which,
    )
  where
    kept :
        (o : Option PendingBreak)
        → unless (keep (is_expired now) o) none o ≡ keep (λ b. not (is_expired now b)) o
    kept none = refl
    kept (some b) = ground arith
