-- ===== src/Coordinator/Service/Epochs/Sent.antt =====
-- The epochs of events: those that were broadcast, and those that calls have yet to broadcast.
use rustsmb.Base.{
  ℕ, ◌≡◌, refl, sym, ap, List, [], ◌∷◌, ◌++◌, add_u64, string_key, arith, ◌+◌, if◌then◌else◌,
  nat_eq,
}
use rustsmb.Coordinator.Service.{Send, epoch_change, server_failure, EpochChangeEvent}

-- How often an epoch is in a list, among the events that were broadcast, and among those to come.
abbrev pub count : ℕ → List ℕ → ℕ
count n [] = 0
count n (e ∷ es) = (if nat_eq n e then 1 else 0) + count n es

abbrev pub sent : ℕ → List EpochChangeEvent → ℕ
sent n [] = 0
sent n (v ∷ vs) = (if nat_eq n v.new_epoch then 1 else 0) + sent n vs

abbrev pub owes : ℕ → List Send → ℕ
owes n [] = 0
owes n (epoch_change e reason ∷ rest) = (if nat_eq n e then 1 else 0) + owes n rest
owes n (server_failure id e ∷ rest) = owes n rest

abbrev pub owed : ℕ → List (List Send) → ℕ
owed n [] = 0
owed n (call ∷ calls) = owes n call + owed n calls

-- The epochs that follow `e` one by one, up to `e'`.
abbrev pub Counts : ℕ → List ℕ → ℕ → Type 0
Counts e [] e' = e ≡ e'
Counts e (v ∷ vs) e' = (v ≡ add_u64 e 1) × Counts v vs e'

pub Counts-snoc :
    (e : ℕ) (vs : List ℕ) (e' : ℕ)
    → Counts e vs e'
    → Counts e (vs ++ add_u64 e' 1 ∷ []) (add_u64 e' 1)
Counts-snoc e [] e' h = (ap (λ e. add_u64 e 1) (sym h), refl)
Counts-snoc e (w ∷ vs) e' h = (h.0, Counts-snoc w vs e' h.1)

pub count-snoc :
    (n : ℕ) (es : List ℕ) (e : ℕ)
    → count n (es ++ e ∷ []) ≡ count n es + (if nat_eq n e then 1 else 0)
count-snoc n [] e = omega arith
count-snoc n (x ∷ es) e = omega (arith, count-snoc n es e)

pub sent-snoc :
    (n : ℕ) (vs : List EpochChangeEvent) (v : EpochChangeEvent)
    → sent n (vs ++ v ∷ []) ≡ sent n vs + (if nat_eq n v.new_epoch then 1 else 0)
sent-snoc n [] v = omega arith
sent-snoc n (x ∷ vs) v = omega (arith, sent-snoc n vs v)

pub owed-append :
    (n : ℕ) (before : List (List Send)) (call : List Send) (after : List (List Send))
    → owed n (before ++ (call ∷ after)) ≡ owed n before + owes n call + owed n after
owed-append n [] call after = omega arith
owed-append n (c ∷ before) call after = omega (arith, owed-append n before call after)
