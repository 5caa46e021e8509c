-- ===== src/Credits/Race/Conserved.antt =====
-- Credits are neither lost nor made in any interleaving.
use rustsmb.Base.{ℕ, ◌+◌, ◌%◌, ◌^◌, ◌≤◌, ◌≡◌, refl, sym, ap, subst, List, [], ◌∷◌, ◌++◌, All, arith}
use rustsmb.Credits.{CreditConfig, CreditManager, with_config, actual_grant}
use rustsmb.Credits.Balance.{IsConfig, bound}
use rustsmb.Credits.Race.{
  Phase, idle, exchange_consume, debited, exchange_grant, credited, Access, call_consume,
  load_consume, refuse_consume, take_consume, retry_consume, count_consume, call_grant, load_grant,
  refuse_grant, take_grant, retry_grant, count_grant, Threads, Step, step, Run, start, next,
}

-- What a thread has taken from the balance and not yet counted as consumed.
abbrev debit : Phase → ℕ
debit (debited charge) = charge
debit _ = 0

-- What a thread has put into the balance and not yet counted as granted.
abbrev credit : Phase → ℕ
credit (credited actual) = actual
credit _ = 0

abbrev debits : List Phase → ℕ
debits [] = 0
debits (p ∷ ps) = debit p + debits ps

abbrev credits_due : List Phase → ℕ
credits_due [] = 0
credits_due (p ∷ ps) = credit p + credits_due ps

debits-append : (ps qs : List Phase) → debits (ps ++ qs) ≡ debits ps + debits qs
debits-append [] qs = omega arith
debits-append (p ∷ ps) qs = omega (arith, debits-append ps qs)

credits_due-append : (ps qs : List Phase) → credits_due (ps ++ qs) ≡ credits_due ps + credits_due qs
credits_due-append [] qs = omega arith
credits_due-append (p ∷ ps) qs = omega (arith, credits_due-append ps qs)

-- What a thread has loaded suits what it is about to write.
abbrev IsSound : ℕ → Phase → Type 0
IsSound b (exchange_consume charge current) = charge ≤ current
IsSound b (exchange_grant credits actual current) = current + actual ≤ b
IsSound b _ = Unit {0}

All-middle :
    (P : Phase → Type 0) (before after : List Phase) (p : Phase)
    → All P (before ++ (p ∷ after))
    → P p × ((q : Phase) → P q → All P (before ++ (q ∷ after)))
All-middle P [] after p h = (h.0, λ q hq. (hq, h.1))
All-middle P (x ∷ before) after p h =
    let rest = All-middle P before after p h.1 in (rest.0, λ q hq. (h.0, rest.1 q hq))

-- The numbers of a manager balance against what one thread is yet to count.
abbrev Agrees : CreditManager → ℕ → ℕ → Type 0
Agrees m out in_ = (m.available + m.consumed + out) % 2 ^ 64 ≡ (m.granted + in_) % 2 ^ 64

record Local (c : CreditConfig) (m : CreditManager) (p : Phase) : Type 0 where
  same : m.config ≡ c
  bounded : m.available ≤ bound c
  sound : IsSound (bound c) p

-- One access keeps the bound and the balance, whatever the other threads are yet to count.
Access-Local :
    (c : CreditConfig) {m n : CreditManager} {p q : Phase}
    → IsConfig c
    → Access m p n q
    → Local c m p
    → Local c n q
unfolding actual_grant
Access-Local c f (call_consume charge) l = ground (arith, l)
Access-Local c f (load_consume charge h) l = ground arith
Access-Local c f (refuse_consume charge h) l = ground arith
Access-Local c f (take_consume charge current h) l = ground arith
Access-Local c f (retry_consume charge current) l = ground arith
Access-Local c f (count_consume charge) l = ground arith
Access-Local c f (call_grant credits h) l = ground arith
Access-Local c f (load_grant credits h) l = ground arith
Access-Local c f (refuse_grant credits h) l = ground arith
Access-Local c f (take_grant credits actual current h) l = ground arith
Access-Local c f (retry_grant credits actual current) l = ground arith
Access-Local c f (count_grant actual) l = ground arith

Access-Agrees :
    (c : CreditConfig) {m n : CreditManager} {p q : Phase} (out in_ : ℕ)
    → IsConfig c
    → Access m p n q
    → Local c m p
    → Agrees m (debit p + out) (credit p + in_)
    → Agrees n (debit q + out) (credit q + in_)
unfolding actual_grant
Access-Agrees c out in_ f (call_consume charge) l a = ground arith
Access-Agrees c out in_ f (load_consume charge h) l a = ground arith
Access-Agrees c out in_ f (refuse_consume charge h) l a = ground arith
Access-Agrees c out in_ f (take_consume charge current h) l a = ground arith
Access-Agrees c out in_ f (retry_consume charge current) l a = ground arith
Access-Agrees c out in_ f (count_consume charge) l a = ground arith
Access-Agrees c out in_ f (call_grant credits h) l a = ground arith
Access-Agrees c out in_ f (load_grant credits h) l a = ground arith
Access-Agrees c out in_ f (refuse_grant credits h) l a = ground arith
Access-Agrees c out in_ f (take_grant credits actual current h) l a = ground arith
Access-Agrees c out in_ f (retry_grant credits actual current) l a = ground arith
Access-Agrees c out in_ f (count_grant actual) l a = ground arith

record IsConserved (c : CreditConfig) (t : Threads) : Type 0 where
  same : t.manager.config ≡ c
  bounded : t.manager.available ≤ bound c
  sound : All (IsSound (bound c)) t.phases
  agrees : Agrees t.manager (debits t.phases) (credits_due t.phases)

debits-middle :
    (before after : List Phase) (p : Phase)
    → debits (before ++ (p ∷ after)) ≡ debit p + (debits before + debits after)
debits-middle before after p = omega (arith, debits-append before (p ∷ after))

credits_due-middle :
    (before after : List Phase) (p : Phase)
    → credits_due (before ++ (p ∷ after)) ≡ credit p + (credits_due before + credits_due after)
credits_due-middle before after p = omega (arith, credits_due-append before (p ∷ after))

Step-IsConserved :
    (c : CreditConfig) (f : IsConfig c) {s t : Threads}
    → Step s t
    → IsConserved c s
    → IsConserved c t
Step-IsConserved c f {s} {t} (step before after p q es et access) v =
    let ok_s = subst (All (IsSound (bound c))) es v.sound in
    let here : Local c s.manager p = record {
      same = v.same;
      bounded = v.bounded;
      sound = (All-middle _ before after p ok_s).0;
    } in
    let there = Access-Local c f access here in
    let balance =
      Access-Agrees c (debits before + debits after) (credits_due before + credits_due after) f
        access here
        (omega (
          arith,
          v.agrees,
          ap debits es,
          ap credits_due es,
          debits-middle before after p,
          credits_due-middle before after p,
        )) in
    record {
      same = there.same;
      bounded = there.bounded;
      sound =
          subst (All (IsSound (bound c))) (sym et)
            ((All-middle _ before after p ok_s).1 q there.sound);
      agrees = omega (
        arith,
        balance,
        ap debits et,
        ap credits_due et,
        debits-middle before after q,
        credits_due-middle before after q,
      );
    }

abbrev AllIdle : List Phase → Type 0
AllIdle = All (λ p. p ≡ idle)

idle_phases :
    (b : ℕ) (ps : List Phase)
    → AllIdle ps
    → (debits ps ≡ 0) × (credits_due ps ≡ 0) × All (IsSound b) ps
idle_phases b [] h = (refl, refl, tt)
idle_phases b (p ∷ ps) h =
    let (d, e, s) = idle_phases b ps h.1 in
    (
      omega (arith, d, ap debit h.0),
      omega (arith, e, ap credit h.0),
      (subst (IsSound b) (sym h.0) tt, s),
    )

-- A manager as `with_config` makes it, and threads that have called nothing yet.
abbrev pub at_rest : CreditConfig → List Phase → Threads
at_rest c ps = record { manager = with_config c; phases = ps }

Run-IsConserved :
    (c : CreditConfig) (f : IsConfig c) (ps : List Phase) (idle : AllIdle ps) {t : Threads}
    → Run (at_rest c ps) t
    → IsConserved c t
unfolding with_config
Run-IsConserved c f ps i start =
    let (d, e, s) = idle_phases (bound c) ps i in
    record { same = refl; bounded = omega arith; sound = s; agrees = omega (arith, d, e) }
Run-IsConserved c f ps i (next run last) = Step-IsConserved c f last (Run-IsConserved c f ps i run)

-- In every interleaving of the calls of any number of threads the balance stays at most the larger
-- of the initial credits and the maximum.
pub Run_bounded :
    (c : CreditConfig) (ps : List Phase) (t : Threads)
    → IsConfig c
    → AllIdle ps
    → Run (at_rest c ps) t
    → t.manager.available ≤ bound c
Run_bounded c ps t f i run = (Run-IsConserved c f ps i run).bounded

-- After every interleaving of the calls of any number of threads, once no call is under way, what is
-- available and what was consumed add up to what was granted, as 64-bit counters.
pub Run_conserves :
    (c : CreditConfig) (ps : List Phase) (t : Threads)
    → IsConfig c
    → AllIdle ps
    → Run (at_rest c ps) t
    → AllIdle t.phases
    → (t.manager.available + t.manager.consumed) % 2 ^ 64 ≡ t.manager.granted % 2 ^ 64
Run_conserves c ps t f i run rest =
    let (d, e, s) = idle_phases (bound c) t.phases rest in
    omega (arith, (Run-IsConserved c f ps i run).agrees, d, e)
