-- ===== src/Base/Lists.antt =====
-- Lists measured and indexed by native numbers, filters by Boolean tests, and predicates on lists.
use Prim.Native.Nat.{ℕ, zero, suc, ◌+◌, ◌≤◌}
use mathlib.Core.Path.{◌≡◌, refl, sym, ap, ◌∙◌, subst}
use mathlib.Core.Bool.{Bool, true, false, ◌||◌}
use mathlib.Core.List.{List, [], ◌∷◌, ◌++◌}
use mathlib.Core.Option.{Option, none, some}
use mathlib.Core.Logic.{◌↔◌, ◌⊎◌, inl, inr}
use native.Mathlib.Omega.{arith}
use rustsmb.Base.Tests.{if◌then◌else◌, Bool-cases}

module _ {ℓ} {A : Type ℓ} where
  abbrev pub length : List A → ℕ
  length [] = 0
  length (x ∷ xs) = suc (length xs)

  abbrev pub get_elem? : List A → ℕ → Option A
  get_elem? [] i = none
  get_elem? (x ∷ xs) zero = some x
  get_elem? (x ∷ xs) (suc i) = get_elem? xs i

  -- The elements that pass a Boolean test.
  abbrev pub filterb : (A → Bool) → List A → List A
  filterb p [] = []
  filterb p (x ∷ xs) = if p x then x ∷ filterb p xs else filterb p xs

  -- Whether some element passes a Boolean test.
  abbrev pub anyb : (A → Bool) → List A → Bool
  anyb p [] = false
  anyb p (x ∷ xs) = p x || anyb p xs

  -- The first element that passes a Boolean test.
  abbrev pub findb : (A → Bool) → List A → Option A
  findb p [] = none
  findb p (x ∷ xs) = if p x then some x else findb p xs

  abbrev pub All {κ} : (A → Type κ) → List A → Type κ
  All P [] = Unit {κ}
  All P (x ∷ xs) = P x × All P xs

  -- Every two elements, the earlier one first, are related.
  abbrev pub Pairwise {κ} : (A → A → Type κ) → List A → Type κ
  Pairwise R [] = Unit {κ}
  Pairwise R (x ∷ xs) = All (R x) xs × Pairwise R xs

module _ {ℓ} {A : Type ℓ} where
  pub length-append : (xs ys : List A) → length (xs ++ ys) ≡ length xs + length ys
  length-append [] ys = omega arith
  length-append (x ∷ xs) ys = omega (arith, length-append xs ys)

  pub length-filterb-le : (p : A → Bool) (xs : List A) → length (filterb p xs) ≤ length xs
  length-filterb-le p [] = omega arith
  length-filterb-le p (x ∷ xs) = ground (arith, length-filterb-le p xs)

  pub All-filterb {κ} :
      (P : A → Type κ) (p : A → Bool) (xs : List A) → All P xs → All P (filterb p xs)
  All-filterb P p [] h = tt
  All-filterb P p (x ∷ xs) h = ground (arith, All-filterb P p xs h.1)

  pub Pairwise-filterb {κ} :
      (R : A → A → Type κ) (p : A → Bool) (xs : List A) → Pairwise R xs → Pairwise R (filterb p xs)
  Pairwise-filterb R p [] h = tt
  Pairwise-filterb R p (x ∷ xs) h =
      ground (arith, Pairwise-filterb R p xs h.1, All-filterb (R x) p xs h.0)

-- Membership as a type that computes on a list.
abbrev pub In : {A : Type 0} → A → List A → Type 0
In a [] = ⊥
In a (x ∷ xs) = (a ≡ x) ⊎ In a xs

module _ {A : Type 0} where
  pub All-In {κ} : (P : A → Type κ) (xs : List A) {a : A} → All P xs → In a xs → P a
  All-In P [] h i = absurd i
  All-In P (x ∷ xs) h (inl e) = rw e h.0
  All-In P (x ∷ xs) h (inr i) = All-In P xs h.1 i

  pub All-of_In {κ} : (P : A → Type κ) (xs : List A) → ((a : A) → In a xs → P a) → All P xs
  All-of_In P [] h = tt
  All-of_In P (x ∷ xs) h = (h x (inl refl), All-of_In P xs (λ a i. h a (inr i)))

  pub All-map {κ η} :
      (P : A → Type κ) (Q : A → Type η) (xs : List A) → ((a : A) → P a → Q a) → All P xs → All Q xs
  All-map P Q [] f h = tt
  All-map P Q (x ∷ xs) f h = (f x h.0, All-map P Q xs f h.1)

  -- What a filter keeps passes the test, and what passes is kept.
  pub In-filterb_iff :
      (p : A → Bool) (xs : List A) (a : A) → In a (filterb p xs) ↔ (In a xs × (p a ≡ true))
  In-filterb_iff p [] a = (λ i. absurd i, λ i. absurd i.0)
  In-filterb_iff p (x ∷ xs) a = elim (Bool-cases (p x)) [
    | inl hit ↦ rw hit (
      λ i. elim i [
        | inl e ↦ (inl e, rw e hit)
        | inr j ↦ (inr ((In-filterb_iff p xs a).0 j).0, ((In-filterb_iff p xs a).0 j).1)
      ],
      λ h. elim h.0 [ inl e ↦ inl e | inr j ↦ inr ((In-filterb_iff p xs a).1 (j, h.1)) ],
    )
    | inr miss ↦ rw miss (
      λ i. (inr ((In-filterb_iff p xs a).0 i).0, ((In-filterb_iff p xs a).0 i).1),
      λ h. elim h.0 [ inl e ↦ cc (h.1, ap p e) | inr j ↦ (In-filterb_iff p xs a).1 (j, h.1) ],
    )
  ]

  pub All-append {κ} : (P : A → Type κ) (xs ys : List A) → All P xs → All P ys → All P (xs ++ ys)
  All-append P [] ys hx hy = hy
  All-append P (x ∷ xs) ys hx hy = (hx.0, All-append P xs ys hx.1 hy)

-- A test that no element passes, fails at each.
pub anyb-In :
    {A : Type 0} (p : A → Bool) (xs : List A) {a : A} → anyb p xs ≡ false → In a xs → p a ≡ false
anyb-In p [] n i = absurd i
anyb-In p (x ∷ xs) n (inl e) = rw e (ground arith)
anyb-In p (x ∷ xs) n (inr i) = anyb-In p xs (ground arith) i

-- A test that some element passes.
pub anyb_witness :
    {A : Type 0} (p : A → Bool) (xs : List A) → anyb p xs ≡ true → (a : A) × In a xs × (p a ≡ true)
anyb_witness p [] e = absurd (ground arith)
anyb_witness p (x ∷ xs) e = elim (Bool-cases (p x)) [
  | inl hit ↦ (x, inl refl, hit)
  | inr miss ↦ let (a, i, h) = anyb_witness p xs (ground arith) in (a, inr i, h)
]

pub Pairwise-snoc {κ} :
    {A : Type 0} (R : A → A → Type κ) (xs : List A) (y : A)
    → Pairwise R xs
    → All (λ x. R x y) xs
    → Pairwise R (xs ++ (y ∷ []))
Pairwise-snoc R [] y h k = (tt, tt)
Pairwise-snoc R (x ∷ xs) y h k =
    (All-append (R x) xs (y ∷ []) h.0 (k.0, tt), Pairwise-snoc R xs y h.1 k.1)

pub In-append_cases : {A : Type 0} (a : A) (xs ys : List A) → In a (xs ++ ys) → In a xs ⊎ In a ys
In-append_cases a [] ys i = inr i
In-append_cases a (x ∷ xs) ys (inl e) = inl (inl e)
In-append_cases a (x ∷ xs) ys (inr i) = elim (In-append_cases a xs ys i) [
  | inl j ↦ inl (inr j)
  | inr j ↦ inr j
]

-- Two elements of a list whose elements are pairwise related are one, or are related.
pub Pairwise-In {κ} :
    {A : Type 0} (R : A → A → Type κ) (xs : List A) {a b : A}
    → Pairwise R xs
    → In a xs
    → In b xs
    → (a ≡ b) ⊎ (R a b ⊎ R b a)
Pairwise-In R [] h i j = absurd i
Pairwise-In R (x ∷ xs) h (inl e) (inl f) = inl (e ∙ sym f)
Pairwise-In R (x ∷ xs) {b = b} h (inl e) (inr j) =
    inr (inl (subst (λ z. R z b) (sym e) (All-In (R x) xs h.0 j)))
Pairwise-In R (x ∷ xs) {a = a} h (inr i) (inl f) =
    inr (inr (subst (λ z. R z a) (sym f) (All-In (R x) xs h.0 i)))
Pairwise-In R (x ∷ xs) h (inr i) (inr j) = Pairwise-In R xs h.1 i j

-- What is found satisfies what all satisfy.
pub All-findb :
    {A : Type 0} (P : A → Type 0) (p : A → Bool) (xs : List A) {x : A}
    → All P xs
    → findb p xs ≡ some x
    → P x
All-findb P p [] h e = cc
All-findb P p (y ∷ ys) {x} h e = elim (Bool-cases (p y)) [
  | inl hit ↦ subst P (cc (rw (hit, findb) at e)) h.0
  | inr miss ↦ All-findb P p ys h.1 (rw (miss, findb) at e)
]

pub All-without :
    {A : Type 0} (P : A → Type 0) (front back : List A) (x : A)
    → All P (front ++ (x ∷ back))
    → P x × All P (front ++ back)
All-without P [] back x h = h
All-without P (y ∷ front) back x h =
    let (here, rest) = All-without P front back x h.1 in (here, (h.0, rest))
