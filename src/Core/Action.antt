-- ===== src/Core/Action.antt =====
-- `Result`, and methods that change a state `S` and return a `Result`. What is written before an
-- error stays written.
use rustsmb.Base.{Option, none, some, List, [], ◌∷◌}

pub data Result {ℓ} (E A : Type ℓ) : Type ℓ where
  ok : A → Result E A
  err : E → Result E A

abbrev pub Action : Type 0 → Type 0 → Type 0 → Type 0
Action S E A = S → Result E A × S

module _ {S E A : Type 0} where
  abbrev pub pure : A → Action S E A
  pure a s = (ok a, s)

  abbrev pub fail : E → Action S E A
  fail e s = (err e, s)

  -- `r.ok_or(e)?`
  abbrev pub or_fail : Option A → E → Action S E A
  or_fail none e = fail e
  or_fail (some a) e = pure a

module _ {S E A B : Type 0} where
  abbrev pub proceed : Result E A → (A → Action S E B) → Action S E B
  proceed (ok a) f = f a
  proceed (err e) f = fail e

  infixl 10 ◌>>=◌ ◌>>◌
  abbrev pub ◌>>=◌ : Action S E A → (A → Action S E B) → Action S E B
  ◌>>=◌ m f s = let (r, s') = m s in proceed r f s'

  abbrev pub ◌>>◌ : Action S E A → Action S E B → Action S E B
  m >> n = m >>= λ _. n

abbrev convert : {E F A : Type 0} → Result E A → F → Result F A
convert (ok a) f = ok a
convert (err e) f = err f

module _ {S E F A : Type 0} where
  -- `m.map_err(|_| f)?`
  abbrev pub map_err : Action S E A → F → Action S F A
  map_err m f s = let (r, s') = m s in (convert r f, s')

  -- `let _ = m;`
  abbrev pub ignore : Action S E A → Action S F (Unit {0})
  ignore m s = (ok tt, (m s).1)

-- `for a in list { body(a)?; }`
unfoldable pub for_each :
    {S E A : Type 0} → List A → (A → Action S E (Unit {0})) → Action S E (Unit {0})
for_each [] body = pure tt
for_each (a ∷ rest) body = body a >> for_each rest body
