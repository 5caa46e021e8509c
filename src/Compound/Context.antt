-- ===== src/Compound/Context.antt =====
-- What a compound context knows after a run of commands.
use mathlib.Core.List.{reverse, reverse-cons}
use mathlib.Core.Option
use rustsmb.Base.{
  ℕ, ◌+◌, ◌≡◌, refl, ◌∙◌, sym, Bool, not, ◌&&◌, ◌||◌, Option, none, some, List, [], ◌∷◌, ◌++◌,
  append_assoc, append-nil, length, findb, anyb, if◌then◌else◌, arith,
}
use rustsmb.Compound.{
  FileId, CompoundResult, CompoundContext, related, is_related_sentinel, is_some, advance,
  resolve_file_id, has_previous_failure, last_failure_status,
}

-- The context after a list of results, oldest first.
unfoldable advances : CompoundContext → List CompoundResult → CompoundContext
advances c [] = c
advances c (r ∷ rs) = advances (advance c r) rs

abbrev creates : CompoundResult → Bool
creates r = r.is_success && is_some r.file_id

-- The file ID of the last result that opened a file, or `start` where none did.
abbrev pub last_created : Option FileId → List CompoundResult → Option FileId
last_created start [] = start
last_created start (r ∷ rs) = last_created (if creates r then r.file_id else start) rs

advances_lem :
    (c : CompoundContext) (rs : List CompoundResult)
    → (advances c rs).file_id ≡ last_created c.file_id rs
unfolding advances advance
advances_lem c [] = refl
advances_lem c (r ∷ rs) = advances_lem (advance c r) rs

advances_results :
    (c : CompoundContext) (rs : List CompoundResult)
    → ((advances c rs).previous_results ≡ c.previous_results ++ rs)
      × ((advances c rs).current_index ≡ c.current_index + length rs)
      × ((advances c rs).is_related ≡ c.is_related)
unfolding advances advance
advances_results c [] = (sym (append-nil _), omega arith, refl)
advances_results c (r ∷ rs) =
    let (a, b, d) = advances_results (advance c r) rs in
    (a ∙ append_assoc c.previous_results (r ∷ []) rs, omega (arith, b), d)

-- In a related compound, after any results, a request that names the sentinel gets the file of the
-- last command that opened one, and any other request the file that it names.
resolve_file_id-advances :
    (total : ℕ) (rs : List CompoundResult) (request : FileId)
    → resolve_file_id (advances (related total) rs) request
      ≡ (if is_related_sentinel request then last_created none rs else some request)
unfolding related resolve_file_id
resolve_file_id-advances total rs request =
    let c = related total in ground (arith, advances_results c rs, advances_lem c rs)

-- The status of the last result that failed, or `start` where none did.
abbrev last_failed : Option ℕ → List CompoundResult → Option ℕ
last_failed start [] = start
last_failed start (r ∷ rs) = last_failed (if r.is_success then start else some r.status) rs

abbrev or_else {ℓ} : {A : Type ℓ} → Option A → Option A → Option A
or_else none o = o
or_else (some a) o = some a

findb-append :
    (p : CompoundResult → Bool) (xs ys : List CompoundResult)
    → findb p (xs ++ ys) ≡ or_else (findb p xs) (findb p ys)
findb-append p [] ys = refl
findb-append p (x ∷ xs) ys = ground (arith, findb-append p xs ys)

abbrev status_of : Option CompoundResult → Option ℕ
status_of = Option.map (λ (r : CompoundResult). r.status)

last_failed-reverse :
    (start : Option ℕ) (rs : List CompoundResult)
    → or_else (status_of (findb (λ r. not r.is_success) (reverse rs))) start ≡ last_failed start rs
last_failed-reverse start [] = refl
last_failed-reverse start (r ∷ rs) =
    let step = findb-append (λ r. not r.is_success) (reverse rs) (r ∷ []) in
    rw (reverse-cons r rs, step)
      (ground (arith, last_failed-reverse (if r.is_success then start else some r.status) rs))

-- After any results, the last failure status is that of the last result that failed.
last_failure_status-advances :
    (total : ℕ) (rs : List CompoundResult)
    → last_failure_status (advances (related total) rs) ≡ last_failed none rs
unfolding last_failure_status related
last_failure_status-advances total rs =
    rw (advances_results (related total) rs).0 (ground (arith, last_failed-reverse none rs))

anyb_of_last_failed :
    (start : Option ℕ) (rs : List CompoundResult)
    → is_some (last_failed start rs) ≡ (is_some start || anyb (λ r. not r.is_success) rs)
anyb_of_last_failed start [] = ground arith
anyb_of_last_failed start (r ∷ rs) =
    ground (arith, anyb_of_last_failed (if r.is_success then start else some r.status) rs)

-- A failure is seen exactly when there is a last failure status.
has_previous_failure-advances :
    (total : ℕ) (rs : List CompoundResult)
    → has_previous_failure (advances (related total) rs)
      ≡ is_some (last_failure_status (advances (related total) rs))
unfolding has_previous_failure related
has_previous_failure-advances total rs =
    rw (last_failure_status-advances total rs, (advances_results (related total) rs).0)
      (ground (arith, anyb_of_last_failed none rs))
