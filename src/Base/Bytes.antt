-- ===== src/Base/Bytes.antt =====
-- Byte lists: writing in place, cutting out, and a length that is set.
use Prim.Native.Nat.{ℕ, zero, suc, ◌+◌, ◌≤◌, ◌<◌}
use mathlib.Core.Path.{◌≡◌, refl, ap, ◌∙◌}
use mathlib.Core.List.{List, [], ◌∷◌, ◌++◌}
use mathlib.Core.Option.{none, some}
use native.Mathlib.Omega.{arith}
use rustsmb.Base.Tests.{if◌then◌else◌, ltb}
use rustsmb.Base.Lists.{length, get_elem?}

-- `data[pos..pos + values.len()].copy_from_slice(values)`, where that is in range.
abbrev overwrite : List ℕ → List ℕ → List ℕ
overwrite [] data_ = data_
overwrite (n ∷ ns) [] = []
overwrite (n ∷ ns) (x ∷ xs) = n ∷ overwrite ns xs

abbrev pub write_at : ℕ → List ℕ → List ℕ → List ℕ
write_at zero values data_ = overwrite values data_
write_at (suc pos) values [] = []
write_at (suc pos) values (x ∷ xs) = x ∷ write_at pos values xs

abbrev pub zeros : ℕ → List ℕ
zeros zero = []
zeros (suc n) = 0 ∷ zeros n

length-overwrite : (ns xs : List ℕ) → length (overwrite ns xs) ≡ length xs
length-overwrite [] xs = refl
length-overwrite (n ∷ ns) [] = refl
length-overwrite (n ∷ ns) (x ∷ xs) = omega (arith, length-overwrite ns xs)

pub length-write_at : (pos : ℕ) (ns xs : List ℕ) → length (write_at pos ns xs) ≡ length xs
length-write_at zero ns xs = length-overwrite ns xs
length-write_at (suc pos) ns [] = refl
length-write_at (suc pos) ns (x ∷ xs) = omega (arith, length-write_at pos ns xs)

-- What stands before the place that is written stays.
pub get_elem?-write_at :
    (pos i : ℕ) (ns xs : List ℕ) → i < pos → get_elem? (write_at pos ns xs) i ≡ get_elem? xs i
get_elem?-write_at zero i ns xs h = absurd (omega arith)
get_elem?-write_at (suc pos) i ns [] h = refl
get_elem?-write_at (suc pos) zero ns (x ∷ xs) h = refl
get_elem?-write_at (suc pos) (suc i) ns (x ∷ xs) h = get_elem?-write_at pos i ns xs (omega arith)

get_elem?-overwrite :
    (k : ℕ) (ns xs : List ℕ)
    → k < length ns
    → length ns ≤ length xs
    → get_elem? (overwrite ns xs) k ≡ get_elem? ns k
get_elem?-overwrite k [] xs h l = absurd (omega arith)
get_elem?-overwrite k (n ∷ ns) [] h l = absurd (omega arith)
get_elem?-overwrite zero (n ∷ ns) (x ∷ xs) h l = refl
get_elem?-overwrite (suc k) (n ∷ ns) (x ∷ xs) h l =
    get_elem?-overwrite k ns xs (omega arith) (omega arith)

pub get_elem?-written :
    (pos k i : ℕ) (ns xs : List ℕ)
    → i ≡ pos + k
    → k < length ns
    → pos + length ns ≤ length xs
    → get_elem? (write_at pos ns xs) i ≡ get_elem? ns k
get_elem?-written zero k i ns xs e h l =
    ap (get_elem? (overwrite ns xs)) (omega (arith, e))
    ∙ get_elem?-overwrite k ns xs h (omega arith)
get_elem?-written (suc pos) k zero ns xs e h l = absurd (omega arith)
get_elem?-written (suc pos) k (suc i) ns [] e h l = absurd (omega arith)
get_elem?-written (suc pos) k (suc i) ns (x ∷ xs) e h l =
    get_elem?-written pos k i ns xs (omega arith) h (omega arith)

pub get_elem?-append_left :
    (xs ys : List ℕ) (i : ℕ) → i < length xs → get_elem? (xs ++ ys) i ≡ get_elem? xs i
get_elem?-append_left [] ys i h = absurd (omega arith)
get_elem?-append_left (x ∷ xs) ys zero h = refl
get_elem?-append_left (x ∷ xs) ys (suc i) h = get_elem?-append_left xs ys i (omega arith)

pub length-zeros : (n : ℕ) → length (zeros n) ≡ n
length-zeros zero = refl
length-zeros (suc n) = omega (arith, length-zeros n)

-- `data.resize(n, 0)`
abbrev pub resize : ℕ → List ℕ → List ℕ
resize zero xs = []
resize (suc n) [] = 0 ∷ resize n []
resize (suc n) (x ∷ xs) = x ∷ resize n xs

abbrev pub take : ℕ → List ℕ → List ℕ
take zero xs = []
take (suc n) [] = []
take (suc n) (x ∷ xs) = x ∷ take n xs

abbrev pub drop : ℕ → List ℕ → List ℕ
drop zero xs = xs
drop (suc n) [] = []
drop (suc n) (x ∷ xs) = drop n xs

pub length-resize : (n : ℕ) (xs : List ℕ) → length (resize n xs) ≡ n
length-resize zero xs = refl
length-resize (suc n) [] = omega (arith, length-resize n [])
length-resize (suc n) (x ∷ xs) = omega (arith, length-resize n xs)

take-overwrite : (ns xs : List ℕ) → length ns ≤ length xs → take (length ns) (overwrite ns xs) ≡ ns
take-overwrite [] xs h = refl
take-overwrite (n ∷ ns) [] h = absurd (omega arith)
take-overwrite (n ∷ ns) (x ∷ xs) h = ap (λ (t : List ℕ). n ∷ t) (take-overwrite ns xs (omega arith))

-- What was written is cut out again.
pub take-drop-write_at :
    (pos : ℕ) (ns xs : List ℕ)
    → pos + length ns ≤ length xs
    → take (length ns) (drop pos (write_at pos ns xs)) ≡ ns
take-drop-write_at zero ns xs h = take-overwrite ns xs (omega arith)
take-drop-write_at (suc pos) ns [] h = absurd (omega arith)
take-drop-write_at (suc pos) ns (x ∷ xs) h = take-drop-write_at pos ns xs (omega arith)

-- What stands after the place that is written stays.
pub get_elem?-write_at_after :
    (pos i : ℕ) (ns xs : List ℕ)
    → pos + length ns ≤ i
    → get_elem? (write_at pos ns xs) i ≡ get_elem? xs i
get_elem?-write_at_after zero i ns xs h = past i ns xs (omega (arith, h))
  where
    past : (i : ℕ) (ns xs : List ℕ) → length ns ≤ i → get_elem? (overwrite ns xs) i ≡ get_elem? xs i
    past i [] xs h = refl
    past i (n ∷ ns) [] h = refl
    past zero (n ∷ ns) (x ∷ xs) h = absurd (omega arith)
    past (suc i) (n ∷ ns) (x ∷ xs) h = past i ns xs (omega arith)
get_elem?-write_at_after (suc pos) i ns [] h = refl
get_elem?-write_at_after (suc pos) zero ns (x ∷ xs) h = absurd (omega arith)
get_elem?-write_at_after (suc pos) (suc i) ns (x ∷ xs) h =
    get_elem?-write_at_after pos i ns xs (omega arith)

-- A length that is set cuts bytes off, or puts zeros after them.
pub get_elem?-resize :
    (n i : ℕ) (xs : List ℕ)
    → i < n
    → get_elem? (resize n xs) i ≡ (if ltb i (length xs) then get_elem? xs i else some 0)
get_elem?-resize zero i xs h = absurd (omega arith)
get_elem?-resize (suc n) zero [] h = refl
get_elem?-resize (suc n) (suc i) [] h = ground (arith, get_elem?-resize n i [] (omega arith))
get_elem?-resize (suc n) zero (x ∷ xs) h = ground arith
get_elem?-resize (suc n) (suc i) (x ∷ xs) h = ground (arith, get_elem?-resize n i xs (omega arith))

pub get_elem?_beyond : (xs : List ℕ) (i : ℕ) → length xs ≤ i → get_elem? xs i ≡ none
get_elem?_beyond [] i h = refl
get_elem?_beyond (x ∷ xs) zero h = absurd (omega arith)
get_elem?_beyond (x ∷ xs) (suc i) h = get_elem?_beyond xs i (omega arith)

-- A cut is the bytes from its place on, as far as its length goes.
pub get_elem?-take-drop :
    (pos n i j : ℕ) (xs : List ℕ)
    → j ≡ pos + i
    → i < n
    → get_elem? (take n (drop pos xs)) i ≡ get_elem? xs j
get_elem?-take-drop pos zero i j xs e h = absurd (omega arith)
get_elem?-take-drop zero (suc n) i j [] e h = refl
get_elem?-take-drop zero (suc n) zero j (x ∷ xs) e h =
    ap (get_elem? (x ∷ xs)) {x = 0} (omega (arith, e))
get_elem?-take-drop zero (suc n) (suc i) zero (x ∷ xs) e h = absurd (omega arith)
get_elem?-take-drop zero (suc n) (suc i) (suc j) (x ∷ xs) e h =
    get_elem?-take-drop zero n i j xs (omega arith) (omega arith)
get_elem?-take-drop (suc pos) (suc n) i j [] e h = refl
get_elem?-take-drop (suc pos) (suc n) i zero (x ∷ xs) e h = absurd (omega arith)
get_elem?-take-drop (suc pos) (suc n) i (suc j) (x ∷ xs) e h =
    get_elem?-take-drop pos (suc n) i j xs (omega arith) h

pub length-take : (n : ℕ) (xs : List ℕ) → length (take n xs) ≤ n
length-take zero xs = omega arith
length-take (suc n) [] = omega arith
length-take (suc n) (x ∷ xs) = omega (arith, length-take n xs)
