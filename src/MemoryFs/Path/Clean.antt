-- ===== src/MemoryFs/Path/Clean.antt =====
-- What `normalize_path` leaves: a list of proper names, and nothing that leads out of the root.
use rustsmb.Base.{
  ℕ, ◌≡◌, refl, sym, ap, ◌∙◌, subst, true, false, none, some, List, [], ◌∷◌, ◌++◌, append_assoc,
  append-nil, nat_eq, list_key, ◌==◌, All, All-append, Bool-cases, inl, inr, arith,
}
use rustsmb.Vfs.{Text}
use rustsmb.MemoryFs.Path.{
  slash, dot, dot_dot, is_empty, trim_start, trim_end, trim, push, split, join, pop, collect,
  normalize_path, cut_last, split_path, components,
}

abbrev NoSlash : Text → Type 0
NoSlash = All (λ c. nat_eq c slash ≡ false)

-- A text that names an entry of a directory.
pub record IsName (name : Text) : Type 0 where
  pub named : is_empty name ≡ false
  pub plain : NoSlash name
  pub no_dot : (name == dot) ≡ false
  pub no_dot_dot : (name == dot_dot) ≡ false

-- The components of a path as it is given.
abbrev pub parts : Text → List Text
parts path = collect [] (split (trim path))

push-NoSlash :
    (c : ℕ) (ts : List Text) → nat_eq c slash ≡ false → All NoSlash ts → All NoSlash (push c ts)
push-NoSlash c [] h hs = ((h, tt), tt)
push-NoSlash c (t ∷ ts) h hs = ((h, hs.0), hs.1)

split-NoSlash : (t : Text) → All NoSlash (split t)
split-NoSlash [] = (tt, tt)
split-NoSlash (c ∷ t) = elim (Bool-cases (nat_eq c slash)) [
  | inl hit ↦ rw hit (tt, split-NoSlash t)
  | inr miss ↦ rw miss (push-NoSlash c (split t) miss (split-NoSlash t))
]

pop-IsName : (ts : List Text) → All IsName ts → All IsName (pop ts)
pop-IsName [] h = tt
pop-IsName (t ∷ []) h = tt
pop-IsName (t ∷ next ∷ rest) h = (h.0, pop-IsName (next ∷ rest) h.1)

collect-IsName :
    (acc ts : List Text) → All IsName acc → All NoSlash ts → All IsName (collect acc ts)
collect-IsName acc [] ha ht = ha
collect-IsName acc (t ∷ ts) ha ht = elim (Bool-cases (t == dot)) [
  | inl same ↦ rw same (collect-IsName acc ts ha ht.1)
  | inr no_dot ↦ elim (Bool-cases (is_empty t)) [
    | inl empty ↦ rw (no_dot, empty) (collect-IsName acc ts ha ht.1)
    | inr named ↦ elim (Bool-cases (t == dot_dot)) [
      | inl up ↦ rw (no_dot, named, up) (collect-IsName (pop acc) ts (pop-IsName acc ha) ht.1)
      | inr no_up ↦
          rw (no_dot, named, no_up)
            (collect-IsName (acc ++ (t ∷ [])) ts
              (All-append IsName acc (t ∷ []) ha
                (record { named = named; plain = ht.0; no_dot = no_dot; no_dot_dot = no_up }, tt))
              ht.1)
    ]
  ]
]

parts-IsName : (path : Text) → All IsName (parts path)
parts-IsName path = collect-IsName [] (split (trim path)) tt (split-NoSlash (trim path))

-- Proper names are collected as they are.
collect-names : (acc ts : List Text) → All IsName ts → collect acc ts ≡ acc ++ ts
collect-names acc [] h = sym (append-nil acc)
collect-names acc (t ∷ ts) h =
    rw (h.0.no_dot, h.0.named, h.0.no_dot_dot)
      (collect-names (acc ++ (t ∷ [])) ts h.1 ∙ append_assoc acc (t ∷ []) ts)

split-part : (t : Text) → NoSlash t → split t ≡ t ∷ []
split-part [] h = refl
split-part (c ∷ t) h = rw (h.0, split-part t h.1) refl

split-append : (t rest : Text) → NoSlash t → split (t ++ (slash ∷ rest)) ≡ t ∷ split rest
split-append [] rest h = refl
split-append (c ∷ t) rest h = rw (h.0, split-append t rest h.1) refl

-- Names that are joined are parted again.
split-join : (t : Text) (ts : List Text) → All IsName (t ∷ ts) → split (join (t ∷ ts)) ≡ t ∷ ts
split-join t [] h = split-part t h.0.plain
split-join t (next ∷ rest) h =
    split-append t (join (next ∷ rest)) h.0.plain
    ∙ ap (λ (x : List Text). t ∷ x) (split-join next rest h.1)

trim_start-join :
    (t : Text) (ts : List Text) → All IsName (t ∷ ts) → trim_start (join (t ∷ ts)) ≡ join (t ∷ ts)
trim_start-join [] ts h = absurd (cc h.0.named)
trim_start-join (c ∷ t) [] h = rw h.0.plain.0 refl
trim_start-join (c ∷ t) (next ∷ rest) h = rw h.0.plain.0 refl

is_empty-append : (front back : Text) → is_empty back ≡ false → is_empty (front ++ back) ≡ false
is_empty-append [] back h = h
is_empty-append (c ∷ front) back h = refl

is_empty-join : (t : Text) (ts : List Text) → All IsName (t ∷ ts) → is_empty (join (t ∷ ts)) ≡ false
is_empty-join t [] h = h.0.named
is_empty-join t (next ∷ rest) h = is_empty-append t (slash ∷ join (next ∷ rest)) refl

trim_end-part : (t : Text) → NoSlash t → trim_end t ≡ t
trim_end-part [] h = refl
trim_end-part (c ∷ t) h = rw (h.0, trim_end-part t h.1) refl

trim_end-append :
    (front back : Text)
    → is_empty back ≡ false
    → trim_end back ≡ back
    → trim_end (front ++ back) ≡ front ++ back
trim_end-append [] back h e = e
trim_end-append (c ∷ front) back h e =
    rw (trim_end-append front back h e, is_empty-append front back h) (ground arith)

trim_end-join :
    (t : Text) (ts : List Text) → All IsName (t ∷ ts) → trim_end (join (t ∷ ts)) ≡ join (t ∷ ts)
trim_end-join t [] h = trim_end-part t h.0.plain
trim_end-join t (next ∷ rest) h =
    let later = join (next ∷ rest) in
    trim_end-append t (slash ∷ later) refl (
      trim_end-append (slash ∷ []) later (is_empty-join next rest h.1)
        (trim_end-join next rest h.1))

trim-join : (t : Text) (ts : List Text) → All IsName (t ∷ ts) → trim (join (t ∷ ts)) ≡ join (t ∷ ts)
trim-join t ts h = rw (trim_start-join t ts h) (trim_end-join t ts h)

-- A list of names is what a walk along their joined text takes.
pub components-join : (ts : List Text) → All IsName ts → components (join ts) ≡ ts
unfolding components
components-join [] h = refl
components-join (t ∷ ts) h = rw (is_empty-join t ts h) (split-join t ts h)

is_empty_eq : (t : Text) → is_empty t ≡ true → t ≡ []
is_empty_eq [] e = refl
is_empty_eq (c ∷ t) e = cc

pub normalize_path-parts : (path : Text) → normalize_path path ≡ join (parts path)
unfolding normalize_path
normalize_path-parts path = elim (Bool-cases (is_empty (trim path))) [
  | inl empty ↦ rw (is_empty_eq (trim path) empty) refl
  | inr named ↦ rw named refl
]

-- However a path is written, the walk along its normalized form takes its components: proper names,
-- without empty parts, "." and "..".
pub components-normalize_path :
    (path : Text) → (components (normalize_path path) ≡ parts path) × All IsName (parts path)
components-normalize_path path = (
  ap components (normalize_path-parts path) ∙ components-join (parts path) (parts-IsName path),
  parts-IsName path,
)

pub normalize_path-join : (ts : List Text) → All IsName ts → normalize_path (join ts) ≡ join ts
unfolding normalize_path
normalize_path-join [] h = refl
normalize_path-join (t ∷ ts) h =
    rw (trim-join t ts h, is_empty-join t ts h, split-join t ts h)
      (ap join (collect-names [] (t ∷ ts) h))

cut_last-part : (t : Text) → NoSlash t → cut_last t ≡ none
cut_last-part [] h = refl
cut_last-part (c ∷ t) h = rw (cut_last-part t h.1, h.0) refl

cut_last-append :
    (front back : Text) → NoSlash back → cut_last (front ++ (slash ∷ back)) ≡ some (front, back)
cut_last-append [] back h = rw (cut_last-part back h) refl
cut_last-append (c ∷ front) back h = rw (cut_last-append front back h) refl

join-snoc :
    (t : Text) (ts : List Text) (n : Text)
    → join (t ∷ (ts ++ (n ∷ []))) ≡ join (t ∷ ts) ++ (slash ∷ n)
join-snoc t [] n = refl
join-snoc t (next ∷ rest) n =
    ap (λ (x : Text). t ++ (slash ∷ x)) (join-snoc next rest n)
    ∙ sym (append_assoc t (slash ∷ join (next ∷ rest)) (slash ∷ n))

-- The last component of a path, and the path of its directory.
split_path-join :
    (ts : List Text) (n : Text)
    → All IsName ts
    → IsName n
    → split_path (join (ts ++ (n ∷ []))) ≡ some (join ts, n)
unfolding split_path
split_path-join [] n h k =
    let same : trim n ≡ n = trim-join n [] (k, tt) in
    rw same rw (k.named, cut_last-part n k.plain) rw same refl
split_path-join (t ∷ ts) n h k =
    let whole = All-append IsName (t ∷ ts) (n ∷ []) h (k, tt) in
    rw (trim-join t (ts ++ (n ∷ [])) whole, is_empty-join t (ts ++ (n ∷ [])) whole) rw
      (join-snoc t ts n, cut_last-append (join (t ∷ ts)) n k.plain) refl

All-unsnoc : (ts : List Text) (n : Text) → All IsName (ts ++ (n ∷ [])) → All IsName ts × IsName n
All-unsnoc [] n h = (tt, h.0)
All-unsnoc (t ∷ ts) n h = let (front, back) = All-unsnoc ts n h.1 in ((h.0, front), back)

is_empty-join_snoc :
    (ts : List Text) (n : Text)
    → All IsName (ts ++ (n ∷ []))
    → is_empty (join (ts ++ (n ∷ []))) ≡ false
is_empty-join_snoc [] n h = h.0.named
is_empty-join_snoc (t ∷ ts) n h = is_empty-join t (ts ++ (n ∷ [])) h

-- A path that leads to the entry `name` of the directory at `front`.
pub record Leads (path : Text) (front : List Text) (name : Text) : Type 0 where
  normal : normalize_path path ≡ join (front ++ (name ∷ []))
  pub named : is_empty (normalize_path path) ≡ false
  pub cut : split_path (normalize_path path) ≡ some (join front, name)
  pub front_names : All IsName front
  is_name : IsName name

pub parts-Leads :
    (path : Text) (front : List Text) (name : Text)
    → parts path ≡ front ++ (name ∷ [])
    → Leads path front name
parts-Leads path front name e =
    let names = subst (All IsName) e (parts-IsName path) in
    let (h, k) = All-unsnoc front name names in
    let normal = normalize_path-parts path ∙ ap join e in
    record {
      normal = normal;
      named = ap is_empty normal ∙ is_empty-join_snoc front name names;
      cut = ap split_path normal ∙ split_path-join front name h k;
      front_names = h;
      is_name = k;
    }
