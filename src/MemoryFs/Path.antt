-- ===== src/MemoryFs/Path.antt =====
-- crates/rustsmb-backend-memory/src/lib.rs, lines 194-224: the paths of the in-memory file system. A
-- text is the list of its code points, and a name is the text of one component.
pub mod Clean
use rustsmb.Base.{
  ℕ, Bool, true, false, ◌&&◌, ◌||◌, Option, none, some, List, [], ◌∷◌, ◌++◌, nat_eq, list_key, ◌==◌,
  if◌then◌else◌,
}
use rustsmb.Vfs.{Text}

abbrev pub slash : ℕ
slash = b'/'

abbrev pub dot : Text
dot = b'.' ∷ []

abbrev pub dot_dot : Text
dot_dot = b'.' ∷ b'.' ∷ []

abbrev pub is_empty {ℓ} : {A : Type ℓ} → List A → Bool
is_empty [] = true
is_empty (x ∷ xs) = false

abbrev pub trim_start : Text → Text
trim_start [] = []
trim_start (c ∷ t) = let rest = trim_start t in if nat_eq c slash then rest else c ∷ t

abbrev pub trim_end : Text → Text
trim_end [] = []
trim_end (c ∷ t) = let rest = trim_end t in if nat_eq c slash && is_empty rest then [] else c ∷ rest

-- `path.trim_matches('/')`
abbrev pub trim : Text → Text
trim t = trim_end (trim_start t)

abbrev pub push : ℕ → List Text → List Text
push c [] = (c ∷ []) ∷ []
push c (part ∷ parts) = (c ∷ part) ∷ parts

-- `path.split('/')`
abbrev pub split : Text → List Text
split [] = [] ∷ []
split (c ∷ t) = let parts = split t in if nat_eq c slash then [] ∷ parts else push c parts

-- `components.join("/")`
abbrev pub join : List Text → Text
join [] = []
join (part ∷ []) = part
join (part ∷ next ∷ rest) = part ++ (slash ∷ join (next ∷ rest))

-- `components.pop()`
abbrev pub pop : List Text → List Text
pop [] = []
pop (part ∷ []) = []
pop (part ∷ next ∷ rest) = part ∷ pop (next ∷ rest)

-- The loop over the parts of a path, with the components so far.
abbrev pub collect : List Text → List Text → List Text
collect acc [] = acc
collect acc (part ∷ parts) =
    collect
      (if part == dot || is_empty part
        then acc
        else if part == dot_dot
        then pop acc
        else acc ++ (part ∷ []))
      parts

unfoldable pub normalize_path : Text → Text
normalize_path path =
    let path' = trim path in if is_empty path' then [] else join (collect [] (split path'))

-- The text before the last slash and the text after it, `rfind('/')`.
abbrev pub cut_last : Text → Option (Text × Text)
cut_last [] = none
cut_last (c ∷ t) = elim (cut_last t) [
  | some (front, back) ↦ some (c ∷ front, back)
  | none ↦ if nat_eq c slash then some ([], t) else none
]

unfoldable pub split_path : Text → Option (Text × Text)
split_path path =
    let path' = trim path in
    if is_empty path'
    then none
    else (elim (cut_last path') [ none ↦ some ([], path') | some cut ↦ some cut ])

-- The components that a walk along a normalized path takes: none for the root, which is not split.
unfoldable pub components : Text → List Text
components path = if is_empty path then [] else split path
