-- ===== src/MemoryFs/Changes/Made.antt =====
-- `mkdir` and `symlink`: one new entry, or nothing.
use rustsmb.Base.{
  ℕ, ◌≡◌, ◌⊎◌, refl, ap, ◌∙◌, none, List, [], ◌∷◌, ◌++◌, All, list_key, Option-cases, inl, inr,
  add_u64,
}
use rustsmb.Core.Action.{Result, ok, err}
use rustsmb.Vfs.{Text, VfsError, already_exists}
use rustsmb.MemoryFs.Path.{slash, join, normalize_path}
use rustsmb.MemoryFs.Path.Clean.{IsName, parts, parts-Leads}
use rustsmb.MemoryFs.Node.{
  new_metadata, MemoryNode, directory, symlink, Children, end, get_child, insert_child,
}
use rustsmb.MemoryFs.Node.Sight.{at, see, below, grafted}
use rustsmb.MemoryFs.Node.Entries.{grafted-insert_child}
use rustsmb.MemoryFs.{MemoryBackend, visit_parent, add_child, create_in, mkdir, make_symlink}
use rustsmb.MemoryFs.Changes.{
  snoc_cases, at_root, Dir, visit_parent_found, visit_parent_still, Dir-cases,
}
use rustsmb.MemoryFs.Changes.Entry.{at_entry}

-- A path names no node, in a directory.
pub record Vacant (front : List Text) (name : Text) (root : MemoryNode) : Type 0 where
  pub parent : Dir front root
  pub free : at (front ++ (name ∷ [])) root ≡ none

-- A new node is all that has changed, and the counter of inode numbers.
pub record Made (front : List Text) (name : Text) (node : MemoryNode) (s : MemoryBackend)
    (out : Result VfsError (Unit {0}) × MemoryBackend) : Type 0 where
  pub answer : out.0 ≡ ok tt
  pub sights :
      (others : List Text)
      → see others out.1.root
        ≡ grafted (below (front ++ (name ∷ [])) others) (see others s.root) node
  pub kept : out.1 ≡ record s { root = out.1.root; inode_counter = add_u64 s.inode_counter 1 }

abbrev pub Refused : {A : Type 0} → MemoryBackend → Result VfsError A × MemoryBackend → Type 0
Refused s out = (e : VfsError) × (out ≡ (err e, s))

module _ (front : List Text) (name : Text) (names : All IsName front) (exists : VfsError)
    (make : ℕ → MemoryNode) (s : MemoryBackend) where
  create_in-cases :
      (Vacant front name s.root
        × Made front name (make s.inode_counter) s (create_in (join front) exists name make s))
      ⊎ ((Vacant front name s.root → ⊥) × Refused s (create_in (join front) exists name make s))
  unfolding create_in
  create_in-cases =
      let act = add_child exists name (make s.inode_counter) in
      elim (Dir-cases front names act s.root) [
        | inr (away, (e, same)) ↦ inr ((λ v. away v.parent), (e, rw same refl))
        | inl d ↦ elim (Option-cases (get_child name d.children)) [
          | inl free ↦
              let does : act d.children
                  ≡ (ok tt, insert_child name (make s.inode_counter) d.children) =
                rw (free, add_child) refl in
              let (answer, sights) = visit_parent_found front names act s.root d in
              let said : (visit_parent (join front) act s.root).0 ≡ ok tt =
                answer ∙ ap (λ (r : Result VfsError (Unit {0}) × Children). r.0) does in
              inl (
                record { parent = d; free = at_entry front name s.root d ∙ free },
                record {
                  answer = said;
                  sights = λ others.
                      sights others
                      ∙ ap
                          (λ (r : Result VfsError (Unit {0}) × Children).
                            grafted (below front others) (see others s.root)
                              (directory r.1 d.own d.extra))
                          does
                      ∙ grafted-insert_child front name s.root d.children d.own d.extra d.here
                          (make s.inode_counter) others;
                  kept = rw said refl;
                },
              )
          | inr (old, found) ↦ inr (
            (λ v. cc (v.free, at_entry front name s.root d, found)),
            (
              exists,
              rw (visit_parent_still front names act s.root d exists (rw (found, add_child) refl))
                  refl,
            ),
          )
        ]
      ]

module _ (now : ℕ) (path : Text) (s : MemoryBackend) (front : List Text) (name : Text)
    (leads : parts path ≡ front ++ (name ∷ [])) where
  pub mkdir_entry :
      (mode : ℕ)
      → (Vacant front name s.root
          × Made front name
              (directory end (new_metadata now mode s.inode_counter) [])
              s
              (mkdir now path mode s))
        ⊎ ((Vacant front name s.root → ⊥) × Refused s (mkdir now path mode s))
  unfolding mkdir
  mkdir_entry mode =
      let l = parts-Leads path front name leads in
      rw (l.named, l.cut)
        (create_in-cases front name l.front_names (already_exists (normalize_path path))
          (λ ino. directory end (new_metadata now mode ino) []) s)

  pub make_symlink_lem :
      (target : Text)
      → (Vacant front name s.root
          × Made front name
              (symlink target (new_metadata now 0o777 s.inode_counter))
              s
              (make_symlink now target path s))
        ⊎ ((Vacant front name s.root → ⊥) × Refused s (make_symlink now target path s))
  unfolding make_symlink
  make_symlink_lem target =
      let l = parts-Leads path front name leads in
      rw (l.named, l.cut)
        (create_in-cases front name l.front_names (already_exists (normalize_path path))
          (λ ino. symlink target (new_metadata now 0o777 ino)) s)

-- `mkdir` of a path that names the root answers that it exists. Any other path leads to a name in a
-- directory: where there is this directory and it has no entry of the name, `mkdir` makes an empty
-- directory there with the next inode number, and all else stays; where there is no such directory, or
-- the name is taken, it answers an error and changes nothing.
pub mkdir_lem :
    (now : ℕ) (path : Text) (s : MemoryBackend) (mode : ℕ)
    → ((parts path ≡ []) × (mkdir now path mode s ≡ (err (already_exists (slash ∷ [])), s)))
      ⊎ ((front : List Text) × (name : Text) × (parts path ≡ front ++ (name ∷ []))
          × ((Vacant front name s.root
                × Made front name
                    (directory end (new_metadata now mode s.inode_counter) [])
                    s
                    (mkdir now path mode s))
              ⊎ ((Vacant front name s.root → ⊥) × Refused s (mkdir now path mode s))))
unfolding mkdir
mkdir_lem now path s mode = elim (snoc_cases (parts path)) [
  | inl root ↦ inl (root, rw (at_root path root) refl)
  | inr (front, (name, leads)) ↦
      inr (front, name, leads, mkdir_entry now path s front name leads mode)
]
