-- ===== src/MemoryFs/Changes/Moved.antt =====
-- `rename`: the node at one path is put to another...
use rustsmb.Base.{
  ◌≡◌, ◌⊎◌, refl, sym, ap, ◌∙◌, false, Option, none, some, List, [], ◌∷◌, ◌++◌, All, list_key, ◌==◌,
  Option-cases, inl, inr,
}
use rustsmb.Core.Action.{Result, ok, err, Action}
use rustsmb.Vfs.{Text, VfsError, not_found}
use rustsmb.MemoryFs.Path.{join, normalize_path}
use rustsmb.MemoryFs.Path.Clean.{IsName, parts, parts-Leads}
use rustsmb.MemoryFs.Node.{
  NodeMetadata, Xattrs, MemoryNode, file, directory, symlink, Children, get_child, remove_child,
}
use rustsmb.MemoryFs.Node.Sight.{Sight, at, see, below, grafted}
use rustsmb.MemoryFs.Node.Entries.{pruned, grafted-insert_child, grafted-remove_child}
use rustsmb.MemoryFs.{MemoryBackend, on_root, visit_parent}
use rustsmb.MemoryFs.Changes.{Dir, visit_parent_found, visit_parent_still, Dir-cases}
use rustsmb.MemoryFs.Node.Sight.{a_directory, sight, sight_of}
use rustsmb.MemoryFs.{take_child, put_child, move_node, rename}
use rustsmb.MemoryFs.Changes.Entry.{at_entry, at_parent}
use rustsmb.MemoryFs.Changes.Made.{Refused}

-- A directory is seen where one stands.
see-Dir :
    (front : List Text) (root : MemoryNode) {m : NodeMetadata} {x : Xattrs}
    → see front root ≡ some (a_directory m x)
    → Dir front root
see-Dir front root {m} {x} e = elim (Option-cases (at front root)) [
  | inl gone ↦ absurd (cc (rw (gone, sight_of) at e))
  | inr (node, found) ↦ by_node node found (rw (found, sight_of) at e)
]
  where
    by_node :
        (node : MemoryNode)
        → at front root ≡ some node
        → some (sight node) ≡ some (a_directory m x)
        → Dir front root
    by_node (directory children m x) found h = record {
      children = children;
      own = m;
      extra = x;
      here = found;
    }
    by_node (file content m x) found h = absurd cc
    by_node (symlink target m) found h = absurd cc

Dir-see :
    (front : List Text) (root : MemoryNode) (d : Dir front root)
    → see front root ≡ some (a_directory d.own d.extra)
Dir-see front root d = rw d.here refl

module _ (front : List Text) (name : Text) (front' : List Text) (root root' : MemoryNode)
    (sights : (others : List Text)
      → see others root' ≡ pruned (below (front ++ (name ∷ [])) others) (see others root)) where
  -- Taking a node away leaves the directories that do not stand below it, and only these.
  Dir-away : Dir front' root' → Dir front' root × (below (front ++ (name ∷ [])) front' ≡ none)
  Dir-away d = elim (Option-cases (below (front ++ (name ∷ [])) front')) [
    | inl away ↦
        let same : see front' root' ≡ see front' root = sights front' ∙ rw away refl in
        (see-Dir front' root (sym same ∙ Dir-see front' root' d), away)
    | inr (rest, leads) ↦
        let gone : see front' root' ≡ none = sights front' ∙ rw leads refl in
        absurd (cc (gone, Dir-see front' root' d))
  ]

  Dir-stays : Dir front' root → below (front ++ (name ∷ [])) front' ≡ none → Dir front' root'
  Dir-stays d away = see-Dir front' root' (sights front' ∙ rw away refl ∙ Dir-see front' root d)

-- The node has come from one path to the other, and nothing else has changed.
pub record Moved (old : List Text) (new : List Text) (node : MemoryNode) (s : MemoryBackend)
    (out : Result VfsError (Unit {0}) × MemoryBackend) : Type 0 where
  pub answer : out.0 ≡ ok tt
  pub sights :
      (others : List Text)
      → see others out.1.root
        ≡ grafted (below new others) (pruned (below old others) (see others s.root)) node
  pub kept : out.1 ≡ record s { root = out.1.root }

-- The node has gone from its old path, to nowhere.
pub record Lost (old : List Text) (s : MemoryBackend)
    (out : Result VfsError (Unit {0}) × MemoryBackend) : Type 0 where
  pub answer : (e : VfsError) × (out.0 ≡ err e)
  pub sights :
      (others : List Text) → see others out.1.root ≡ pruned (below old others) (see others s.root)
  pub kept : out.1 ≡ record s { root = out.1.root }

-- Where the node of `old` can go: a directory that does not stand below it.
abbrev CanHold : List Text → List Text → MemoryNode → Type 0
CanHold old front root = Dir front root × (below old front ≡ none)

abbrev pub RenameOutcome :
    List Text
    → List Text
    → Text
    → MemoryBackend
    → Result VfsError (Unit {0}) × MemoryBackend
    → Type 0
RenameOutcome old front name s out =
    ((node : MemoryNode) × ((at old s.root ≡ some node)
        × ((CanHold old front s.root × Moved old (front ++ (name ∷ [])) node s out)
            ⊎ ((CanHold old front s.root → ⊥) × Lost old s out))))
    ⊎ ((at old s.root ≡ none) × Refused s out)

module _ (front : List Text) (name : Text) (names : All IsName front) (front' : List Text)
    (name' : Text) (names' : All IsName front') (from : Text) (s : MemoryBackend) where
  abbrev take : Action Children VfsError MemoryNode
  take = take_child (not_found from) name

  abbrev moved : Result VfsError (Unit {0}) × MemoryBackend
  moved = move_node from (join front, name) (join front', name') s

  -- The node is in hand, and its new directory is looked for.
  placed :
      (node : MemoryNode) (root : MemoryNode)
      → at (front ++ (name ∷ [])) s.root ≡ some node
      → ((others : List Text)
          → see others root ≡ pruned (below (front ++ (name ∷ [])) others) (see others s.root))
      → moved
        ≡ on_root (visit_parent (join front') (put_child name' node)) (record s { root = root })
      → RenameOutcome (front ++ (name ∷ [])) front' name' s moved
  placed node root found sights step =
      rw step elim (Dir-cases front' names' (put_child name' node) root) [
        | inl d ↦
            let (answer, after) = visit_parent_found front' names' (put_child name' node) root d in
            inl (
              node,
              (
                found,
                inl (
                  Dir-away front name front' s.root root sights d,
                  record {
                    answer = answer;
                    sights = λ others.
                        after others
                        ∙ grafted-insert_child front' name' root d.children d.own d.extra d.here
                            node others
                        ∙ ap
                            (λ (old : Option Sight).
                              grafted (below (front' ++ (name' ∷ [])) others) old node)
                            (sights others);
                    kept = refl;
                  },
                ),
              ),
            )
        | inr (away, (e, same)) ↦ inl (
          node,
          (
            found,
            inr (
              (λ can. away (Dir-stays front name front' s.root root sights can.0 can.1)),
              record { answer = (e, rw same refl); sights = rw same sights; kept = rw same refl },
            ),
          ),
        )
      ]

  move_node-cases : RenameOutcome (front ++ (name ∷ [])) front' name' s moved
  move_node-cases = elim (Dir-cases front names take s.root) [
    | inr (away, (e, same)) ↦ elim (Option-cases (at (front ++ (name ∷ [])) s.root)) [
      | inl gone ↦ inr (gone, (e, rw same refl))
      | inr (node, found) ↦ absurd (away (at_parent front name s.root node found))
    ]
    | inl d ↦ elim (Option-cases (get_child name d.children)) [
      | inl gone ↦ inr (
        at_entry front name s.root d ∙ gone,
        (
          not_found from,
          rw
              (visit_parent_still front names take s.root d (not_found from)
                (rw (gone, take_child) refl))
              refl,
        ),
      )
      | inr (node, found) ↦
          let does : take d.children ≡ (ok node, remove_child name d.children) =
            rw (found, take_child) refl in
          let (answer, after) = visit_parent_found front names take s.root d in
          let said : (visit_parent (join front) take s.root).0 ≡ ok node =
            answer ∙ ap (λ (r : Result VfsError MemoryNode × Children). r.0) does in
          placed node (visit_parent (join front) take s.root).1
            (at_entry front name s.root d ∙ found)
            (λ others.
              after others
              ∙ ap
                  (λ (r : Result VfsError MemoryNode × Children).
                    grafted (below front others) (see others s.root) (directory r.1 d.own d.extra))
                  does
              ∙ grafted-remove_child front name s.root d.children d.own d.extra d.here others)
            (rw said refl)
    ]
  ]

-- `rename`, between two paths that differ and are not the root's. Where the old one names a node and the
-- new one an entry of a directory that does not stand below it, the node moves with all that is below
-- it, in the place of what was there, and nothing else changes. Where there is no such directory, the
-- answer is an error and the node is gone. Where the old path names nothing, the answer is an error
-- and nothing changes.
pub rename_lem :
    (old_path new_path : Text) (s : MemoryBackend) (front : List Text) (name : Text)
    (front' : List Text) (name' : Text)
    → parts old_path ≡ front ++ (name ∷ [])
    → parts new_path ≡ front' ++ (name' ∷ [])
    → (normalize_path old_path == normalize_path new_path) ≡ false
    → RenameOutcome (front ++ (name ∷ [])) front' name' s (rename old_path new_path s)
unfolding rename
rename_lem old_path new_path s front name front' name' old new differ =
    let l = parts-Leads old_path front name old in
    let l' = parts-Leads new_path front' name' new in
    rw (l.named, l'.named, differ, l.cut, l'.cut)
      (move_node-cases front name l.front_names front' name' l'.front_names
        (normalize_path old_path) s)
