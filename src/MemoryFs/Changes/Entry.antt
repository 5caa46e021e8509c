-- ===== src/MemoryFs/Changes/Entry.antt =====
-- The entry that a path names, and the directory it stands in.
use rustsmb.Base.{
  ◌≡◌, refl, ap, ◌∙◌, some, List, [], ◌∷◌, ◌++◌, list_key, Option-cases, inl, inr, arith,
}
use rustsmb.Vfs.{Text}
use rustsmb.MemoryFs.Node.{
  NodeMetadata, Xattrs, MemoryNode, file, directory, symlink, Children, get_child,
}
use rustsmb.MemoryFs.Node.Sight.{at}
use rustsmb.MemoryFs.Changes.{Dir}

at_step :
    (f : Text) (front : List Text) (others : Children) (inner : MemoryNode) (m : NodeMetadata)
    (x : Xattrs)
    → get_child f others ≡ some inner
    → at (f ∷ front) (directory others m x) ≡ at front inner
at_step f front others inner m x found = rw (found, at) refl

at_inner :
    (front : List Text) (name : Text) (root : MemoryNode) (children : Children) (m : NodeMetadata)
    (x : Xattrs)
    → at front root ≡ some (directory children m x)
    → at (front ++ (name ∷ [])) root ≡ get_child name children
at_inner [] name root children m x e =
    ap (at (name ∷ [])) {y = directory children m x} (ground (arith, e))
    ∙ elim (Option-cases (get_child name children)) [
      | inl gone ↦ rw (gone, at) refl
      | inr (node, found) ↦ rw (found, at) refl
    ]
at_inner (f ∷ front) name (file content m' x') children m x e = cc
at_inner (f ∷ front) name (symlink target m') children m x e = cc
at_inner (f ∷ front) name (directory others m' x') children m x e =
    elim (Option-cases (get_child f others)) [
      | inl gone ↦ cc (rw (gone, at) at e)
      | inr (node, found) ↦
          at_step f (front ++ (name ∷ [])) others node m' x' found
          ∙ (at_inner front name node children m x (rw (found, at) at e))
    ]

-- An entry of a directory stands at the directory's path and its own name.
pub at_entry :
    (front : List Text) (name : Text) (root : MemoryNode) (d : Dir front root)
    → at (front ++ (name ∷ [])) root ≡ get_child name d.children
at_entry front name root d = at_inner front name root d.children d.own d.extra d.here

-- What stands at a path and a name stands in a directory.
pub at_parent :
    (front : List Text) (name : Text) (root node : MemoryNode)
    → at (front ++ (name ∷ [])) root ≡ some node
    → Dir front root
at_parent [] name (file content m x) node e = absurd cc
at_parent [] name (symlink target m) node e = absurd cc
at_parent [] name (directory children m x) node e = record {
  children = children;
  own = m;
  extra = x;
  here = refl;
}
at_parent (f ∷ front) name (file content m x) node e = absurd cc
at_parent (f ∷ front) name (symlink target m) node e = absurd cc
at_parent (f ∷ front) name (directory others m x) node e =
    elim (Option-cases (get_child f others)) [
      | inl gone ↦ absurd (cc (rw (gone, at) at e))
      | inr (inner, found) ↦
          let d = at_parent front name inner node (rw (found, at) at e) in
          record {
            children = d.children;
            own = d.own;
            extra = d.extra;
            here = at_step f front others inner m x found ∙ d.here;
          }
    ]
