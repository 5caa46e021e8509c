-- ===== src/MemoryFs/Handles/Contents.antt =====
-- What is read from a file and what is written to it, through an open handle.
use rustsmb.Base.{
  list_key, ℕ, ◌+◌, ◌<◌, ◌%◌, ◌^◌, Option, ◌≡◌, nat_key, refl, ap, ◌∙◌, false, some, List, [], ◌∷◌,
  All, length, Option-cases, inl, inr,
}
use rustsmb.Base.Map
use rustsmb.Core.Action.{Result, ok}
use rustsmb.Vfs.{Text, VfsError, FileHandle, not_found, not_a_directory}
use rustsmb.MemoryFs.Path.{is_empty, join, components}
use rustsmb.MemoryFs.Path.Clean.{IsName, components-join, normalize_path-join}
use rustsmb.MemoryFs.Node.{NodeMetadata, Xattrs, MemoryNode, file, directory, symlink, visit}
use rustsmb.MemoryFs.Node.Sight.{a_file, sight, sight_of, at, see, below, grafted, visit_found}
use rustsmb.MemoryFs.{OpenFileInfo, MemoryBackend, get_node}
use rustsmb.MemoryFs.Handles.{open_file, read, part_of, overwritten, write_node, write}
use rustsmb.MemoryFs.Handles.Bytes.{
  Overwritten, overwritten-Overwritten, part_of-overwritten, write_panics_small, Window,
  part_of-Window,
}

-- A handle that is open on a file.
pub record OpenOn (handle : FileHandle) (names : List Text) (content : List ℕ) (m : NodeMetadata)
    (x : Xattrs) (s : MemoryBackend) : Type 0 where
  pub node_id : ℕ
  pub info : OpenFileInfo
  pub has_node : handle.backend_internal_id ≡ some node_id
  pub is_open : Map.get node_id s.open_files ≡ some info
  pub path : info.path ≡ join names
  pub good : All IsName names
  pub named : is_empty (join names) ≡ false
  pub here : at names s.root ≡ some (file content m x)

get_node-join :
    (names : List Text) (root node : MemoryNode)
    → All IsName names
    → at names root ≡ some node
    → get_node (join names) root ≡ ok node
unfolding get_node
get_node-join names root node good here =
    let walk : Text → List Text → Result VfsError MemoryNode × MemoryNode = λ path steps.
      visit (not_found path) (not_a_directory path) steps (λ (n : MemoryNode). (ok n, n)) root in
    ap (λ path. (walk path (components path)).0) (normalize_path-join names good)
    ∙ ap (λ steps. (walk (join names) steps).0) (components-join names good)
    ∙ (visit_found (not_found (join names)) (not_a_directory (join names))
        (λ (n : MemoryNode). (ok n, n)) names root node here).0

write_node_small :
    (now offset : ℕ) (bytes : List ℕ) (path : Text) (content : List ℕ) (m : NodeMetadata)
    (x : Xattrs)
    → offset + length bytes < 2 ^ 63
    → write_node now offset bytes path (file content m x) ≡ (
      ok (some (length bytes % 2 ^ 32)),
      file (overwritten offset bytes content) (record m { mtime = now; ctime = now }) x,
    )
write_node_small now offset bytes path content m x small =
    rw (write_panics_small offset bytes content small) refl

module _ (handle : FileHandle) (names : List Text) (content : List ℕ) (m : NodeMetadata)
    (x : Xattrs) (s : MemoryBackend) (on : OpenOn handle names content m x s) where
  open_file_found : open_file handle s ≡ (ok on.info, s)
  unfolding open_file
  open_file_found = rw (on.has_node, on.is_open) refl

  get_node_found : get_node on.info.path s.root ≡ ok (file content m x)
  get_node_found = rw on.path (get_node-join names s.root (file content m x) on.good on.here)

  read_part :
      (offset length_ : ℕ)
      → read handle offset length_ s ≡ (part_of offset length_ on.info.path (file content m x), s)
  unfolding read
  read_part offset length_ = rw (open_file_found, get_node_found) refl

  write_found :
      (now offset : ℕ) (bytes : List ℕ)
      → offset + length bytes < 2 ^ 63
      → ((write now handle offset bytes s).0 ≡ ok (some (length bytes % 2 ^ 32)))
        × (((write now handle offset bytes s).1
              ≡ record s { root = (write now handle offset bytes s).1.root })
            × ((others : List Text)
                → see others (write now handle offset bytes s).1.root
                  ≡ grafted (below names others) (see others s.root) (
                      file
                        (overwritten offset bytes content)
                        (record m { mtime = now; ctime = now })
                        x)))
  unfolding write
  write_found now offset bytes small =
      let act = write_node now offset bytes (join names) in
      let does = write_node_small now offset bytes (join names) content m x small in
      let (answer, sights) =
        visit_found (not_found (join names)) (not_a_directory (join names)) act names s.root
          (file content m x) on.here in
      rw (open_file_found, on.path, on.named, components-join names on.good)
        (
          answer ∙ ap (λ (r : Result VfsError (Option ℕ) × MemoryNode). r.0) does,
          (
            refl,
            λ others.
                sights others
                ∙ ap
                    (λ (r : Result VfsError (Option ℕ) × MemoryNode).
                      grafted (below names others) (see others s.root) r.1)
                    does,
          ),
        )

below_self : (names : List Text) → below names names ≡ some []
below_self [] = refl
below_self (n ∷ names) = rw ((list_key.same_iff n n).1 refl) (below_self names)

-- Where a file is seen, it stands.
see-at :
    (names : List Text) (root : MemoryNode) {content : List ℕ} {m : NodeMetadata} {x : Xattrs}
    → see names root ≡ some (a_file content m x)
    → at names root ≡ some (file content m x)
see-at names root {content} {m} {x} e = elim (Option-cases (at names root)) [
  | inl gone ↦ absurd (cc (rw (gone, sight_of) at e))
  | inr (node, found) ↦ by_node node found (rw (found, sight_of) at e)
]
  where
    by_node :
        (node : MemoryNode)
        → at names root ≡ some node
        → some (sight node) ≡ some (a_file content m x)
        → at names root ≡ some (file content m x)
    by_node (file content' m' x') found h = cc (found, h)
    by_node (directory children m' x') found h = cc
    by_node (symlink target m') found h = cc

module _ (names : List Text) (content : List ℕ) (m : NodeMetadata) (x : Xattrs)
    (s : MemoryBackend) where
  -- A read through an open handle answers the bytes of the file from the offset on, as many as are asked
  -- for and are there, and changes nothing.
  read_lem :
      (handle : FileHandle)
      → OpenOn handle names content m x s
      → (offset length_ : ℕ)
      → (bytes : List ℕ) × ((read handle offset length_ s ≡ (ok bytes, s))
          × Window offset length_ content bytes)
  read_lem handle on offset length_ =
      let (bytes, (part, window)) = part_of-Window offset length_ content on.info.path m x in
      (
        bytes,
        (
          read_part handle names content m x s on offset length_
              ∙ ap (λ (r : Result VfsError (List ℕ)). (r, s)) part,
          window,
        ),
      )

  module _ (handle : FileHandle) (on : OpenOn handle names content m x s) (now offset : ℕ)
      (bytes : List ℕ) (small : offset + length bytes < 2 ^ 63) where
    pub after_write :
        (other : FileHandle)
        → OpenOn other names content m x s
        → OpenOn other names
            (overwritten offset bytes content)
            (record m { mtime = now; ctime = now })
            x
            (write now handle offset bytes s).1
    after_write other on' =
        let (answer, (kept, sights)) =
          write_found handle names content m x s on now offset bytes small in
        record {
          node_id = on'.node_id;
          info = on'.info;
          has_node = on'.has_node;
          is_open = rw kept on'.is_open;
          path = on'.path;
          good = on'.good;
          named = on'.named;
          here =
              see-at names (write now handle offset bytes s).1.root
                (sights names ∙ rw (below_self names) refl);
        }

    -- A write through an open handle that ends below 2 ^ 63 bytes answers the count of its bytes, modulo
    -- 2 ^ 32. Its file then has these bytes at the
    -- offset and its own at all other places, with zeros in a gap, and new times; nothing else changes.
    pub write_lem :
        (new : List ℕ) × (Overwritten offset bytes content new
          × ((write now handle offset bytes s ≡ (
            ok (some (length bytes % 2 ^ 32)),
            record s { root = (write now handle offset bytes s).1.root },
          ))
              × ((others : List Text)
                  → see others (write now handle offset bytes s).1.root
                    ≡ grafted
                        (below names others)
                        (see others s.root)
                        (file new (record m { mtime = now; ctime = now }) x))))
    write_lem =
        let (answer, (kept, sights)) =
          write_found handle names content m x s on now offset bytes small in
        (
          overwritten offset bytes content,
          (
            overwritten-Overwritten offset bytes content small,
            (
              ap (λ r. (r, (write now handle offset bytes s).1)) answer
                  ∙ ap (λ (b : MemoryBackend). (ok (some (length bytes % 2 ^ 32)), b)) kept,
              sights,
            ),
          ),
        )

    -- What was written through one handle, ending below 2 ^ 63 bytes, is read through any handle that is open on the same file.
    pub read-write :
        (other : FileHandle)
        → OpenOn other names content m x s
        → read other offset (length bytes) (write now handle offset bytes s).1
          ≡ (ok bytes, (write now handle offset bytes s).1)
    read-write other on' =
        let m' : NodeMetadata = record m { mtime = now; ctime = now } in
        let after = after_write other on' in
        read_part other names (overwritten offset bytes content) m' x
          (write now handle offset bytes s).1 after offset (length bytes)
        ∙ ap (λ (r : Result VfsError (List ℕ)). (r, (write now handle offset bytes s).1))
            (part_of-overwritten offset bytes content after.info.path m' x small)
