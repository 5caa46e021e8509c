-- ===== src/MemoryFs/Handles/Bytes.antt =====
-- The bytes of a file that a read answers and a write leaves.
use rustsmb.Base.{
  list_key, ℕ, ◌+◌, ◌-◌, ◌^◌, add_u64, ◌≤◌, ◌<◌, min, ◌≡◌, ◌⊎◌, nat_key, refl, sym, ap, ◌∙◌, false,
  some, List, [], ◌∷◌, length, get_elem?, ltb, leb, Bool-cases, inl, inr, if◌then◌else◌, arith,
}
use rustsmb.Base.Bytes.{
  resize, take, drop, write_at, length-write_at, get_elem?-write_at, get_elem?-written,
  get_elem?-write_at_after, length-resize, get_elem?-resize, get_elem?_beyond, get_elem?-take-drop,
  length-take, take-drop-write_at,
}
use rustsmb.Core.Action.{ok}
use rustsmb.Vfs.{Text}
use rustsmb.MemoryFs.Node.{NodeMetadata, Xattrs, file}
use rustsmb.MemoryFs.Handles.{part_of, write_panics, overwritten}

-- What `bytes` at `offset` make of the bytes of a file.
pub record Overwritten (offset : ℕ) (bytes content new : List ℕ) : Type 0 where
  pub size : length new ≡ (
      if ltb (length content) (offset + length bytes)
      then offset + length bytes
      else length content)
  written : (k : ℕ) → k < length bytes → get_elem? new (offset + k) ≡ get_elem? bytes k
  gap : (i : ℕ) → i < offset → ltb i (length content) ≡ false → get_elem? new i ≡ some 0
  pub rest :
      (i : ℕ)
      → i < length content
      → (i < offset) ⊎ (offset + length bytes ≤ i)
      → get_elem? new i ≡ get_elem? content i

-- What a write leaves that does not panic.
abbrev put_over : ℕ → List ℕ → List ℕ → List ℕ
put_over offset bytes content =
    let last = offset + length bytes in
    write_at offset bytes (if ltb (length content) last then resize last content else content)

-- A write that ends below 2 ^ 63 bytes does not panic.
pub write_panics_small :
    (offset : ℕ) (bytes content : List ℕ)
    → offset + length bytes < 2 ^ 63
    → write_panics offset bytes content ≡ false
unfolding write_panics
write_panics_small offset bytes content small = ground arith

overwritten-put_over :
    (offset : ℕ) (bytes content : List ℕ)
    → offset + length bytes < 2 ^ 63
    → overwritten offset bytes content ≡ put_over offset bytes content
unfolding overwritten
overwritten-put_over offset bytes content small =
    let exact : add_u64 offset (length bytes) ≡ offset + length bytes = omega (arith, small) in
    rw (write_panics_small offset bytes content small) rw exact (ground (arith, small))

-- A write puts its bytes from its offset on, with zeros between the old end and the offset where that
-- lies beyond, and keeps all other bytes; the file grows as far as that needs.
put_over-Overwritten :
    (offset : ℕ) (bytes content : List ℕ)
    → Overwritten offset bytes content (put_over offset bytes content)
put_over-Overwritten offset bytes content =
    elim (Bool-cases (ltb (length content) (offset + length bytes))) [
      | inl longer ↦
          let last = offset + length bytes in
          let size = length-resize last content in
          record {
            size = rw longer (length-write_at offset bytes (resize last content) ∙ size);
            written = rw longer (λ k h.
                get_elem?-written offset k (offset + k) bytes (resize last content) refl h
                  (omega (arith, size)));
            gap = rw longer (λ i before beyond.
                get_elem?-write_at offset i bytes (resize last content) before
                ∙ get_elem?-resize last i content (omega arith)
                ∙ rw beyond refl);
            rest = rw longer (λ i h out. elim out [
              | inl before ↦
                  get_elem?-write_at offset i bytes (resize last content) before
                  ∙ get_elem?-resize last i content (omega arith)
                  ∙ ground arith
              | inr after ↦ absurd (ground (arith, longer, h, after))
            ]);
          }
      | inr enough ↦ record {
        size = rw enough (length-write_at offset bytes content);
        written = rw enough (λ k h.
            get_elem?-written offset k (offset + k) bytes content refl h (ground (arith, enough)));
        gap = rw enough (λ i before beyond. absurd (ground (arith, enough, before, beyond)));
        rest = rw enough (λ i h out. elim out [
          | inl before ↦ get_elem?-write_at offset i bytes content before
          | inr after ↦ get_elem?-write_at_after offset i bytes content after
        ]);
      }
    ]

length-put_over :
    (offset : ℕ) (bytes content : List ℕ)
    → offset + length bytes ≤ length (put_over offset bytes content)
length-put_over offset bytes content =
    ground (arith, (put_over-Overwritten offset bytes content).size)

take-drop-put_over :
    (offset : ℕ) (bytes content : List ℕ)
    → take (length bytes) (drop offset (put_over offset bytes content)) ≡ bytes
take-drop-put_over offset bytes content =
    elim (Bool-cases (ltb (length content) (offset + length bytes))) [
      | inl longer ↦ rw longer (
          take-drop-write_at offset bytes (resize (offset + length bytes) content)
            (omega (arith, length-resize (offset + length bytes) content)))
      | inr enough ↦ rw enough (take-drop-write_at offset bytes content (ground (arith, enough)))
    ]

part_of-put_over :
    (offset : ℕ) (bytes content : List ℕ) (path : Text) (m : NodeMetadata) (x : Xattrs)
    → part_of offset (length bytes) path (file (put_over offset bytes content) m x) ≡ ok bytes
part_of-put_over offset [] content path m x =
    elim (Bool-cases (leb (length (put_over offset [] content)) offset)) [
      | inl past ↦ rw (past, part_of) refl
      | inr inside ↦
          let none_left : min (offset + 0) (length (put_over offset [] content)) - offset ≡ 0 =
            omega arith in
          rw (inside, part_of)
            (ap (λ n. ok (take n (drop offset (put_over offset [] content)))) none_left)
    ]
part_of-put_over offset (b ∷ bs) content path m x =
    let new = put_over offset (b ∷ bs) content in
    let fits = length-put_over offset (b ∷ bs) content in
    let inside : leb (length new) offset ≡ false = ground (arith, fits) in
    let all_of : min (offset + length (b ∷ bs)) (length new) - offset ≡ length (b ∷ bs) =
      omega (arith, fits) in
    rw (inside, part_of)
      (ap (λ n. ok (take n (drop offset new))) all_of
        ∙ ap ok (take-drop-put_over offset (b ∷ bs) content))

pub overwritten-Overwritten :
    (offset : ℕ) (bytes content : List ℕ)
    → offset + length bytes < 2 ^ 63
    → Overwritten offset bytes content (overwritten offset bytes content)
overwritten-Overwritten offset bytes content small =
    rw (overwritten-put_over offset bytes content small) (put_over-Overwritten offset bytes content)

pub part_of-overwritten :
    (offset : ℕ) (bytes content : List ℕ) (path : Text) (m : NodeMetadata) (x : Xattrs)
    → offset + length bytes < 2 ^ 63
    → part_of offset (length bytes) path (file (overwritten offset bytes content) m x) ≡ ok bytes
part_of-overwritten offset bytes content path m x small =
    rw (overwritten-put_over offset bytes content small)
      (part_of-put_over offset bytes content path m x)

-- The bytes of a file in a window, and none where the file has ended.
pub record Window (offset length_ : ℕ) (content bytes : List ℕ) : Type 0 where
  seen : (i : ℕ) → i < length_ → get_elem? bytes i ≡ get_elem? content (offset + i)
  pub fits : length bytes ≤ length_

pub part_of-Window :
    (offset length_ : ℕ) (content : List ℕ) (path : Text) (m : NodeMetadata) (x : Xattrs)
    → (bytes : List ℕ) × ((part_of offset length_ path (file content m x) ≡ ok bytes)
        × Window offset length_ content bytes)
part_of-Window offset length_ content path m x = elim (Bool-cases (leb (length content) offset)) [
  | inl past ↦ (
    [],
    (
      rw (past, part_of) refl,
      record {
        seen = λ i h. sym (get_elem?_beyond content (offset + i) (ground (arith, past)));
        fits = omega arith;
      },
    ),
  )
  | inr inside ↦
      let n = min (offset + length_) (length content) - offset in
      (
        take n (drop offset content),
        (
          rw (inside, part_of) refl,
          record {
            seen = λ i h. elim (Bool-cases (ltb i n)) [
              | inl within ↦
                  get_elem?-take-drop offset n i (offset + i) content refl (ground (arith, within))
              | inr out ↦
                  get_elem?_beyond (take n (drop offset content)) i
                    (ground (arith, length-take n (drop offset content), out))
                  ∙ sym (get_elem?_beyond content (offset + i) (ground (arith, out, inside, h)))
            ];
            fits = ground (arith, length-take n (drop offset content), inside);
          },
        ),
      )
]
