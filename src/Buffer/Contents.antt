-- ===== src/Buffer/Contents.antt =====
-- What each operation of `Buffer` does to the bytes that a reader sees.
use echoserver.Prelude.{
  ℕ, ◌+◌, ◌-◌, ◌≤◌, ◌<◌, ◌≡◌, sym, ap, ◌∙◌, inl, inr, List, ◌++◌, append_assoc, arith, ltb, leb,
  leb→le, Bool-cases, length, take, drop, add_size, sub_size, length-take, length-drop,
  take-append-drop, take_all,
}
use echoserver.Prelude.Bytes.{
  slice, copy, length-slice, slice-append, length-copy, slice-copy, slice-copy_after,
}
use echoserver.Prelude.Syscall.{done}
use echoserver.Buffer.{
  Buffer, create, readable_bytes, writable_bytes, ensure_writable_bytes, copy_in, has_written,
  append, prepend, shrink, read_fd,
}
use echoserver.Buffer.Invariant.{
  IsValid, contents, max_size, create-IsValid, length-create, contents-create,
}
use echoserver.Buffer.Space.{Spaced, ensure-Spaced}
use echoserver.Buffer.Queueing.{Holds, fill-Holds, append-Holds}

-- For a valid buffer `prepend` puts its bytes in front of the contents, where the free space there is enough.
pub prepend-Holds :
    (b : Buffer) (bytes : List ℕ)
    → IsValid b
    → length bytes ≤ b.read_index
    → Holds (prepend b bytes) (bytes ++ contents b) (length b.buffer)
unfolding prepend
prepend-Holds b bytes v h = elim (Bool-cases (ltb b.read_index (length bytes))) [
  | inl short ↦ absurd (ground arith)
  | inr fits ↦
      let start : ℕ = sub_size b.read_index (length bytes) in
      let at : start + length bytes ≡ b.read_index = omega arith in
      let filled : List ℕ = copy b.buffer start bytes in
      let size : length filled ≡ length b.buffer = length-copy b.buffer start bytes in
      let n : ℕ = b.write_index - b.read_index in
      rw fits (record {
        valid = omega arith;
        bytes =
            slice-append filled start (length bytes) n b.read_index _ (sym at) (omega arith)
            ∙ rw (slice-copy b.buffer start bytes (omega arith)) (
                ap (◌++◌ bytes)
                  (slice-copy_after b.buffer start bytes b.read_index n (omega arith)));
        bounded = omega arith;
      })
]

-- Where the free space in front is too small, `prepend` changes nothing.
pub prepend_refused :
    (b : Buffer) (bytes : List ℕ) → b.read_index < length bytes → prepend b bytes ≡ b
unfolding prepend
prepend_refused b bytes h = ground arith

-- Where there is room already, `append` only writes behind the contents.
append_in_place :
    (b : Buffer) (bytes : List ℕ)
    → IsValid b
    → b.write_index + length bytes ≤ length b.buffer
    → append b bytes ≡ has_written (copy_in b bytes) (length bytes)
unfolding append ensure_writable_bytes
append_in_place b bytes v h = ground arith

-- For a valid buffer below the size limit `shrink` keeps the contents, in a new vector with room for `reserve` more bytes.
pub shrink-Holds :
    (b : Buffer) (reserve : ℕ)
    → IsValid b
    → length b.buffer + reserve + 1032 ≤ max_size
    → Holds (shrink b reserve) (contents b) (length b.buffer + reserve + 1032)
      × (reserve ≤ writable_bytes (shrink b reserve))
unfolding shrink has_written copy_in
shrink-Holds b reserve v h =
    let n : ℕ = add_size (readable_bytes b) reserve in
    let new : Buffer = create 1024 in
    let new_size : length new.buffer ≡ 1032 = length-create 1024 (omega arith) in
    let e : Spaced n new (ensure_writable_bytes new n) =
      ensure-Spaced new n (create-IsValid 1024 (omega arith)) (omega arith) in
    let other : Buffer = ensure_writable_bytes new n in
    let bytes : List ℕ = slice b.buffer b.read_index (readable_bytes b) in
    let count : length bytes ≡ readable_bytes b = length-slice b.buffer b.read_index _ in
    let f : Holds (has_written (copy_in other bytes) (length bytes)) (contents other ++ bytes) _ =
      fill-Holds other bytes e.valid (omega (arith, e.room)) in
    let size : length (copy other.buffer other.write_index bytes) ≡ length other.buffer =
      length-copy other.buffer other.write_index bytes in
    rw (append_in_place other bytes e.valid (omega (arith, e.room))) (
      record {
        valid = f.valid;
        bytes =
            f.bytes
            ∙ ap (λ t. t ++ bytes) (e.kept ∙ contents-create 1024)
            ∙ ap (slice b.buffer b.read_index) (omega arith);
        bounded = omega (arith, f.bounded, e.grown);
      },
      omega (arith, e.room, e.valid.small, size, count),
    )

-- For a valid buffer below the size limit what `readv` received is added behind the contents, whether it went through `extrabuf` or not.
pub read_fd-Holds :
    (b : Buffer) (bytes : List ℕ)
    → IsValid b
    → length b.buffer + length bytes ≤ max_size
    → Holds (read_fd b (done bytes)).0 (contents b ++ bytes) (length b.buffer + length bytes)
unfolding read_fd has_written copy_in
read_fd-Holds b bytes v h = elim (Bool-cases (leb (length bytes) (writable_bytes b))) [
  | inl fits ↦
      let short : b.write_index + length bytes ≤ length b.buffer = ground arith in
      let f : Holds (has_written (copy_in b bytes) (length bytes)) (contents b ++ bytes) _ =
        fill-Holds b bytes v short in
      rw (fits, take_all (writable_bytes b) bytes (leb→le _ _ fits))
        (record { valid = f.valid; bytes = f.bytes; bounded = omega (arith, f.bounded) })
  | inr over ↦
      let long : writable_bytes b < length bytes = ground arith in
      let part : List ℕ = take (writable_bytes b) bytes in
      let rest : List ℕ = drop (writable_bytes b) bytes in
      let taken : length part ≡ writable_bytes b =
        length-take (writable_bytes b) bytes ∙ omega arith in
      let left : length rest ≡ length bytes - writable_bytes b =
        length-drop (writable_bytes b) bytes in
      let full : Buffer = has_written (copy_in b part) (length part) in
      let g : Holds full (contents b ++ part) (length b.buffer) =
        fill-Holds b part v (omega arith) in
      let end : length (copy b.buffer b.write_index part) ≡ add_size b.write_index (length part) =
        length-copy b.buffer b.write_index part ∙ omega arith in
      let a : Holds (append full rest) (contents full ++ rest) (length full.buffer + length rest) =
        append-Holds full rest g.valid (omega (arith, g.bounded)) in
      rw (over, end)
        (record {
          valid = a.valid;
          bytes =
              a.bytes
              ∙ ap (λ t. t ++ rest) g.bytes
              ∙ append_assoc (contents b) part rest
              ∙ ap (◌++◌ (contents b)) (take-append-drop (writable_bytes b) bytes);
          bounded = omega (arith, a.bounded, g.bounded);
        })
]
