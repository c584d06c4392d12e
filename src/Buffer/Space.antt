-- ===== src/Buffer/Space.antt =====
-- `makeSpace` and `ensureWritableBytes`: room is made without touching what is stored.
use echoserver.Prelude.{
  ℕ, ◌+◌, ◌-◌, ◌≤◌, ◌<◌, ◌≡◌, refl, inl, inr, arith, length, ltb, add_size, Bool-cases, ltb→lt,
  false, ap, ◌∙◌,
}
use echoserver.Prelude.Bytes.{
  slice, move, resize, length-move, length-resize, slice-move, slice-resize,
}
use echoserver.Buffer.{
  Buffer, writable_bytes, prependable_bytes, make_space, ensure_writable_bytes, cheap_prepend,
}
use echoserver.Buffer.Invariant.{IsValid, contents, max_size}

-- What making room for `len` bytes may do to a buffer.
pub record Spaced (len : ℕ) (b c : Buffer) : Type 0 where
  pub valid : IsValid c
  pub kept : contents c ≡ contents b
  pub room : c.write_index + len ≤ length c.buffer
  pub grown : length c.buffer ≤ length b.buffer + len

-- The code moves the bytes only where it moves them to the front.
pub make_space-to_front :
    (b : Buffer) (len : ℕ)
    → IsValid b
    → length b.buffer + len ≤ max_size
    → writable_bytes b < len
    → ltb (add_size (writable_bytes b) (prependable_bytes b)) (add_size len cheap_prepend) ≡ false
    → cheap_prepend < b.read_index
make_space-to_front b len v h w e = ground arith

-- For a valid buffer with less than `len` bytes writable and a vector that stays below the size
-- limit, `makeSpace` keeps the contents and the invariant, leaves room for `len` bytes, and makes
-- the vector longer by at most `len`.
pub make_space-Spaced :
    (b : Buffer) (len : ℕ)
    → IsValid b
    → length b.buffer + len ≤ max_size
    → writable_bytes b < len
    → Spaced len b (make_space b len)
unfolding make_space
make_space-Spaced b len v h w =
    elim (Bool-cases (ltb (add_size (writable_bytes b) (prependable_bytes b)) (add_size len 8))) [
      | inl grow ↦
          let n : ℕ = add_size b.write_index len in
          let size : length (resize b.buffer n) ≡ n = length-resize b.buffer n in
          rw grow (record {
            valid = omega arith;
            kept =
                slice-resize b.buffer n b.read_index (b.write_index - b.read_index) (omega arith)
                  (omega arith);
            room = omega arith;
            grown = omega arith;
          })
      | inr front ↦
          let before : 8 < b.read_index = make_space-to_front b len v h w front in
          let n : ℕ = b.write_index - b.read_index in
          let size : length (move b.buffer b.read_index 8 n) ≡ length b.buffer =
            length-move b.buffer b.read_index 8 n in
          let fits : b.write_index + len + 8 ≤ length b.buffer + b.read_index = ground arith in
          rw front (record {
            valid = omega arith;
            kept =
                ap (slice (move b.buffer b.read_index 8 n) 8) (omega arith)
                ∙ slice-move b.buffer b.read_index 8 n before (omega arith);
            room = omega arith;
            grown = omega arith;
          })
    ]

-- With enough room the buffer is left as it is, and otherwise room is made.
pub ensure-Spaced :
    (b : Buffer) (len : ℕ)
    → IsValid b
    → length b.buffer + len ≤ max_size
    → Spaced len b (ensure_writable_bytes b len)
unfolding ensure_writable_bytes
ensure-Spaced b len v h = elim (Bool-cases (ltb (writable_bytes b) len)) [
  | inl short ↦ rw short (make_space-Spaced b len v h (ltb→lt _ _ short))
  | inr enough ↦
      let room : b.write_index + len ≤ length b.buffer = ground arith in
      rw enough (record { valid = v; kept = refl; room = room; grown = omega arith })
]
