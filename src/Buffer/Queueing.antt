-- ===== src/Buffer/Queueing.antt =====
-- Adding bytes behind the contents of a buffer and taking them from the front.
use echoserver.Prelude.{
  ℕ, zero, suc, ◌+◌, ◌-◌, ◌≤◌, ◌<◌, ◌≡◌, refl, sym, ap, ◌∙◌, inl, inr, List, ◌∷◌, ◌++◌, arith, ltb,
  get_or, Bool-cases, length, take, drop, add_size, take_all, drop_all,
}
use echoserver.Prelude.Bytes.{
  slice, copy, length-slice, slice-append, length-copy, slice-copy, slice-copy_before,
}
use echoserver.Buffer.{
  Buffer, readable_bytes, retrieve, retrieve_as_string, ensure_writable_bytes, copy_in, has_written,
  append,
}
use echoserver.Buffer.Invariant.{IsValid, contents, max_size}
use echoserver.Buffer.Space.{Spaced, ensure-Spaced}

-- A valid buffer with the contents `xs`, in a vector of at most `bound` bytes.
pub record Holds (b : Buffer) (xs : List ℕ) (bound : ℕ) : Type 0 where
  pub valid : IsValid b
  pub bytes : contents b ≡ xs
  pub bounded : length b.buffer ≤ bound

pub length-contents : (b : Buffer) → length (contents b) ≡ b.write_index - b.read_index
length-contents b = length-slice b.buffer b.read_index (b.write_index - b.read_index)

drop-slice : (xs : List ℕ) (k i n j : ℕ) → j ≡ i + k → drop k (slice xs i n) ≡ slice xs j (n - k)
drop-slice xs zero i n j e = ap (λ t. slice xs t n) (omega arith) ∙ ap (slice xs j) (omega arith)
drop-slice xs (suc k) i zero j e = ap (slice xs j) {x = 0} {y = 0 - suc k} (omega arith)
drop-slice xs (suc k) i (suc n) j e =
    drop-slice xs k (i + 1) n j (omega arith) ∙ ap (slice xs j) (omega arith)

pub take-slice : (xs : List ℕ) (k i n : ℕ) → k ≤ n → take k (slice xs i n) ≡ slice xs i k
take-slice xs zero i n h = refl
take-slice xs (suc k) i zero h = absurd (omega arith)
take-slice xs (suc k) i (suc n) h =
    ap (◌∷◌ (get_or xs i 0)) (take-slice xs k (i + 1) n (omega arith))

-- Bytes written behind the contents, and marked as written, extend them.
pub fill-Holds :
    (b : Buffer) (bytes : List ℕ)
    → IsValid b
    → b.write_index + length bytes ≤ length b.buffer
    → Holds (has_written (copy_in b bytes) (length bytes)) (contents b ++ bytes) (length b.buffer)
unfolding has_written copy_in
fill-Holds b bytes v h =
    let filled : List ℕ = copy b.buffer b.write_index bytes in
    let size : length filled ≡ length b.buffer = length-copy b.buffer b.write_index bytes in
    let n : ℕ = b.write_index - b.read_index in
    record {
      valid = omega arith;
      bytes =
          slice-append filled b.read_index n (length bytes) b.write_index _ (omega arith)
            (omega arith)
          ∙ rw (slice-copy b.buffer b.write_index bytes h) (
              ap (λ t. t ++ bytes)
                (slice-copy_before b.buffer b.write_index bytes b.read_index n (omega arith)));
      bounded = omega arith;
    }

-- `append` adds its bytes behind the contents.
pub append-Holds :
    (b : Buffer) (bytes : List ℕ)
    → IsValid b
    → length b.buffer + length bytes ≤ max_size
    → Holds (append b bytes) (contents b ++ bytes) (length b.buffer + length bytes)
unfolding append
append-Holds b bytes v h =
    let s : Spaced (length bytes) b (ensure_writable_bytes b (length bytes)) =
      ensure-Spaced b (length bytes) v h in
    let f : Holds (append b bytes) (contents (ensure_writable_bytes b (length bytes)) ++ bytes) _ =
      fill-Holds (ensure_writable_bytes b (length bytes)) bytes s.valid s.room in
    record { valid = f.valid; bytes = f.bytes ∙ ap (λ t. t ++ bytes) s.kept; bounded = omega arith }

-- `retrieve` takes bytes from the front, all of them where it is asked for too many.
pub retrieve-Holds :
    (b : Buffer) (len : ℕ)
    → IsValid b
    → Holds (retrieve b len) (drop len (contents b)) (length b.buffer)
unfolding retrieve
retrieve-Holds b len v = elim (Bool-cases (ltb len (readable_bytes b))) [
  | inl part ↦
      let short : len < b.write_index - b.read_index = ground arith in
      rw part (record {
        valid = omega arith;
        bytes =
            ap (slice b.buffer (add_size b.read_index len)) (omega arith)
            ∙ sym
                (drop-slice b.buffer len b.read_index _ (add_size b.read_index len) (omega arith));
        bounded = omega arith;
      })
  | inr whole ↦
      let long : b.write_index - b.read_index ≤ len = ground arith in
      rw whole (record {
        valid = omega arith;
        bytes = sym (drop_all len (contents b) (omega (arith, length-contents b)));
        bounded = omega arith;
      })
]

-- `retrieveAsString` returns the bytes that it takes.
pub retrieve_as_string-Holds :
    (b : Buffer) (len : ℕ)
    → IsValid b
    → ((retrieve_as_string b len).0 ≡ take len (contents b))
      × Holds (retrieve_as_string b len).1 (drop len (contents b)) (length b.buffer)
unfolding retrieve_as_string
retrieve_as_string-Holds b len v = elim (Bool-cases (ltb (readable_bytes b) len)) [
  | inl over ↦
      let all : readable_bytes b ≡ b.write_index - b.read_index = omega arith in
      let long : b.write_index - b.read_index ≤ len = ground arith in
      let size : length (contents b) ≡ b.write_index - b.read_index = length-contents b in
      let r : Holds (retrieve b (readable_bytes b)) (drop (readable_bytes b) (contents b)) _ =
        retrieve-Holds b (readable_bytes b) v in
      rw over (
        ap (slice b.buffer b.read_index) all ∙ sym (take_all len (contents b) (omega arith)),
        record {
          valid = r.valid;
          bytes =
              r.bytes
              ∙ drop_all (readable_bytes b) (contents b) (omega arith)
              ∙ sym (drop_all len (contents b) (omega arith));
          bounded = r.bounded;
        },
      )
  | inr fits ↦
      let short : len ≤ b.write_index - b.read_index = ground arith in
      rw fits (sym (take-slice b.buffer len b.read_index _ short), retrieve-Holds b len v)
]
