-- ===== src/Buffer/Invariant.antt =====
-- The representation invariant of `Buffer`: the indices are in order and inside the vector, and
-- no sum of sizes reaches 2 ^ 64.
use echoserver.Prelude.{
  ℕ, zero, ◌+◌, ◌-◌, ◌^◌, ◌≤◌, List, [], ◌≡◌, refl, ◌∙◌, arith, length, length-replicate,
}
use echoserver.Prelude.Bytes.{slice}
use echoserver.Buffer.{Buffer, create, readable_bytes, writable_bytes}

abbrev pub max_size : ℕ
max_size = 2 ^ 62

pub record IsValid (b : Buffer) : Type 0 where
  pub ordered : b.read_index ≤ b.write_index
  pub inside : b.write_index ≤ length b.buffer
  pub headroom : 8 ≤ length b.buffer
  pub small : length b.buffer ≤ max_size

-- The bytes that a reader sees, first byte first.
abbrev pub contents : Buffer → List ℕ
contents b = slice b.buffer b.read_index (b.write_index - b.read_index)

pub length-create : (size : ℕ) → size + 8 ≤ max_size → length (create size).buffer ≡ 8 + size
unfolding create
length-create size h = length-replicate _ zero ∙ omega arith

pub create-IsValid : (size : ℕ) → size + 8 ≤ max_size → IsValid (create size)
unfolding create
create-IsValid size h = omega (arith, length-create size h)

pub contents-create : (size : ℕ) → contents (create size) ≡ []
unfolding create
contents-create size = refl

-- No subtraction of the size queries wraps.
pub sizes_lem :
    {b : Buffer}
    → IsValid b
    → (readable_bytes b ≡ b.write_index - b.read_index)
      × (writable_bytes b ≡ length b.buffer - b.write_index)
sizes_lem v = omega arith
