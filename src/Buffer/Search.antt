-- ===== src/Buffer/Search.antt =====
-- `findEOL` and `findCRLF` find the first occurrence among the readable bytes, and only miss
-- where there is none.
use native.Mathlib.Nat.{le_refl}
use native.Mathlib.Decide.{ℕ_discrete}
use mathlib.Core.Path.{subst}
use echoserver.Prelude.{
  ℕ, zero, suc, ◌+◌, ◌-◌, ◌≤◌, ◌<◌, ◌≡◌, ◌⊎◌, inl, inr, refl, true, false, List, Option, none, some,
  arith, ltb, ◌==◌, ==_iff, leb, ◌&&◌, ◌||◌, if◌then◌else◌, Bool-cases, get_or,
}
use echoserver.Buffer.{
  Buffer, readable_bytes, search, memchr, find_crlf, find_crlf_from, find_eol, find_eol_from,
}
use echoserver.Buffer.Invariant.{IsValid}

-- The result of a search of the `n` places from `i` on for the first that has `P`.
abbrev pub Finds : (ℕ → Type 0) → ℕ → ℕ → Option ℕ → Type 0
Finds P i n none = (j : ℕ) → i ≤ j → j < i + n → ¬ (P j)
Finds P i n (some k) = (i ≤ k) × (k < i + n) × P k × ((j : ℕ) → i ≤ j → j < k → ¬ (P j))

-- A newline stands at place `j`.
abbrev pub EolAt : List ℕ → ℕ → Type 0
EolAt xs j = get_or xs j 0 ≡ 10

-- "\r\n" stands at place `j`, in front of `end`.
abbrev pub CrlfAt : List ℕ → ℕ → ℕ → Type 0
CrlfAt xs end j = (j + 1 < end) × (get_or xs j 0 ≡ 13) × (get_or xs (j + 1) 0 ≡ 10)

first-or-later :
    (P : ℕ → Type 0) (i k j : ℕ)
    → ¬ (P i)
    → ((m : ℕ) → i + 1 ≤ m → m < k → ¬ (P m))
    → i ≤ j
    → j < k
    → ¬ (P j)
first-or-later P i k j h f p q = elim (ℕ_discrete i j) [
  | yes e ↦ subst (λ t. ¬ (P t)) e h
  | no ne ↦ f j (omega arith) q
]

Finds-next :
    (P : ℕ → Type 0) (i n : ℕ) (r : Option ℕ) → ¬ (P i) → Finds P (i + 1) n r → Finds P i (suc n) r
Finds-next P i n none h f =
    λ j p q. first-or-later P i (i + suc n) j h (λ m a b. f m a (omega arith)) p q
Finds-next P i n (some k) h f =
    (omega arith, omega arith, f.2, λ j p q. first-or-later P i k j h f.3 p q)

memchr-Finds : (xs : List ℕ) (c i n : ℕ) → Finds (λ j. get_or xs j 0 ≡ c) i n (memchr xs c i n)
unfolding memchr
memchr-Finds xs c i zero = λ j p q. absurd (omega arith)
memchr-Finds xs c i (suc n) = elim (Bool-cases (get_or xs i 0 == c)) [
  | inl hit ↦ rw hit (le_refl i, omega arith, (==_iff _ c).0 hit, λ j p q. absurd (omega arith))
  | inr miss ↦ rw miss (
      Finds-next (λ j. get_or xs j 0 ≡ c) i n (memchr xs c (i + 1) n) (ground arith)
        (memchr-Finds xs c (i + 1) n))
]

-- The pointer that a search returns, the end of the range where it found nothing.
abbrev at_end : ℕ → ℕ → Option ℕ
at_end end p = if p == end then none else some p

search-Finds :
    (xs : List ℕ) (end i n : ℕ)
    → i + n ≡ end
    → Finds (CrlfAt xs end) i n (at_end end (search xs i n))
unfolding search
search-Finds xs end i zero e =
    let same : (i == end) ≡ true = (==_iff i end).1 (omega arith) in
    rw same (λ j p q. absurd (omega arith))
search-Finds xs end i (suc n) e =
    elim (Bool-cases (leb 1 n && (get_or xs i 0 == 13 && get_or xs (i + 1) 0 == 10))) [
      | inl hit ↦
          let inside : (i == end) ≡ false = ground arith in
          let found : CrlfAt xs end i = ground arith in
          rw (hit, inside) (le_refl i, omega arith, found, λ j p q. absurd (omega arith))
      | inr miss ↦ rw miss (
          Finds-next (CrlfAt xs end) i n (at_end end (search xs (i + 1) n)) (λ found. ground arith)
            (search-Finds xs end (i + 1) n (omega arith)))
    ]

-- For a valid buffer `findEOL` finds the first newline of the readable bytes, and nothing only where there is none.
pub find_eol-Finds :
    (b : Buffer)
    → IsValid b
    → Finds (EolAt b.buffer) b.read_index (b.write_index - b.read_index) (find_eol b)
unfolding find_eol
find_eol-Finds b v =
    let same : readable_bytes b ≡ b.write_index - b.read_index = omega arith in
    rw same (memchr-Finds b.buffer 10 b.read_index (b.write_index - b.read_index))

-- For a valid buffer `findCRLF` finds the first "\r\n" that lies within the readable bytes, and nothing only where
-- there is none.
pub find_crlf-Finds :
    (b : Buffer)
    → IsValid b
    → Finds
        (CrlfAt b.buffer b.write_index)
        b.read_index
        (b.write_index - b.read_index)
        (find_crlf b)
unfolding find_crlf
find_crlf-Finds b v =
    search-Finds b.buffer b.write_index b.read_index (b.write_index - b.read_index) (omega arith)

-- From a start among the readable bytes the searches look at the rest of them.
pub find_from-Finds :
    (b : Buffer) (start : ℕ)
    → b.read_index ≤ start
    → start ≤ b.write_index
    → Finds (EolAt b.buffer) start (b.write_index - start) (find_eol_from b start)
      × Finds (CrlfAt b.buffer b.write_index) start (b.write_index - start) (find_crlf_from b start)
unfolding find_eol_from find_crlf_from
find_from-Finds b start h k =
    let inside : (ltb start b.read_index || ltb b.write_index start) ≡ false = ground arith in
    rw inside (
      memchr-Finds b.buffer 10 start (b.write_index - start),
      search-Finds b.buffer b.write_index start (b.write_index - start) (omega arith),
    )

-- From any other start they find nothing.
pub find_from_outside :
    (b : Buffer) (start : ℕ)
    → (start < b.read_index) ⊎ (b.write_index < start)
    → (find_eol_from b start ≡ none) × (find_crlf_from b start ≡ none)
unfolding find_eol_from find_crlf_from
find_from_outside b start h =
    let outside : (ltb start b.read_index || ltb b.write_index start) ≡ true = ground arith in
    rw outside (refl, refl)
