-- ===== src/Prelude/Digits.antt =====
-- `std::to_string` of a number that is not negative (as in examples/client.cpp and src/socket.cpp),
-- and reading the number back.
use Prim.Native.Nat.{ℕ, zero, suc, ◌+◌, ◌-◌, ◌*◌, ◌/◌, ◌%◌, ◌<◌}
use mathlib.Core.Path.{◌≡◌, refl}
use mathlib.Core.Logic.{inl, inr}
use mathlib.Core.List.{List, [], ◌∷◌, ◌++◌}
use native.Mathlib.Omega.{arith}
use echoserver.Prelude.Tests.{ltb, if◌then◌else◌, Bool-cases}

-- The fuel is one less than the digits.
unfoldable pub to_string : ℕ → ℕ → List ℕ
to_string zero n = (48 + n % 10) ∷ []
to_string (suc fuel) n =
    let front = to_string fuel (n / 10) in
    if ltb n 10 then (48 + n % 10) ∷ [] else front ++ ((48 + n % 10) ∷ [])

-- The number that decimal digits stand for, behind what was read before.
abbrev pub read_decimal : ℕ → List ℕ → ℕ
read_decimal before [] = before
read_decimal before (digit ∷ digits) = read_decimal (before * 10 + (digit - 48)) digits

read_decimal-append :
    (n : ℕ) (xs ys : List ℕ) → read_decimal n (xs ++ ys) ≡ read_decimal (read_decimal n xs) ys
read_decimal-append n [] ys = refl
read_decimal-append n (x ∷ xs) ys = read_decimal-append (n * 10 + (x - 48)) xs ys

-- Ten to the number of the digits.
abbrev pub limit : ℕ → ℕ
limit zero = 10
limit (suc fuel) = 10 * limit fuel

pub read_decimal-to_string : (fuel n : ℕ) → n < limit fuel → read_decimal 0 (to_string fuel n) ≡ n
unfolding to_string
read_decimal-to_string zero n h = omega arith
read_decimal-to_string (suc fuel) n h = elim (Bool-cases (ltb n 10)) [
  | inl small ↦ rw small (ground arith)
  | inr large ↦
      rw
        (
          large,
          read_decimal-append 0 (to_string fuel (n / 10)) ((48 + n % 10) ∷ []),
          read_decimal-to_string fuel (n / 10) (omega arith),
        )
        (omega arith)
]
