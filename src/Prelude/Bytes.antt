-- ===== src/Prelude/Bytes.antt =====
-- Storage as the program's copies see it: bytes written one after another from an index on,
-- and bytes moved inside one array.
use Prim.Native.Nat.{ℕ, zero, suc, ◌+◌, ◌-◌, ◌<◌, ◌≤◌}
use mathlib.Core.Path.{◌≡◌, refl, ap, ap₂, ◌∙◌}
use mathlib.Core.List.{List, [], ◌∷◌, ◌++◌}
use native.Mathlib.Omega.{arith}
use echoserver.Prelude.Tests.{◌==◌, if◌then◌else◌}
use echoserver.Prelude.Lists.{
  length, get_or, set, take, replicate, length-append, length-replicate, length-set,
  get_or-set_self, get_or-set_ne, get_or-append_left, length-take, take_all,
}

-- The `n` bytes from index `i` on.
abbrev pub slice : List ℕ → ℕ → ℕ → List ℕ
slice xs i zero = []
slice xs i (suc n) = get_or xs i 0 ∷ slice xs (i + 1) n

-- `std::copy(src, src + n, dst + i)` from another array.
unfoldable pub copy : List ℕ → ℕ → List ℕ → List ℕ
copy xs i [] = xs
copy xs i (y ∷ ys) = copy (set xs i y) (i + 1) ys

-- `std::copy` of `n` bytes from index `src` to index `dst` of the same array, first byte first.
unfoldable pub move : List ℕ → ℕ → ℕ → ℕ → List ℕ
move xs src dst zero = xs
move xs src dst (suc n) = move (set xs dst (get_or xs src 0)) (src + 1) (dst + 1) n

-- `vector::resize`
unfoldable pub resize : List ℕ → ℕ → List ℕ
resize xs n = take n xs ++ replicate (n - length xs) 0

pub length-slice : (xs : List ℕ) (i n : ℕ) → length (slice xs i n) ≡ n
length-slice xs i zero = refl
length-slice xs i (suc n) = ap suc (length-slice xs (i + 1) n)

pub slice-append :
    (xs : List ℕ) (i n m k t : ℕ)
    → k ≡ i + n
    → t ≡ n + m
    → slice xs i t ≡ slice xs i n ++ slice xs k m
slice-append xs i zero m k t e h = ap₂ (slice xs) (omega arith) (omega arith)
slice-append xs i (suc n) m k t e h =
    let split : t ≡ suc (n + m) = omega arith in
    rw split (ap (◌∷◌ (get_or xs i 0)) (slice-append xs (i + 1) n m k (n + m) (omega arith) refl))

-- Two arrays that agree on a range have the same slice there.
pub slice_ext :
    (xs ys : List ℕ) (i n : ℕ)
    → ((j : ℕ) → i ≤ j → j < i + n → get_or xs j 0 ≡ get_or ys j 0)
    → slice xs i n ≡ slice ys i n
slice_ext xs ys i zero h = refl
slice_ext xs ys i (suc n) h =
    ap₂ ◌∷◌ (h i (omega arith) (omega arith))
      (slice_ext xs ys (i + 1) n (λ j p q. h j (omega arith) (omega arith)))

pub length-copy : (xs : List ℕ) (i : ℕ) (ys : List ℕ) → length (copy xs i ys) ≡ length xs
unfolding copy
length-copy xs i [] = refl
length-copy xs i (y ∷ ys) = length-copy (set xs i y) (i + 1) ys ∙ length-set xs i y

-- A copy leaves what is in front of it and what is behind it.
pub get_or-copy_before :
    (xs : List ℕ) (i : ℕ) (ys : List ℕ) (j : ℕ) → j < i → get_or (copy xs i ys) j 0 ≡ get_or xs j 0
unfolding copy
get_or-copy_before xs i [] j h = refl
get_or-copy_before xs i (y ∷ ys) j h =
    get_or-copy_before (set xs i y) (i + 1) ys j (omega arith)
    ∙ get_or-set_ne xs i j y 0 (omega arith)

pub get_or-copy_after :
    (xs : List ℕ) (i : ℕ) (ys : List ℕ) (j : ℕ)
    → i + length ys ≤ j
    → get_or (copy xs i ys) j 0 ≡ get_or xs j 0
unfolding copy
get_or-copy_after xs i [] j h = refl
get_or-copy_after xs i (y ∷ ys) j h =
    get_or-copy_after (set xs i y) (i + 1) ys j (omega arith)
    ∙ get_or-set_ne xs i j y 0 (omega arith)

-- What a copy wrote is read back.
pub slice-copy :
    (xs : List ℕ) (i : ℕ) (ys : List ℕ)
    → i + length ys ≤ length xs
    → slice (copy xs i ys) i (length ys) ≡ ys
unfolding copy
slice-copy xs i [] h = refl
slice-copy xs i (y ∷ ys) h =
    ap₂ ◌∷◌
      (get_or-copy_before (set xs i y) (i + 1) ys i (omega arith)
        ∙ get_or-set_self xs i y 0 (omega arith))
      (slice-copy (set xs i y) (i + 1) ys (omega (arith, length-set xs i y)))

pub slice-copy_before :
    (xs : List ℕ) (i : ℕ) (ys : List ℕ) (j n : ℕ)
    → j + n ≤ i
    → slice (copy xs i ys) j n ≡ slice xs j n
slice-copy_before xs i ys j n h =
    slice_ext _ xs j n (λ k p q. get_or-copy_before xs i ys k (omega arith))

pub slice-copy_after :
    (xs : List ℕ) (i : ℕ) (ys : List ℕ) (j n : ℕ)
    → i + length ys ≤ j
    → slice (copy xs i ys) j n ≡ slice xs j n
slice-copy_after xs i ys j n h =
    slice_ext _ xs j n (λ k p q. get_or-copy_after xs i ys k (omega arith))

pub length-move : (xs : List ℕ) (src dst n : ℕ) → length (move xs src dst n) ≡ length xs
unfolding move
length-move xs src dst zero = refl
length-move xs src dst (suc n) = length-move _ (src + 1) (dst + 1) n ∙ length-set xs dst _

get_or-move_before :
    (xs : List ℕ) (src dst n j : ℕ) → j < dst → get_or (move xs src dst n) j 0 ≡ get_or xs j 0
unfolding move
get_or-move_before xs src dst zero j h = refl
get_or-move_before xs src dst (suc n) j h =
    get_or-move_before _ (src + 1) (dst + 1) n j (omega arith)
    ∙ get_or-set_ne xs dst j _ 0 (omega arith)

-- A move to the front is right also where the two ranges overlap.
pub slice-move :
    (xs : List ℕ) (src dst n : ℕ)
    → dst < src
    → src + n ≤ length xs
    → slice (move xs src dst n) dst n ≡ slice xs src n
unfolding move
slice-move xs src dst zero h k = refl
slice-move xs src dst (suc n) h k =
    let x : ℕ = get_or xs src 0 in
    ap₂ ◌∷◌
      (get_or-move_before (set xs dst x) (src + 1) (dst + 1) n dst (omega arith)
        ∙ get_or-set_self xs dst x 0 (omega arith))
      (slice-move (set xs dst x) (src + 1) (dst + 1) n (omega arith)
          (omega (arith, length-set xs dst x))
        ∙ slice_ext (set xs dst x) xs (src + 1) n
            (λ j p q. get_or-set_ne xs dst j x 0 (omega arith)))

pub length-resize : (xs : List ℕ) (n : ℕ) → length (resize xs n) ≡ n
unfolding resize
length-resize xs n = omega (
  arith,
  length-append (take n xs) (replicate (n - length xs) 0),
  length-take n xs,
  length-replicate (n - length xs) (zero),
)

-- Growth keeps the bytes that are there.
pub slice-resize :
    (xs : List ℕ) (n i m : ℕ)
    → length xs ≤ n
    → i + m ≤ length xs
    → slice (resize xs n) i m ≡ slice xs i m
unfolding resize
slice-resize xs n i m h k =
    rw (take_all n xs h) (slice_ext _ xs i m (λ j p q. get_or-append_left xs _ j 0 (omega arith)))

-- What `string(buff)` makes of a buffer: the bytes in front of the first NUL.
unfoldable pub c_string : List ℕ → List ℕ
c_string [] = []
c_string (b ∷ bs) = if b == 0 then [] else b ∷ c_string bs
