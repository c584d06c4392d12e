-- ===== src/Reactor/Bag.antt =====
-- Tasks and messages as a bag: how often each is there, without an order.
use mathlib.Core.Quot
use mathlib.Core.Quot.{Quot}
use native.Mathlib.Nat.{ℕ_set}
use echoserver.Prelude.{ℕ, ◌+◌, ◌≡◌, refl, Bool, List, ◌++◌}
use echoserver.Reactor.ThreadPool.Counting.{total-append, holds, count}

-- Every test counts the same in both lists.
abbrev pub SameCounts : {A : Type 0} → List A → List A → Type 0
SameCounts {A} xs ys = (test : A → Bool) → count test xs ≡ count test ys

abbrev pub Bag : Type 0 → Type 0
Bag A = Quot (SameCounts {A = A})

abbrev pub to_bag : {A : Type 0} → List A → Bag A
to_bag xs = Quot.mk xs

pub same_bag : {A : Type 0} {xs ys : List A} → SameCounts xs ys → to_bag xs ≡ to_bag ys
same_bag h = Quot.sound h

-- A bag still says how often a test holds in it.
pub bag_count : {A : Type 0} → (A → Bool) → Bag A → ℕ
bag_count test = Quot.lift ℕ_set (count test) (λ xs ys h. h test)

pub bag_count-to_bag :
    {A : Type 0} (test : A → Bool) (xs : List A) → bag_count test (to_bag xs) ≡ count test xs
unfolding bag_count
bag_count-to_bag test xs = refl

pub count-append :
    {A : Type 0} (test : A → Bool) (xs ys : List A)
    → count test (xs ++ ys) ≡ count test xs + count test ys
count-append test xs ys = total-append (λ x. holds (test x)) xs ys
