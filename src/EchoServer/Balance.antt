-- ===== src/EchoServer/Balance.antt =====
-- How `getNextLoop` spreads the connections over the worker loops.
use native.Mathlib.Nat.{mod-lt}
use echoserver.Prelude.{
  ℕ, zero, suc, ◌+◌, ◌%◌, ◌^◌, ◌<◌, ◌≡◌, refl, ap, true, false, Option, some, List, [], ◌∷◌, arith,
  length, ltb, ◌==◌,
}
use echoserver.EchoServer.{EchoServer, to_size, get_next_loop}

-- The loops that the next `n` connections get.
unfoldable pub picks : ℕ → EchoServer → List (Option ℕ)
picks zero s = []
picks (suc n) s = let (i, s') = get_next_loop s in i ∷ picks n s'

-- The indices from `k` on, modulo the number of loops.
abbrev pub cycle : ℕ → ℕ → ℕ → List (Option ℕ)
cycle m k zero = []
cycle m k (suc n) = some (k % m) ∷ cycle m (k + 1) n

-- Where `getNextLoop` picks a worker loop, its index is in range, whatever the counter has become, also below zero.
pub get_next_loop-lt : (s : EchoServer) (i : ℕ) → (get_next_loop s).0 ≡ some i → i < length s.loops
unfolding get_next_loop
get_next_loop-lt s i e =
    ground (arith, λ (h : 0 < length s.loops). mod-lt (to_size s.next_loop_index) h)

next_in_turn :
    (s : EchoServer)
    → 0 < length s.loops
    → s.next_loop_index + 1 < 2 ^ 31
    → get_next_loop s ≡ (
      some (s.next_loop_index % length s.loops),
      record s { next_loop_index = s.next_loop_index + 1 },
    )
unfolding get_next_loop
next_in_turn s h k =
    let some_loops : (length s.loops == 0) ≡ false = ground arith in
    let small : ltb s.next_loop_index (2 ^ 31) ≡ true = ground arith in
    let no_wrap : (s.next_loop_index + 1) % 2 ^ 32 ≡ s.next_loop_index + 1 = omega arith in
    rw (some_loops, small, no_wrap) refl

-- With at least one worker loop and as long as the counter does not overflow, connections go to the loops in turn.
pub picks-cycle :
    (n : ℕ) (s : EchoServer)
    → 0 < length s.loops
    → s.next_loop_index + n < 2 ^ 31
    → picks n s ≡ cycle (length s.loops) s.next_loop_index n
unfolding picks
picks-cycle zero s h k = refl
picks-cycle (suc n) s h k = rw (next_in_turn s h (omega arith)) (
    ap (◌∷◌ (some (s.next_loop_index % length s.loops)))
      (picks-cycle n (record s { next_loop_index = s.next_loop_index + 1 }) h (omega arith)))
