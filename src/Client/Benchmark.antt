-- ===== src/Client/Benchmark.antt =====
-- The benchmark against a server that sends back what it gets.
use echoserver.Prelude.{
  ℕ, zero, suc, ◌+◌, ◌/◌, ◌%◌, ◌≤◌, ◌<◌, ◌≡◌, refl, ap, ◌∙◌, inl, inr, true, some, List, [], ◌∷◌,
  ◌++◌, arith, ltb, Bool-cases, take, take_all, length, length-append,
}
use echoserver.Prelude.Digits.{to_string}
use echoserver.Prelude.Bytes.{c_string}
use echoserver.Prelude.Syscall.{done}
use echoserver.Client.{
  send_message, receive_message, room, prefix, benchmark_message, same, Answers, benchmark_loop,
}

abbrev NoNul : List ℕ → Type 0
NoNul [] = Unit {0}
NoNul (b ∷ bs) = (0 < b) × NoNul bs

c_string-NoNul : (bs : List ℕ) → NoNul bs → c_string bs ≡ bs
unfolding c_string
c_string-NoNul [] h = refl
c_string-NoNul (b ∷ bs) h = ground (arith, c_string-NoNul bs h.1)

NoNul-append : (xs ys : List ℕ) → NoNul xs → NoNul ys → NoNul (xs ++ ys)
NoNul-append [] ys h k = k
NoNul-append (x ∷ xs) ys h k = (h.0, NoNul-append xs ys h.1 k)

NoNul-to_string : (fuel n : ℕ) → NoNul (to_string fuel n)
unfolding to_string
NoNul-to_string zero n = (omega arith, tt)
NoNul-to_string (suc fuel) n = elim (Bool-cases (ltb n 10)) [
  | inl small ↦ rw small (omega arith, tt)
  | inr large ↦ rw large (NoNul-append _ _ (NoNul-to_string fuel (n / 10)) (omega arith, tt))
]

length-to_string : (fuel n : ℕ) → length (to_string fuel n) ≤ fuel + 1
unfolding to_string
length-to_string zero n = omega arith
length-to_string (suc fuel) n = ground (
  arith,
  length-to_string fuel (n / 10),
  length-append (to_string fuel (n / 10)) ((48 + n % 10) ∷ []),
)

same_refl : (xs : List ℕ) → same xs xs ≡ true
same_refl [] = refl
same_refl (x ∷ xs) = ground (arith, same_refl xs)

-- A server that takes every message and sends it back in one piece.
pub record Echoing (answers : Answers) : Type 0 where
  pub takes : (i : ℕ) (message : List ℕ) → answers.to_send i message ≡ done (length message)
  pub echoes : (i : ℕ) (message : List ℕ) → answers.to_recv i message ≡ done message

-- The benchmark's messages from number `i` on.
abbrev pub messages : ℕ → ℕ → List (List ℕ)
messages zero i = []
messages (suc n) i = benchmark_message i ∷ messages n (i + 1)

message_comes_back : (i : ℕ) → c_string (take room (benchmark_message i)) ≡ benchmark_message i
unfolding benchmark_message
message_comes_back i =
    let small : length (benchmark_message i) ≤ room =
      omega (arith, length-append prefix (to_string 9 (i + 1)), length-to_string 9 (i + 1)) in
    ap c_string (take_all room (benchmark_message i) small)
    ∙ c_string-NoNul _ (NoNul-append prefix _ (ground arith) (NoNul-to_string 9 (i + 1)))

-- A connected client's benchmark of a server that takes every message and sends it back in one
-- piece sends all the messages in order, and finds no mismatch.
pub benchmark_lem :
    (answers : Answers) (n i fd : ℕ)
    → Echoing answers
    → benchmark_loop answers n i (record { socket_fd = some fd })
      ≡ record { sent = messages n i; mismatches = 0; complete = true }
unfolding benchmark_loop send_message receive_message
benchmark_lem answers zero i fd e = refl
benchmark_lem answers (suc n) i fd e =
    rw
      (
        e.takes,
        e.echoes,
        message_comes_back i,
        same_refl (benchmark_message i),
        benchmark_lem answers n (i + 1) fd e,
      )
      refl
