-- ===== src/Reactor/SocketIo/Reading.antt =====
-- `readn` and `writen` move the bytes in order, and come to an end.
use echoserver.Prelude.{
  ℕ, zero, suc, ◌-◌, ◌≤◌, ◌≡◌, refl, sym, ap, ◌∙◌, inl, inr, min, List, [], ◌∷◌, ◌++◌, append_assoc,
  arith, ◌==◌, Bool-cases, if◌then◌else◌, length, take, drop, length-append, length-take,
  length-drop, take_all, drop_all,
}
use echoserver.Reactor.SocketIo.{
  Answer, handles, interrupts, fails, returns, Progress, chunk, extend, readn,
}

-- The answers that end the wait of a system call, and those that are failures.
abbrev pub served : List Answer → ℕ
served [] = 0
served (interrupts ∷ script) = served script
served (_ ∷ script) = suc (served script)

abbrev pub failures : List Answer → ℕ
failures [] = 0
failures (fails ∷ script) = suc (failures script)
failures (_ ∷ script) = failures script

-- The rest of `readn` where `chunk` is not empty.
pub readn-step :
    (len n : ℕ) (script : List Answer) (incoming : List ℕ)
    → let got = chunk (suc len) n incoming in
      readn (suc len) (handles n ∷ script) incoming ≡ (
        if length got == 0
        then record { moved = []; left = incoming; script = script; outcome = returns }
        else extend got (readn (suc len - length got) script (drop (length got) incoming)))
unfolding readn
readn-step len n script incoming = refl

take-drop-min : (n : ℕ) (xs : List ℕ) → take n xs ++ drop (length (take n xs)) xs ≡ xs
take-drop-min zero xs = refl
take-drop-min (suc n) [] = refl
take-drop-min (suc n) (x ∷ xs) = ap (◌∷◌ x) (take-drop-min n xs)

-- What `readn` has read and what is left are what was there, and it reads no more than it is asked
-- for.
pub readn-order :
    (len : ℕ) (script : List Answer) (incoming : List ℕ)
    → let p = readn len script incoming in (p.moved ++ p.left ≡ incoming) × (length p.moved ≤ len)
unfolding readn
readn-order zero script incoming = (refl, omega arith)
readn-order (suc len) [] incoming = (refl, omega arith)
readn-order (suc len) (interrupts ∷ script) incoming = readn-order (suc len) script incoming
readn-order (suc len) (fails ∷ script) incoming = (refl, omega arith)
readn-order (suc len) (handles n ∷ script) incoming =
    let got : List ℕ = chunk (suc len) n incoming in
    let size : length got ≡ min (min (suc len) (suc n)) (length incoming) =
      length-take _ incoming in
    let (order, bound) = readn-order (suc len - length got) script (drop (length got) incoming) in
    elim (Bool-cases (length got == 0)) [
      | inl none ↦ rw none (refl, omega arith)
      | inr some ↦ rw some (
        append_assoc got _ _ ∙ ap (◌++◌ got) order ∙ take-drop-min _ incoming,
        omega (
          arith,
          length-append got
              (readn (suc len - length got) script (drop (length got) incoming)).moved,
        ),
      )
    ]

-- With an answer for every byte `readn` does not wait for ever.
pub readn_returns :
    (len : ℕ) (script : List Answer) (incoming : List ℕ)
    → len ≤ served script
    → (readn len script incoming).outcome ≡ returns
unfolding readn
readn_returns zero script incoming h = refl
readn_returns (suc len) [] incoming h = absurd (omega arith)
readn_returns (suc len) (interrupts ∷ script) incoming h = readn_returns (suc len) script incoming h
readn_returns (suc len) (fails ∷ script) incoming h = refl
readn_returns (suc len) (handles n ∷ script) incoming h =
    let got : List ℕ = chunk (suc len) n incoming in
    elim (Bool-cases (length got == 0)) [
      | inl none ↦ rw none refl
      | inr some ↦
          rw some (
            readn_returns (suc len - length got) script (drop (length got) incoming) (ground arith))
    ]

readn_size :
    (len : ℕ) (script : List Answer) (incoming : List ℕ)
    → failures script ≡ 0
    → (readn len script incoming).outcome ≡ returns
    → length (readn len script incoming).moved ≡ min len (length incoming)
unfolding readn
readn_size zero script incoming h e = omega arith
readn_size (suc len) [] incoming h e = cc
readn_size (suc len) (interrupts ∷ script) incoming h e = readn_size (suc len) script incoming h e
readn_size (suc len) (fails ∷ script) incoming h e = absurd (omega arith)
readn_size (suc len) (handles n ∷ script) incoming h e =
    let got : List ℕ = chunk (suc len) n incoming in
    let rest : Progress = readn (suc len - length got) script (drop (length got) incoming) in
    ground (
      arith,
      length-take (min (suc len) (suc n)) incoming,
      readn_size (suc len - length got) script (drop (length got) incoming) h,
      length-append got rest.moved,
      length-drop (length got) incoming,
    )

prefix_is_take :
    (xs ys zs : List ℕ) (n : ℕ)
    → xs ++ ys ≡ zs
    → length xs ≡ min n (length zs)
    → (xs ≡ take n zs) × (ys ≡ drop n zs)
prefix_is_take [] ys [] n e h =
    (sym (take_all n [] (omega arith)), e ∙ sym (drop_all n [] (omega arith)))
prefix_is_take [] ys (z ∷ zs) zero e h = (refl, e)
prefix_is_take [] ys (z ∷ zs) (suc n) e h = absurd (omega arith)
prefix_is_take (x ∷ xs) ys [] n e h = absurd (omega arith)
prefix_is_take (x ∷ xs) ys (z ∷ zs) zero e h = absurd (omega arith)
prefix_is_take (x ∷ xs) ys (z ∷ zs) (suc n) e h = ground (arith, prefix_is_take xs ys zs n)

-- Without failures, what `readn` returns with is exactly the `len` bytes it was asked for, or all
-- that came before the peer closed, and it leaves the others.
pub readn_full :
    (len : ℕ) (script : List Answer) (incoming : List ℕ)
    → failures script ≡ 0
    → (readn len script incoming).outcome ≡ returns
    → ((readn len script incoming).moved ≡ take len incoming)
      × ((readn len script incoming).left ≡ drop len incoming)
readn_full len script incoming h e =
    prefix_is_take _ _ incoming len (readn-order len script incoming).0
      (readn_size len script incoming h e)
