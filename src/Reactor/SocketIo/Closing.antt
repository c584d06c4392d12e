-- ===== src/Reactor/SocketIo/Closing.antt =====
-- Where `readline` does not return: the peer has closed in the middle of a line.
use echoserver.Prelude.{
  ℕ, zero, suc, ◌-◌, ◌<◌, ◌≡◌, ◌≢◌, refl, inl, inr, min, false, List, [], ◌∷◌, arith, length, take,
  drop, length-take, length-drop,
}
use echoserver.Reactor.SocketIo.{
  Answer, returns, Progress, readn, first_line, after_readn, readline,
}
use echoserver.Reactor.SocketIo.Reading.{failures, readn_full}
use echoserver.Reactor.SocketIo.FirstLine.{recv_peek_lem, readn_script, first_line_open}

missing-take :
    (k : ℕ) (bs : List ℕ) → (first_line bs).1 ≡ false → (first_line (take k bs)).1 ≡ false
unfolding first_line
missing-take zero bs h = refl
missing-take (suc k) [] h = refl
missing-take (suc k) (b ∷ bs) h = ground (arith, missing-take k bs)

missing-drop :
    (k : ℕ) (bs : List ℕ) → (first_line bs).1 ≡ false → (first_line (drop k bs)).1 ≡ false
unfolding first_line
missing-drop zero bs h = h
missing-drop (suc k) [] h = refl
missing-drop (suc k) (b ∷ bs) h = ground (arith, missing-drop k bs)

after_readn_lem :
    (line : List ℕ) (taken next : Progress)
    → (taken.outcome ≡ returns → next.outcome ≢ returns)
    → (after_readn line taken next).outcome ≢ returns
after_readn_lem line taken next h e = ground (arith, h)

-- On a connection that the peer has closed before a whole line came, and with room for more,
-- `readline` never returns, however many answers it gets, as long as none is a failure.
pub readline_spins :
    (fuel left : ℕ) (script : List Answer) (incoming : List ℕ)
    → failures script ≡ 0
    → (first_line incoming).1 ≡ false
    → length incoming < left
    → (readline fuel left script incoming).outcome ≢ returns
unfolding readline
readline_spins fuel zero script incoming h missing short = absurd (omega arith)
readline_spins zero (suc left) script incoming h missing short = λ e. cc
readline_spins (suc fuel) (suc left) script incoming h missing short =
    elim (recv_peek_lem (suc left) script incoming h) [
      | inl (none, e) ↦ rw (readline, e) (λ e'. cc)
      | inr (n, (rest, (e, (healthy, count)))) ↦
          let k : ℕ = min (suc left) (suc n) in
          let size : ℕ = length (take k incoming) in
          let fits : size ≡ min k (length incoming) = length-take k incoming in
          let none : (first_line (take k incoming)).1 ≡ false = missing-take k incoming missing in
          let whole : (first_line (take k incoming)).0 ≡ take k incoming = first_line_open _ none in
          let (healthy', used) = readn_script size rest incoming healthy (omega arith) in
          rw (readline, e, none, whole)
            (after_readn_lem (take k incoming) (readn size rest incoming) _ (λ ends.
              rw (readn_full size rest incoming healthy ends).1 (
                readline_spins fuel (suc left - size) (readn size rest incoming).script
                  (drop size incoming) healthy' (missing-drop size incoming missing)
                  (omega (arith, length-drop size incoming)))))
    ]
