-- ===== src/Reactor/SocketIo/Tests.antt =====
-- Concrete messages, and the conditions of the theorems at them.
use echoserver.Prelude.{ℕ, ◌≡◌, ◌≢◌, refl, inl, true, false, List, [], ◌∷◌, arith}
use echoserver.Reactor.SocketIo.{
  Answer, handles, interrupts, fails, returns, overruns, readn, readline, recv_peek, first_line,
}
use echoserver.Reactor.SocketIo.Lines.{Reads, readline_lem}
use echoserver.Reactor.SocketIo.Closing.{readline_spins}

-- Two lines, in the middle of which the kernel's answers stop.
abbrev stream : List ℕ
stream = 1 ∷ 2 ∷ 10 ∷ 3 ∷ 10 ∷ []

abbrev answers : List Answer
answers =
    handles 1
    ∷ interrupts
    ∷ handles 0
    ∷ handles 0
    ∷ handles 3
    ∷ handles 5
    ∷ handles 5
    ∷ handles 5
    ∷ handles 5
    ∷ handles 5
    ∷ handles 5
    ∷ []

reads_a_line : (readline 4 4 answers stream).moved ≡ 1 ∷ 2 ∷ 10 ∷ []
unfolding readline readn recv_peek first_line
reads_a_line = refl

fails_overrun : (readline 4 4 (fails ∷ []) stream).outcome ≡ overruns
unfolding readline recv_peek
fails_overrun = refl

stream_ends : (readn 3 answers stream).outcome ≡ returns
unfolding readn
stream_ends = refl

line_is_there : (first_line (1 ∷ 2 ∷ 10 ∷ 3 ∷ [])).1 ≡ true
unfolding first_line
line_is_there = refl

readline_lem_example : Reads 4 stream (readline 4 4 answers stream)
unfolding first_line
readline_lem_example =
    readline_lem 4 4 answers stream (omega arith) refl (omega arith) (inl line_is_there)

half_a_line : (first_line (1 ∷ 2 ∷ [])).1 ≡ false
unfolding first_line
half_a_line = refl

readline_spins_example : (readline 9 4 answers (1 ∷ 2 ∷ [])).outcome ≢ returns
readline_spins_example = readline_spins 9 4 answers (1 ∷ 2 ∷ []) refl half_a_line (omega arith)
