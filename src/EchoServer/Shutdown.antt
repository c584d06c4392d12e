-- ===== src/EchoServer/Shutdown.antt =====
-- What `stop` does, in which order, and what a failed `start` and a restart leave.
use mathlib.Core.Path.{subst}
use echoserver.Prelude.{
  ℕ, zero, suc, ◌+◌, ◌<◌, ◌≡◌, refl, ◌∙◌, Bool, true, false, not, ◌&&◌, some, List, [], ◌∷◌, ◌++◌,
  map, arith, length, ◌==◌, if◌then◌else◌, replicate, get_or, Bool-cases, inl, inr,
}
use echoserver.EchoServer.{
  EchoServer, Action, stops_loop, joins_thread, force_closes, each, join_threads, Listening, start,
  stop, get_next_loop,
}

-- How many connections are told to close before the thread of loop `i` is joined.
abbrev pub closes_before : ℕ → List Action → ℕ
closes_before i [] = 0
closes_before i (joins_thread j ∷ rest) = if j == i then 0 else closes_before i rest
closes_before i (force_closes name ∷ rest) = suc (closes_before i rest)
closes_before i (_ ∷ rest) = closes_before i rest

stops_first :
    (i k n : ℕ) (rest : List Action)
    → closes_before i (each stops_loop k n ++ rest) ≡ closes_before i rest
stops_first i k zero rest = refl
stops_first i k (suc n) rest = stops_first i (k + 1) n rest

joins_next :
    (i k : ℕ) (loops : List Bool) (rest : List Action)
    → get_or loops i false ≡ true
    → closes_before (k + i) (join_threads k loops ++ rest) ≡ 0
joins_next i k [] rest h = cc
joins_next zero k (joinable ∷ loops) rest h = rw h (ground arith)
joins_next (suc i) k (joinable ∷ loops) rest h =
    let later : closes_before (k + suc i) (join_threads (k + 1) loops ++ rest) ≡ 0 =
      subst (λ (j : ℕ). closes_before j (join_threads (k + 1) loops ++ rest) ≡ 0) (omega arith)
        (joins_next i (k + 1) loops rest h) in
    elim (Bool-cases joinable) [ inl on ↦ rw on (ground (arith, later)) | inr off ↦ rw off later ]

-- `stop` of a started server tells no connection to close before it has joined the threads that it
-- joins: for each worker loop whose thread is still to be joined, the number of `forceClose` calls
-- that come before the `join` of this thread is 0.
pub stop_closes_late :
    (s : EchoServer) (i : ℕ)
    → s.started ≡ true
    → get_or s.loops i false ≡ true
    → closes_before i (stop s).0 ≡ 0
unfolding stop
stop_closes_late s i up joinable =
    let closing : List Action = map force_closes s.connections in
    let joined : closes_before i (join_threads 0 s.loops ++ closing) ≡ 0 =
      subst (λ (j : ℕ). closes_before j (join_threads 0 s.loops ++ closing) ≡ 0) (omega arith)
        (joins_next i 0 s.loops closing joinable) in
    rw up (stops_first i 0 (length s.loops) (join_threads 0 s.loops ++ closing) ∙ joined)

-- A first `start` that fails at any of its three calls leaves the server marked as started, with no loop
-- and no acceptor, so that `start` may not be tried again.
pub start_failed :
    (s : EchoServer) (answers retry : Listening)
    → s.started ≡ false
    → (answers.created && (answers.bound && answers.listens)) ≡ false
    → (start answers s ≡ ([], record s { started = true }))
      × (start retry (start answers s).1 ≡ ([], (start answers s).1))
unfolding start
start_failed s answers retry down failed = (ground arith, ground arith)

abbrev pub all_joined : List Bool → Bool
all_joined [] = true
all_joined (running ∷ loops) = not running && all_joined loops

all_joined-map : (loops : List Bool) → all_joined (map (λ _. false) loops) ≡ true
all_joined-map [] = refl
all_joined-map (b ∷ loops) = all_joined-map loops

-- `stop` of a started server joins every loop and forgets every connection, and a second one does
-- nothing.
pub stop_lem :
    (s : EchoServer)
    → s.started ≡ true
    → ((stop s).1.started ≡ false)
      × ((stop s).1.connections ≡ [])
      × (all_joined (stop s).1.loops ≡ true)
      × (stop (stop s).1 ≡ ([], (stop s).1))
unfolding stop
stop_lem s up = rw up (refl, refl, all_joined-map s.loops, refl)

restarted :
    (s : EchoServer) (answers : Listening)
    → s.started ≡ true
    → (answers.created && (answers.bound && answers.listens)) ≡ true
    → (start answers (stop s).1).1 ≡ record s {
      started = true;
      connections = [];
      loops = map (λ _. false) s.loops ++ replicate s.thread_num true;
    }
unfolding start stop
restarted s answers up ready = ground arith

first_pick :
    (s : EchoServer) → s.next_loop_index ≡ 0 → 0 < length s.loops → (get_next_loop s).0 ≡ some 0
unfolding get_next_loop
first_pick s e h = ground arith

first_ended :
    (loops more : List Bool)
    → 0 < length loops
    → (0 < length (map (λ (_ : Bool). false) loops ++ more))
      × (get_or (map (λ _. false) loops ++ more) 0 true ≡ false)
first_ended [] more h = absurd (omega arith)
first_ended (b ∷ loops) more h = (omega arith, refl)

-- A successful `start` after a `stop` keeps the ended loops in front of the new ones: if there are
-- ended loops and no connection was given to a loop before, the next one is given to a loop whose thread has ended.
pub restart_keeps_ended :
    (s : EchoServer) (answers : Listening)
    → s.started ≡ true
    → (answers.created && (answers.bound && answers.listens)) ≡ true
    → s.next_loop_index ≡ 0
    → 0 < length s.loops
    → let s' = (start answers (stop s).1).1 in
      (s'.loops ≡ map (λ _. false) s.loops ++ replicate s.thread_num true)
      × ((get_next_loop s').0 ≡ some 0)
      × (get_or s'.loops 0 true ≡ false)
restart_keeps_ended s answers up ready e h =
    let more : List Bool = replicate s.thread_num true in
    rw (restarted s answers up ready)
      (refl, first_pick _ e (first_ended s.loops more h).0, (first_ended s.loops more h).1)
