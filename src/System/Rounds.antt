-- ===== src/System/Rounds.antt =====
-- A worker's round, step by step, in the life of a connection.
use echoserver.Prelude.{
  ℕ, ◌≡◌, refl, false, Option, none, some, List, [], ◌∷◌, arith, ◌==◌, ==_iff, inl, inr, Bool-cases,
  length, ltb,
}
use echoserver.Prelude.Syscall.{Syscall, done, failed}
use echoserver.Handler.{Callback}
use echoserver.EventLoop.{
  EventLoop, lookup, handle_wakeup, dispatch_events, grow, handle_events, run_tasks, run_pending,
  do_pending_tasks,
}
use echoserver.Peer.{handle_callback}
use echoserver.System.{
  Job, System, loop_at, put_loop, callbacks_of, on_callback, deliver, run_job, host,
}
use echoserver.System.Steps.{worker_round}
use echoserver.System.Births.{all_births-clear, put-Frame, put-Absent, lookup-holds}
use echoserver.System.Phases.{Opened, Phase, unborn, waiting, opened, callback-KeepsExact}
use echoserver.System.Living.{
  move-Phase, Frame-Phase, Frame-Opened, perform_other-Phase, perform-Opened, run_job-Phase,
}

-- A change of a loop that leaves its tasks and its handlers.
put-Phase :
    (name i : ℕ) (jobs : List Job) (f : EventLoop Job → EventLoop Job) (s : System)
    → ((l : EventLoop Job) → (f l).pending_tasks ≡ l.pending_tasks)
    → ((l : EventLoop Job) → (f l).handlers ≡ l.handlers)
    → Phase name jobs s
    → Phase name jobs (put_loop i (f (loop_at i s)) s)
put-Phase name i jobs f s tasks handlers =
    Frame-Phase (put-Frame name i f s tasks) (put-Absent name i f s (λ l h. rw (handlers l) h))

wakeup-tasks : (l : EventLoop Job) → (handle_wakeup l).pending_tasks ≡ l.pending_tasks
unfolding handle_wakeup
wakeup-tasks l = refl

wakeup-handlers : (l : EventLoop Job) → (handle_wakeup l).handlers ≡ l.handlers
unfolding handle_wakeup
wakeup-handlers l = refl

callback_other-Phase :
    (name i other : ℕ) (callback : Callback) (jobs : List Job) (s : System)
    → (other == name) ≡ false
    → Phase name jobs s
    → Phase name jobs (on_callback i other callback s)
unfolding on_callback
callback_other-Phase name i other callback jobs s differs phase = elim (Bool-cases (other == 0)) [
  | inl eventfd ↦
      rw eventfd (put-Phase name i jobs handle_wakeup s wakeup-tasks wakeup-handlers phase)
  | inr known ↦
      rw known (perform_other-Phase name i other (handle_callback callback) jobs s differs phase)
]

callback-Opened :
    (name i : ℕ) (callback : Callback) (jobs : List Job) (s : System)
    → Opened name jobs s
    → Opened name jobs (on_callback i name callback s)
unfolding on_callback
callback-Opened name i callback jobs s o = elim (Bool-cases (name == 0)) [
  | inl eventfd ↦ rw eventfd (Frame-Opened (put-Frame name i handle_wakeup s wakeup-tasks) o)
  | inr known ↦
      rw known
        (perform-Opened name i (handle_callback callback) jobs s (callback-KeepsExact callback) o)
]

deliver_other-Phase :
    (name i other : ℕ) (callbacks : List Callback) (jobs : List Job) (s : System)
    → (other == name) ≡ false
    → Phase name jobs s
    → Phase name jobs (deliver i other callbacks s)
unfolding deliver
deliver_other-Phase name i other [] jobs s differs phase = phase
deliver_other-Phase name i other (callback ∷ callbacks) jobs s differs phase =
    deliver_other-Phase name i other callbacks jobs (on_callback i other callback s) differs
      (callback_other-Phase name i other callback jobs s differs phase)

deliver-Opened :
    (name i : ℕ) (callbacks : List Callback) (jobs : List Job) (s : System)
    → Opened name jobs s
    → Opened name jobs (deliver i name callbacks s)
unfolding deliver
deliver-Opened name i [] jobs s o = o
deliver-Opened name i (callback ∷ callbacks) jobs s o =
    deliver-Opened name i callbacks jobs (on_callback i name callback s)
      (callback-Opened name i callback jobs s o)

-- An event finds the handler of a connection only where the connection is open.
reached-Opened :
    (name i fd : ℕ) (jobs : List Job) (s : System)
    → lookup fd (loop_at i s).handlers ≡ some name
    → Phase name jobs s
    → Opened name jobs s
reached-Opened name i fd jobs s found (unborn none_there no_births away) =
    absurd (ground (arith, lookup-holds name fd (loop_at i s).handlers found, away i))
reached-Opened name i fd jobs s found (waiting p h u once away given) =
    absurd (ground (arith, lookup-holds name fd (loop_at i s).handlers found, away i))
reached-Opened name i fd jobs s found (opened o) = o

call-Phase :
    (name i fd other : ℕ) (callbacks : List Callback) (jobs : List Job) (s : System)
    → lookup fd (loop_at i s).handlers ≡ some other
    → Phase name jobs s
    → Phase name jobs (deliver i other callbacks s)
call-Phase name i fd other callbacks jobs s found phase = elim (Bool-cases (other == name)) [
  | inr differs ↦ deliver_other-Phase name i other callbacks jobs s differs phase
  | inl self ↦
      let equal : other ≡ name = (==_iff other name).0 self in
      rw equal (
        opened (
          deliver-Opened name i callbacks jobs s
            (reached-Opened name i fd jobs s (rw equal at found) phase)))
]

called-Phase :
    (name i fd events : ℕ) (o : Option ℕ) (jobs : List Job) (s : System)
    → lookup fd ((host i).loop s).handlers ≡ o
    → Phase name jobs s
    → Phase name jobs (elim o [ none ↦ s | some other ↦ (host i).call other events s ])
unfolding host
called-Phase name i fd events none jobs s found phase = phase
called-Phase name i fd events (some other) jobs s found phase =
    call-Phase name i fd other (callbacks_of other events s) jobs s found phase

dispatch-Phase :
    (name i : ℕ) (ready : List (ℕ × ℕ)) (jobs : List Job) (s : System)
    → Phase name jobs s
    → Phase name jobs (dispatch_events (host i) ready s)
unfolding dispatch_events
dispatch-Phase name i [] jobs s phase = phase
dispatch-Phase name i ((fd, events) ∷ ready) jobs s phase =
    dispatch-Phase name i ready jobs _
      (called-Phase name i fd events (lookup fd ((host i).loop s).handlers) jobs s refl phase)

grow-tasks : (i n : ℕ) (l : EventLoop Job) → (grow (host i) n l).pending_tasks ≡ l.pending_tasks
unfolding grow
grow-tasks i n l = ground arith

grow-handlers : (i n : ℕ) (l : EventLoop Job) → (grow (host i) n l).handlers ≡ l.handlers
unfolding grow
grow-handlers i n l = ground arith

grown-Phase :
    (name i n : ℕ) (jobs : List Job) (s : System)
    → Phase name jobs s
    → Phase name jobs ((host i).put (grow (host i) n ((host i).loop s)) s)
unfolding host
grown-Phase name i n jobs s phase =
    put-Phase name i jobs (grow (host i) n) s (grow-tasks i n) (grow-handlers i n) phase

events-Phase :
    (name i : ℕ) (ready : Syscall (List (ℕ × ℕ))) (jobs : List Job) (s : System)
    → Phase name jobs s
    → Phase name jobs (handle_events (host i) ready s)
unfolding handle_events
events-Phase name i (failed e) jobs s phase = phase
events-Phase name i (done ready) jobs s phase = elim (Bool-cases (ltb 0 (length ready))) [
  | inl more ↦
      rw (more, handle_events)
        (grown-Phase name i (length ready) jobs _ (dispatch-Phase name i ready jobs s phase))
  | inr idle ↦ rw (idle, handle_events) (dispatch-Phase name i ready jobs s phase)
]

tasks-Phase :
    (name i : ℕ) (jobs : List Job) (s : System)
    → Phase name jobs s
    → Phase name [] (run_tasks (host i) jobs s)
unfolding run_tasks host
tasks-Phase name i [] s phase = phase
tasks-Phase name i (job ∷ jobs) s phase =
    tasks-Phase name i jobs (run_job i job s) (run_job-Phase name i job jobs s phase)

-- The tasks are taken from the loop and are still to be run.
abbrev cleared : EventLoop Job → EventLoop Job
cleared l = record l { pending_tasks = [] }

taken-Phase :
    (name i : ℕ) (s : System)
    → Phase name [] s
    → Phase name (loop_at i s).pending_tasks (put_loop i (cleared (loop_at i s)) s)
taken-Phase name i s phase =
    move-Phase name [] (loop_at i s).pending_tasks s (put_loop i (cleared (loop_at i s)) s) refl
      (omega (arith, all_births-clear name cleared (λ l. refl) s.loops i)) (omega arith)
      (put-Absent name i cleared s (λ l h. h)) phase

pending-Phase : (name i : ℕ) (s : System) → Phase name [] s → Phase name [] (run_pending (host i) s)
unfolding run_pending do_pending_tasks host
pending-Phase name i s phase =
    tasks-Phase name i (loop_at i s).pending_tasks (put_loop i (cleared (loop_at i s)) s)
      (taken-Phase name i s phase)

pub round-Phase :
    (name i : ℕ) (ready : Syscall (List (ℕ × ℕ))) (s : System)
    → Phase name [] s
    → Phase name [] (worker_round i ready s)
unfolding worker_round
round-Phase name i ready s phase = pending-Phase name i _ (events-Phase name i ready [] s phase)
