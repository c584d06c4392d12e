-- ===== src/EventLoop/Tests.antt =====
-- `EventLoop` at concrete inputs: a host that logs its calls.
use echoserver.Prelude.{
  if◌then◌else◌, ℕ, ◌<◌, ◌≡◌, ◌≢◌, refl, true, false, some, List, [], ◌∷◌, ◌++◌, ◌==◌,
  if◌then◌else◌,
}
use echoserver.Prelude.Syscall.{Syscall, done, failed, eintr}
use echoserver.Connection.{Task, effects}
use echoserver.Connection.Operations
use echoserver.Connection.Lifecycle.{closes_by_peer, is_destroyed, acts}
use echoserver.EventLoop.{
  EventLoop, Host, lookup, wakeup, push_task, run, stop, rounds, run_pending, run_tasks,
  do_pending_tasks, handle_events, dispatch_events, begin_run, end_run,
}
use echoserver.EventLoop.Handlers.{on_effects, stale_handler}
use echoserver.EventLoop.Wakeup.{
  Shared, Reach, here, next, push, signal, polling, task_is_signalled,
}

record Logged : Type 0 where
  loop : EventLoop ℕ
  log : List ℕ

-- Task 0 stops the loop; any other task and every call is logged.
abbrev logging : Host Logged ℕ
logging = record {
  loop = λ s. s.loop;
  put = λ l s. record s { loop = l };
  call = λ handler events s. record s { log = s.log ++ (handler ∷ []) };
  execute = λ task s.
      if task == 0
      then record s { loop = stop s.loop.loop_thread_id s.loop }
      else record s { log = s.log ++ (task ∷ []) };
}

abbrev idle : EventLoop ℕ
idle = record {
  running = false;
  quit = false;
  handlers = (5, 50) ∷ (6, 60) ∷ [];
  active_events = 4;
  pending_tasks = 7 ∷ 0 ∷ 8 ∷ [];
  loop_thread_id = 1;
  signals = 0;
}

abbrev start : Logged
start = record { loop = idle; log = [] }

abbrev answers : List (Syscall (List (ℕ × ℕ)))
answers = done ((6, 1) ∷ (9, 1) ∷ (5, 4) ∷ []) ∷ failed eintr ∷ []

-- Events first, then the tasks in order; the loop ends after the round in which it was stopped.
run_logs : (run logging 1 answers start).0.log ≡ 60 ∷ 50 ∷ 7 ∷ 8 ∷ []
unfolding run rounds handle_events run_pending run_tasks dispatch_events do_pending_tasks begin_run
    end_run stop
run_logs = refl

abbrev nothing : EventLoop ℕ
nothing = record idle { pending_tasks = [] }

abbrev quiet : Shared ℕ
quiet = record { loop = nothing; phase = polling; posting = 0 }

abbrev posted : Shared ℕ
posted = record quiet { loop = wakeup (push_task 3 nothing) }

posting_reaches : Reach quiet posted
posting_reaches = next (next here (push 3)) (signal 0 refl)

posted_is_pending : posted.loop.pending_tasks ≢ []
unfolding wakeup push_task
posted_is_pending = λ e. cc

task_is_signalled_example : 0 < posted.loop.signals
task_is_signalled_example = task_is_signalled refl posting_reaches refl refl posted_is_pending

abbrev registered : EventLoop Task
registered = record {
  running = true;
  quit = false;
  handlers = (5, 50) ∷ [];
  active_events = 4;
  pending_tasks = [];
  loop_thread_id = 1;
  signals = 0;
}

stale_handler_example :
    lookup 5
      (on_effects 5 50
        (effects (acts (closes_by_peer ∷ is_destroyed true ∷ [])) (Operations.create 1 5))
        registered).handlers
    ≡ some 50
stale_handler_example =
    stale_handler 5 50 (is_destroyed true ∷ []) (Operations.create 1 5) registered refl
