-- ===== src/Reactor/ThreadPool.antt =====
-- wd_reactor_server/Reactor_v4/ThreadPool.h and ThreadPool.cc: worker threads that take tasks from a
-- TaskQueue, and the thread that starts the pool, adds tasks to it and stops it.
-- A task is a function that is not empty, as what it is called with; an empty one is `none`. What a
-- thread does between two points at which others may run is one operation. The three lists are
-- records of what has happened, in order.
mod Steps
pub mod Counting
mod Moves
mod Stop
mod Waiting
mod Join
mod Missed
mod Tests
use echoserver.Prelude.{
  ℕ, zero, suc, Bool, true, false, not, Option, none, some, List, [], ◌∷◌, ◌++◌, if◌then◌else◌,
}
use echoserver.Reactor.TaskQueue.{
  TaskQueue, create, empty, full, push, pop, Popped, waits, takes, gives_up, clear_flag, wakeup_all,
  wait,
}

-- Where a worker is in `doTask`. In `is_waiting` it has tested the queue and holds the mutex.
pub data Worker (T : Type 0) : Type 0 where
  tests_exit : Worker T
  gets_task : Worker T
  is_waiting : Worker T
  sleeps : Worker T
  runs : T → Worker T
  ended : Worker T

-- Where the thread of the owner is: in `start`, between its calls, in an `addTask` that waits, or in
-- `stop` before one of its statements.
pub data Owner (T : Type 0) : Type 0 where
  starting : ℕ → Owner T
  serving : Owner T
  adding : T → Owner T
  draining : Owner T
  exiting : Owner T
  clearing : Owner T
  waking : Owner T
  joining : Owner T
  stopped : Owner T

pub record Pool (T : Type 0) : Type 0 where
  pub task_que : TaskQueue T
  pub locked : Bool
  pub is_exit : Bool
  pub added : List T
  pub taken : List T
  pub finished : List T

pub record ThreadPool (T : Type 0) : Type 0 where
  pub pool : Pool T
  pub threads : List (Worker T)
  pub owner : Owner T

module _ {T : Type 0} where
  unfoldable pub create_pool : ℕ → ℕ → ThreadPool T
  create_pool thread_num que_size = record {
    pool = record {
      task_que = create que_size;
      locked = false;
      is_exit = false;
      added = [];
      taken = [];
      finished = [];
    };
    threads = [];
    owner = starting thread_num;
  }

  -- One round of the loop in `start`.
  unfoldable pub start_thread : ℕ → ThreadPool T → ThreadPool T
  start_thread remaining s = record s {
    threads = s.threads ++ (tests_exit ∷ []);
    owner = starting remaining;
  }

  unfoldable pub add_task : Option T → Pool T → Owner T × Pool T
  unfolding push full
  add_task none p = (serving, p)
  add_task (some task) p =
      let p' = record p { task_que = push task p.task_que } in
      if full p.task_que
      then (adding task, p')
      else (serving, record p' { added = p.added ++ (task ∷ []) })

  -- `while(!m_isExit)`
  unfoldable pub test_exit : Pool T → Worker T
  test_exit p = if not p.is_exit then gets_task else ended

  -- What `pop` has given: where it waits, the queue is as it was, and the mutex is held until it
  -- does. An empty function is only reported.
  unfoldable pub after_pop : Popped T → TaskQueue T → Pool T → Worker T × Pool T
  after_pop waits q p = (is_waiting, record p { locked = true })
  after_pop (takes task) q p =
      (runs task, record p { task_que = q; taken = p.taken ++ (task ∷ []) })
  after_pop gives_up q p = (tests_exit, record p { task_que = q })

  -- `getTask` from where it has the mutex.
  unfoldable pub get_task : Pool T → Worker T × Pool T
  unfolding after_pop
  get_task p = after_pop (pop p.task_que).0 (pop p.task_que).1 p

  unfoldable pub wait_for_task : Pool T → Pool T
  unfolding wait
  wait_for_task p =
      let q = p.task_que in
      record p { task_que = record q { not_empty = wait q.not_empty }; locked = false }

  unfoldable pub run_task : T → Pool T → Pool T
  run_task task p = record p { finished = p.finished ++ (task ∷ []) }

  -- The statements of `stop` in order; the test of the loop first.
  unfoldable pub test_empty : Pool T → Owner T
  unfolding empty
  test_empty p = if not (empty p.task_que) then draining else exiting

  unfoldable pub set_exit : Pool T → Pool T
  set_exit p = record p { is_exit = true }

  unfoldable pub lower_flag : Pool T → Pool T
  unfolding clear_flag
  lower_flag p = record p { task_que = clear_flag p.task_que }

  unfoldable pub wake_workers : Pool T → Pool T
  unfolding wakeup_all
  wake_workers p = record p { task_que = wakeup_all p.task_que }

  -- `join` on every thread returns.
  unfoldable pub all_ended : List (Worker T) → Bool
  all_ended [] = true
  all_ended (ended ∷ rest) = all_ended rest
  all_ended (_ ∷ rest) = false
