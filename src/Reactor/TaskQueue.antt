-- ===== src/Reactor/TaskQueue.antt =====
-- wd_reactor_server/Reactor_v4/TaskQueue.cc and ThreadPool.cc: the bounded queue of tasks that
-- threads share, with its mutex and its two condition variables.
-- A condition variable is the number of the threads that wait on it and of those that it has
-- notified and that have not yet got the mutex back. What a thread does between two points at
-- which it waits is one operation.
pub mod Steps
pub mod Signals
pub mod Exit
mod Tests
use echoserver.Prelude.{
  ℕ, zero, suc, ◌+◌, Bool, true, false, not, ◌&&◌, Option, none, some, List, [], ◌∷◌, ◌++◌, ◌==◌,
  if◌then◌else◌, length,
}

pub record Condition : Type 0 where
  pub waiting : ℕ
  pub notified : ℕ

unfoldable pub notify_one : Condition → Condition
notify_one c = elim c.waiting [
  | zero ↦ c
  | suc n ↦ record { waiting = n; notified = suc c.notified }
]

unfoldable pub notify_all : Condition → Condition
notify_all c = record { waiting = 0; notified = c.waiting + c.notified }

unfoldable pub wait : Condition → Condition
wait c = record c { waiting = suc c.waiting }

pub record TaskQueue (T : Type 0) : Type 0 where
  pub capacity : ℕ
  pub que : List T
  pub not_empty : Condition
  pub not_full : Condition
  pub flag : Bool

-- What `pop` does where it has the mutex.
pub data Popped (T : Type 0) : Type 0 where
  waits : Popped T
  takes : T → Popped T
  gives_up : Popped T

module _ {T : Type 0} where
  unfoldable pub create : ℕ → TaskQueue T
  create capacity = record {
    capacity = capacity;
    que = [];
    not_empty = record { waiting = 0; notified = 0 };
    not_full = record { waiting = 0; notified = 0 };
    flag = true;
  }

  unfoldable pub empty : TaskQueue T → Bool
  empty q = length q.que == 0

  unfoldable pub full : TaskQueue T → Bool
  full q = length q.que == q.capacity

  -- `push` from where it has the mutex: it waits, or it puts the task into the queue.
  unfoldable pub push : T → TaskQueue T → TaskQueue T
  unfolding full wait notify_one
  push task q =
      if full q
      then record q { not_full = wait q.not_full }
      else record q { que = q.que ++ (task ∷ []); not_empty = notify_one q.not_empty }

  -- The last case is `front` of an empty queue, which does not arise.
  unfoldable pub pop : TaskQueue T → Popped T × TaskQueue T
  unfolding empty wait notify_one
  pop q =
      if empty q && q.flag
      then (waits, record q { not_empty = wait q.not_empty })
      else (if not q.flag then (gives_up, q) else (elim q.que [
        | [] ↦ (gives_up, q)
        | task ∷ rest ↦ (takes task, record q { que = rest; not_full = notify_one q.not_full })
      ]))

  -- `wakeup` without the mutex, in its two statements.
  unfoldable pub clear_flag : TaskQueue T → TaskQueue T
  clear_flag q = record q { flag = false }

  unfoldable pub wakeup_all : TaskQueue T → TaskQueue T
  unfolding notify_all
  wakeup_all q = record q { not_empty = notify_all q.not_empty }

  unfoldable pub wakeup : TaskQueue T → TaskQueue T
  unfolding clear_flag wakeup_all
  wakeup q = wakeup_all (clear_flag q)
