-- ===== src/Reactor/ThreadPool/Missed.antt =====
-- A thread that begins to wait after `stop` has notified all.
use echoserver.Prelude.{ℕ, ◌≤◌, ◌<◌, ◌≡◌, ap, List, ◌∷◌, ◌++◌, arith}
use echoserver.Reactor.TaskQueue.{wait}
use echoserver.Reactor.ThreadPool.{
  Worker, tests_exit, gets_task, is_waiting, sleeps, runs, ended, joining, Pool, ThreadPool,
  create_pool, wait_for_task, run_task,
}
use echoserver.Reactor.ThreadPool.Steps.{
  Move, looks, pops, waits_now, pops_again, ends_task, Step, works, starts, is_started, adds,
  adds_again, stops, drains, exits, clears, wakes, joins, resume_worker, Reach, Calm, stay, goes,
}
use echoserver.Reactor.ThreadPool.Counting.{total_mono, asleep, busy, all_ended-total}
use echoserver.Reactor.ThreadPool.Waiting.{
  Counted, get_task_keeps, Step-Counted, Reach-Counted, create_pool-Counted,
}

module _ {T : Type 0} where
  -- The owner waits in `join`, and a thread sleeps that nobody has notified.
  record Hangs (s : ThreadPool T) : Type 0 where
    counted : Counted s
    at_join : s.owner ≡ joining
    forgotten : 0 < s.pool.task_que.not_empty.waiting

  Move_keeps_forgotten :
      {p p' : Pool T} {w v : Worker T}
      → Move p w v p'
      → 0 < p.task_que.not_empty.waiting
      → 0 < p'.task_que.not_empty.waiting
  unfolding wait_for_task wait run_task
  Move_keeps_forgotten looks h = h
  Move_keeps_forgotten {p} (pops free) h =
      omega (arith, ap (λ c. c.waiting) (get_task_keeps p free).0)
  Move_keeps_forgotten waits_now h = omega arith
  Move_keeps_forgotten {p} (pops_again n free e) h =
      omega (arith, ap (λ c. c.waiting) (get_task_keeps (resume_worker n p) free).0)
  Move_keeps_forgotten (ends_task task) h = h

  asleep_is_busy : (w : Worker T) → asleep w ≤ busy w
  asleep_is_busy tests_exit = omega arith
  asleep_is_busy gets_task = omega arith
  asleep_is_busy is_waiting = omega arith
  asleep_is_busy sleeps = omega arith
  asleep_is_busy (runs task) = omega arith
  asleep_is_busy ended = omega arith

  Step-Hangs : {s t : ThreadPool T} → Step s t → Hangs s → Hangs t
  Step-Hangs (works before after e m) h = record {
    counted = Step-Counted (works before after e m) h.counted;
    at_join = h.at_join;
    forgotten = Move_keeps_forgotten m h.forgotten;
  }
  Step-Hangs {s} (joins e all) h = absurd (
      omega (
        arith,
        h.counted.slept,
        h.forgotten,
        total_mono asleep busy asleep_is_busy s.threads,
        all_ended-total s.threads all,
      ))
  Step-Hangs (starts n e) h = absurd (ground (arith, h.at_join))
  Step-Hangs (is_started e) h = absurd (ground (arith, h.at_join))
  Step-Hangs (adds task e free) h = absurd (ground (arith, h.at_join))
  Step-Hangs (adds_again task n e free e') h = absurd (ground (arith, h.at_join))
  Step-Hangs (stops e) h = absurd (ground (arith, h.at_join))
  Step-Hangs (drains e) h = absurd (ground (arith, h.at_join))
  Step-Hangs (exits e) h = absurd (ground (arith, h.at_join))
  Step-Hangs (clears e) h = absurd (ground (arith, h.at_join))
  Step-Hangs (wakes e) h = absurd (ground (arith, h.at_join))

  Calm-Hangs : {s : ThreadPool T} {n : ℕ} {t : ThreadPool T} → Hangs s → Calm s n t → Hangs t
  Calm-Hangs h stay = h
  Calm-Hangs h (goes c step) = Step-Hangs step (Calm-Hangs h c)

  abbrev pub waits_late : List (Worker T) → List (Worker T) → ThreadPool T → ThreadPool T
  waits_late before after s = record s {
    pool = wait_for_task s.pool;
    threads = before ++ (sleeps ∷ after);
  }

-- `wakeup` does not take the mutex. Where `stop` has come to `join` while a worker is between the
-- test and the wait of `pop`, and the worker then waits: whatever the threads do from then on, as
-- long as no wait returns without a notification, `stop` stays in `join`.
pub late_wait_hangs :
    {T : Type 0} (threads size n : ℕ) (before after : List (Worker T)) (s t : ThreadPool T)
    → Reach (create_pool threads size) s
    → s.owner ≡ joining
    → s.threads ≡ before ++ (is_waiting ∷ after)
    → Calm (waits_late before after s) n t
    → t.owner ≡ joining
late_wait_hangs threads size n before after s t r e w c = (Calm-Hangs hangs c).at_join
  where
    counted : Counted (waits_late before after s)
    counted =
        Step-Counted (works before after w waits_now)
          (Reach-Counted (create_pool-Counted threads size) r)

    hangs : Hangs (waits_late before after s)
    hangs = record {
      counted = counted;
      at_join = e;
      forgotten = unfold wait_for_task wait in omega arith;
    }
