-- ===== src/Reactor/ThreadPool/Tests.antt =====
-- Concrete orders of the threads of a pool, and the conditions of the theorems at them.
use echoserver.Prelude.{ℕ, ◌+◌, ◌*◌, ◌≤◌, ◌≡◌, refl, ◌⊎◌, false, some, [], ◌∷◌, ◌++◌, length}
use echoserver.Reactor.TaskQueue.{
  create, empty, full, push, pop, wait, notify_one, notify_all, clear_flag, wakeup_all,
}
use echoserver.Reactor.ThreadPool.{
  is_waiting, stopped, joining, ThreadPool, create_pool, start_thread, add_task, test_exit,
  after_pop, get_task, wait_for_task, run_task, test_empty, set_exit, lower_flag, wake_workers,
  all_ended,
}
use echoserver.Reactor.ThreadPool.Steps.{
  looks, pops, ends_task, works, starts, is_started, adds, stops, drains, exits, clears, wakes,
  joins, Reach, here, next, Calm, stay, goes,
}
use echoserver.Reactor.Bag.{to_bag}
use echoserver.Reactor.ThreadPool.Stop.{stop_runs_all}
use echoserver.Reactor.ThreadPool.Join.{CanStep, stop_returns}
use echoserver.Reactor.ThreadPool.Missed.{waits_late, late_wait_hangs}

abbrev Run : Type 0
Run = (s : ThreadPool ℕ) × Reach (create_pool 1 2) s

-- One thread, which takes a task before the pool stops.
abbrev has_run : Run
unfolding create_pool create start_thread add_task push full notify_one test_exit get_task after_pop
    pop empty wait_for_task wait run_task test_empty set_exit lower_flag clear_flag wake_workers
    wakeup_all notify_all all_ended
has_run = (
  _,
  next
      (next
        (next (next (next (next here (starts 0 refl)) (is_started refl)) (adds (some 5) refl refl))
          (works [] [] refl looks))
        (works [] [] refl (pops refl)))
      (works [] [] refl (ends_task 5)),
)

abbrev at_join : Run
unfolding create_pool create start_thread add_task push full notify_one test_exit get_task after_pop
    pop empty wait_for_task wait run_task test_empty set_exit lower_flag clear_flag wake_workers
    wakeup_all notify_all all_ended
at_join = (
  _,
  next (next (next (next (next has_run.1 (stops refl)) (drains refl)) (exits refl)) (clears refl))
      (wakes refl),
)

abbrev returned : Run
unfolding create_pool create start_thread add_task push full notify_one test_exit get_task after_pop
    pop empty wait_for_task wait run_task test_empty set_exit lower_flag clear_flag wake_workers
    wakeup_all notify_all all_ended
returned = (_, next (next at_join.1 (works [] [] refl looks)) (joins refl refl))

is_stopped : returned.0.owner ≡ stopped
unfolding create_pool create start_thread add_task push full notify_one test_exit get_task after_pop
    pop empty wait_for_task wait run_task test_empty set_exit lower_flag clear_flag wake_workers
    wakeup_all notify_all all_ended
is_stopped = refl

stop_runs_all_example :
    (returned.0.pool.task_que.que ≡ [])
    × (returned.0.pool.taken ≡ returned.0.pool.added)
    × (to_bag returned.0.pool.finished ≡ to_bag returned.0.pool.added)
stop_runs_all_example = stop_runs_all 1 2 returned.0 returned.1 is_stopped

ran_the_task : returned.0.pool.finished ≡ 5 ∷ []
unfolding create_pool create start_thread add_task push full notify_one test_exit get_task after_pop
    pop empty wait_for_task wait run_task test_empty set_exit lower_flag clear_flag wake_workers
    wakeup_all notify_all all_ended
ran_the_task = refl

joins_now : at_join.0.owner ≡ joining
unfolding create_pool create start_thread add_task push full notify_one test_exit get_task after_pop
    pop empty wait_for_task wait run_task test_empty set_exit lower_flag clear_flag wake_workers
    wakeup_all notify_all all_ended
joins_now = refl

none_holds : at_join.0.pool.locked ≡ false
unfolding create_pool create start_thread add_task push full notify_one test_exit get_task after_pop
    pop empty wait_for_task wait run_task test_empty set_exit lower_flag clear_flag wake_workers
    wakeup_all notify_all all_ended
none_holds = refl

none_waits : at_join.0.pool.task_que.not_empty.waiting ≡ 0
unfolding create_pool create start_thread add_task push full notify_one test_exit get_task after_pop
    pop empty wait_for_task wait run_task test_empty set_exit lower_flag clear_flag wake_workers
    wakeup_all notify_all all_ended
none_waits = refl

returns_calmly : Calm at_join.0 2 returned.0
unfolding create_pool create start_thread add_task push full notify_one test_exit get_task after_pop
    pop empty wait_for_task wait run_task test_empty set_exit lower_flag clear_flag wake_workers
    wakeup_all notify_all all_ended
returns_calmly = goes (goes stay (works [] [] refl looks)) (joins refl refl)

stop_returns_example :
    (2 ≤ 2 * length at_join.0.threads + 1) × ((returned.0.owner ≡ stopped) ⊎ CanStep returned.0)
stop_returns_example =
    stop_returns 1 2 2 at_join.0 returned.0 at_join.1 joins_now none_holds none_waits returns_calmly

-- The thread has found the queue empty, and the owner stops the pool before it waits.
abbrev late : Run
unfolding create_pool create start_thread add_task push full notify_one test_exit get_task after_pop
    pop empty wait_for_task wait run_task test_empty set_exit lower_flag clear_flag wake_workers
    wakeup_all notify_all all_ended
late = (
  _,
  next
      (next
        (next
          (next
            (next
              (next
                (next (next (next here (starts 0 refl)) (is_started refl)) (works [] [] refl looks))
                (works [] [] refl (pops refl)))
              (stops refl))
            (drains refl))
          (exits refl))
        (clears refl))
      (wakes refl),
)

late_joins : late.0.owner ≡ joining
unfolding create_pool create start_thread add_task push full notify_one test_exit get_task after_pop
    pop empty wait_for_task wait run_task test_empty set_exit lower_flag clear_flag wake_workers
    wakeup_all notify_all all_ended
late_joins = refl

is_late : late.0.threads ≡ [] ++ (is_waiting ∷ [])
unfolding create_pool create start_thread add_task push full notify_one test_exit get_task after_pop
    pop empty wait_for_task wait run_task test_empty set_exit lower_flag clear_flag wake_workers
    wakeup_all notify_all all_ended
is_late = refl

late_wait_hangs_example : (waits_late [] [] late.0).owner ≡ joining
late_wait_hangs_example =
    late_wait_hangs 1 2 0 [] [] late.0 (waits_late [] [] late.0) late.1 late_joins is_late stay
