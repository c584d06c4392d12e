-- ===== src/Reactor/ThreadPool/Steps.antt =====
-- The threads of a ThreadPool, as the order in which they take their steps.
use echoserver.Prelude.{ℕ, zero, suc, ◌≡◌, true, false, Option, some, List, ◌∷◌, ◌++◌}
use echoserver.Reactor.TaskQueue.{notify_one}
use echoserver.Reactor.ThreadPool.{
  Worker, tests_exit, gets_task, is_waiting, sleeps, runs, starting, serving, adding, draining,
  exiting, clearing, waking, joining, stopped, Pool, ThreadPool, start_thread, add_task, test_exit,
  get_task, wait_for_task, run_task, test_empty, set_exit, lower_flag, wake_workers, all_ended,
}

module _ {T : Type 0} where
  -- A notified thread that has the mutex back.
  abbrev pub resume_worker : ℕ → Pool T → Pool T
  resume_worker n p =
      let q = p.task_que in
      record p {
        task_que = record q { not_empty = record { waiting = q.not_empty.waiting; notified = n } };
      }

  abbrev pub resume_owner : ℕ → Pool T → Pool T
  resume_owner n p =
      let q = p.task_que in
      record p {
        task_que = record q { not_full = record { waiting = q.not_full.waiting; notified = n } };
      }

  -- One step of a worker over what the threads share.
  pub data Move (p : Pool T) : Worker T → Worker T → Pool T → Type 0 where
    looks : Move p tests_exit (test_exit p) p
    pops : p.locked ≡ false → Move p gets_task (get_task p).0 (get_task p).1
    waits_now : Move p is_waiting sleeps (wait_for_task p)
    pops_again :
        (n : ℕ)
        → p.locked ≡ false
        → p.task_que.not_empty.notified ≡ suc n
        → Move p sleeps (get_task (resume_worker n p)).0 (get_task (resume_worker n p)).1
    ends_task : (task : T) → Move p (runs task) tests_exit (run_task task p)

  pub data Step (s : ThreadPool T) : ThreadPool T → Type 0 where
    works :
        (before after : List (Worker T)) {w v : Worker T} {p : Pool T}
        → s.threads ≡ before ++ (w ∷ after)
        → Move s.pool w v p
        → Step s (record s { pool = p; threads = before ++ (v ∷ after) })
    starts : (n : ℕ) → s.owner ≡ starting (suc n) → Step s (start_thread n s)
    is_started : s.owner ≡ starting zero → Step s (record s { owner = serving })
    adds :
        (task : Option T)
        → s.owner ≡ serving
        → s.pool.locked ≡ false
        → Step s (record s { owner = (add_task task s.pool).0; pool = (add_task task s.pool).1 })
    adds_again :
        (task : T) (n : ℕ)
        → s.owner ≡ adding task
        → s.pool.locked ≡ false
        → s.pool.task_que.not_full.notified ≡ suc n
        → Step s (record s {
          owner = (add_task (some task) (resume_owner n s.pool)).0;
          pool = (add_task (some task) (resume_owner n s.pool)).1;
        })
    stops : s.owner ≡ serving → Step s (record s { owner = draining })
    drains : s.owner ≡ draining → Step s (record s { owner = test_empty s.pool })
    exits : s.owner ≡ exiting → Step s (record s { owner = clearing; pool = set_exit s.pool })
    clears : s.owner ≡ clearing → Step s (record s { owner = waking; pool = lower_flag s.pool })
    wakes : s.owner ≡ waking → Step s (record s { owner = joining; pool = wake_workers s.pool })
    joins : s.owner ≡ joining → all_ended s.threads ≡ true → Step s (record s { owner = stopped })

  -- A wait that returns without a notification, as if it had got one.
  abbrev pub rouse_worker : Pool T → Pool T
  rouse_worker p =
      let q = p.task_que in record p { task_que = record q { not_empty = notify_one q.not_empty } }

  abbrev pub rouse_owner : Pool T → Pool T
  rouse_owner p =
      let q = p.task_que in record p { task_que = record q { not_full = notify_one q.not_full } }

  pub data Reach (s : ThreadPool T) : ThreadPool T → Type 0 where
    here : Reach s s
    next : {t u : ThreadPool T} → Reach s t → Step t u → Reach s u
    rouses_worker :
        {t : ThreadPool T} → Reach s t → Reach s (record t { pool = rouse_worker t.pool })
    rouses_owner : {t : ThreadPool T} → Reach s t → Reach s (record t { pool = rouse_owner t.pool })

  -- The same without such returns, with the number of the steps.
  pub data Calm (s : ThreadPool T) : ℕ → ThreadPool T → Type 0 where
    stay : Calm s zero s
    goes : {n : ℕ} {t u : ThreadPool T} → Calm s n t → Step t u → Calm s (suc n) u
