-- ===== src/Reactor/ThreadPool/Waiting.antt =====
-- The threads of a ThreadPool that sleep in its queue, who holds the mutex, and what `stop` has set.
use echoserver.Prelude.{
  ℕ, ◌+◌, ◌≤◌, ◌≡◌, refl, ap, ◌∙◌, Bool, true, false, Option, none, some, List, [], ◌∷◌, ◌++◌,
  arith,
}
use echoserver.Reactor.TaskQueue.{
  Condition, create, empty, full, push, pop, wait, clear_flag, wakeup_all, notify_one, notify_all,
}
use echoserver.Reactor.ThreadPool.{
  Worker, tests_exit, Owner, serving, draining, clearing, waking, joining, stopped, Pool,
  ThreadPool, create_pool, start_thread, add_task, test_exit, after_pop, get_task, wait_for_task,
  run_task, test_empty, set_exit, lower_flag, wake_workers,
}
use echoserver.Reactor.ThreadPool.Steps.{
  Move, looks, pops, waits_now, pops_again, ends_task, Step, works, starts, is_started, adds,
  adds_again, stops, drains, exits, clears, wakes, joins, resume_worker, resume_owner, Reach, here,
  next, rouses_worker, rouses_owner,
}
use echoserver.Reactor.ThreadPool.Counting.{
  total, total-append, total_moves, total_first, holds, asleep, before_wait,
}

abbrev pub sleepers : {T : Type 0} → Pool T → ℕ
sleepers p = p.task_que.not_empty.waiting + p.task_que.not_empty.notified

notify_one_sum :
    (c : Condition) → (notify_one c).waiting + (notify_one c).notified ≡ c.waiting + c.notified
unfolding notify_one
notify_one_sum c = ground arith

module _ {T : Type 0} where
  -- `stop` has set `m_isExit`, and cleared the flag of the queue.
  abbrev pub has_exited : Owner T → Bool
  has_exited clearing = true
  has_exited waking = true
  has_exited joining = true
  has_exited stopped = true
  has_exited _ = false

  abbrev pub has_lowered : Owner T → Bool
  has_lowered waking = true
  has_lowered joining = true
  has_lowered stopped = true
  has_lowered _ = false

  -- The threads in `wait` are those that the condition variable counts, and the mutex is held
  -- between two steps by at most one thread, which is going to wait.
  pub record Counted (s : ThreadPool T) : Type 0 where
    pub slept : total asleep s.threads ≡ sleepers s.pool
    pub held : total before_wait s.threads ≡ holds s.pool.locked
    pub exit : has_exited s.owner ≡ true → s.pool.is_exit ≡ true
    pub lowered : has_lowered s.owner ≡ true → s.pool.task_que.flag ≡ false

  -- What a call of `get_task` leaves as it was.
  pub get_task_keeps :
      (p : Pool T)
      → p.locked ≡ false
      → ((get_task p).1.task_que.not_empty ≡ p.task_que.not_empty)
        × (asleep (get_task p).0 ≡ 0)
        × (before_wait (get_task p).0 ≡ holds (get_task p).1.locked)
        × ((get_task p).1.is_exit ≡ p.is_exit)
        × ((get_task p).1.task_que.flag ≡ p.task_que.flag)
  unfolding get_task after_pop pop empty
  get_task_keeps p free = (ground arith, ground arith, ground arith, ground arith, ground arith)

  pub Move_counts :
      {p p' : Pool T} {w v : Worker T}
      → Move p w v p'
      → before_wait w ≤ holds p.locked
      → (asleep v + sleepers p ≡ asleep w + sleepers p')
        × (before_wait v + holds p.locked ≡ before_wait w + holds p'.locked)
        × (p'.is_exit ≡ p.is_exit)
        × (p'.task_que.flag ≡ p.task_que.flag)
  unfolding test_exit wait_for_task wait run_task
  Move_counts looks h = (ground arith, ground arith, refl, refl)
  Move_counts {p} (pops free) h =
      let (e, a, b, x, f) = get_task_keeps p free in
      (omega (arith, a, ap (λ c. c.waiting + c.notified) e), omega (arith, b, ap holds free), x, f)
  Move_counts waits_now h = (omega arith, ground arith, refl, refl)
  Move_counts {p} (pops_again n free e') h =
      let (e, a, b, x, f) = get_task_keeps (resume_worker n p) free in
      (
        omega (arith, a, e', ap (λ c. c.waiting + c.notified) e),
        omega (arith, b, ap holds free),
        x,
        f,
      )
  Move_counts (ends_task task) h = (refl, refl, refl, refl)

  works-Counted :
      (s : ThreadPool T) (before after : List (Worker T)) {w v : Worker T} {p : Pool T}
      → s.threads ≡ before ++ (w ∷ after)
      → Move s.pool w v p
      → Counted s
      → Counted (record s { pool = p; threads = before ++ (v ∷ after) })
  works-Counted s before after {w} {v} {p} e m h =
      let one : before_wait w ≤ holds s.pool.locked = omega (
        arith,
        h.held,
        ap (total before_wait) e,
        total-append before_wait before (w ∷ after),
        total_first before_wait w after,
      ) in
      let (a, b, x, f) = Move_counts m one in
      record {
        slept = omega (arith, h.slept, a, ap (total asleep) e, total_moves asleep before after w v);
        held =
            omega (
              arith,
              h.held,
              b,
              ap (total before_wait) e,
              total_moves before_wait before after w v,
            );
        exit = λ l. x ∙ h.exit l;
        lowered = λ l. f ∙ h.lowered l;
      }

  -- A step of the owner that leaves the threads and the sleepers.
  owner-Counted :
      (s : ThreadPool T) (o : Owner T) (p : Pool T)
      → sleepers p ≡ sleepers s.pool
      → p.locked ≡ s.pool.locked
      → (has_exited o ≡ true → p.is_exit ≡ true)
      → (has_lowered o ≡ true → p.task_que.flag ≡ false)
      → Counted s
      → Counted (record s { owner = o; pool = p })
  owner-Counted s o p a b x f h = record {
    slept = omega (arith, a, h.slept);
    held = omega (arith, ap holds b, h.held);
    exit = x;
    lowered = f;
  }

  add_task_keeps :
      (task : Option T) (p : Pool T)
      → (sleepers (add_task task p).1 ≡ sleepers p)
        × ((add_task task p).1.locked ≡ p.locked)
        × (has_exited (add_task task p).0 ≡ false)
        × (has_lowered (add_task task p).0 ≡ false)
  unfolding add_task push full
  add_task_keeps none p = (refl, refl, refl, refl)
  add_task_keeps (some task) p = (
    ground (arith, notify_one_sum p.task_que.not_empty),
    ground arith,
    ground arith,
    ground arith,
  )

  add_task-Counted :
      (s : ThreadPool T) (task : Option T) (p : Pool T)
      → sleepers p ≡ sleepers s.pool
      → p.locked ≡ s.pool.locked
      → Counted s
      → Counted (record s { owner = (add_task task p).0; pool = (add_task task p).1 })
  add_task-Counted s task p a b h =
      let (a', b', x, f) = add_task_keeps task p in
      owner-Counted s (add_task task p).0 (add_task task p).1 (a' ∙ a) (b' ∙ b) (λ l. ground arith)
        (λ l. ground arith) h

  pub Step-Counted : {s t : ThreadPool T} → Step s t → Counted s → Counted t
  unfolding set_exit lower_flag clear_flag wake_workers wakeup_all notify_all test_empty
  Step-Counted {s} (works before after e m) h = works-Counted s before after e m h
  Step-Counted {s} (starts n e) h =
      unfold start_thread total in
      record {
        slept = omega (arith, h.slept, total-append asleep s.threads (tests_exit ∷ []));
        held = omega (arith, h.held, total-append before_wait s.threads (tests_exit ∷ []));
        exit = λ l. ground arith;
        lowered = λ l. ground arith;
      }
  Step-Counted {s} (is_started e) h =
      owner-Counted s serving s.pool refl refl (λ l. ground arith) (λ l. ground arith) h
  Step-Counted {s} (adds task e free) h = add_task-Counted s task s.pool refl refl h
  Step-Counted {s} (adds_again task n e free e') h =
      add_task-Counted s (some task) (resume_owner n s.pool) refl refl h
  Step-Counted {s} (stops e) h =
      owner-Counted s draining s.pool refl refl (λ l. ground arith) (λ l. ground arith) h
  Step-Counted {s} (drains e) h =
      owner-Counted s (test_empty s.pool) s.pool refl refl (λ l. ground arith) (λ l. ground arith) h
  Step-Counted {s} (exits e) h =
      owner-Counted s clearing _ refl refl (λ l. refl) (λ l. ground arith) h
  Step-Counted {s} (clears e) h =
      owner-Counted s waking _ refl refl (λ l. h.exit (ap has_exited e)) (λ l. refl) h
  Step-Counted {s} (wakes e) h =
      owner-Counted s joining _ (omega arith) refl (λ l. h.exit (ap has_exited e))
        (λ l. h.lowered (ap has_lowered e)) h
  Step-Counted {s} (joins e all) h =
      owner-Counted s stopped s.pool refl refl (λ l. h.exit (ap has_exited e))
        (λ l. h.lowered (ap has_lowered e)) h

  pub Reach-Counted : {s t : ThreadPool T} → Counted s → Reach s t → Counted t
  Reach-Counted h here = h
  Reach-Counted h (next r step) = Step-Counted step (Reach-Counted h r)
  Reach-Counted h (rouses_worker {t} r) =
      let h' : Counted t = Reach-Counted h r in
      owner-Counted t t.owner _ (notify_one_sum t.pool.task_que.not_empty) refl h'.exit h'.lowered
        h'
  Reach-Counted h (rouses_owner {t} r) =
      let h' : Counted t = Reach-Counted h r in
      owner-Counted t t.owner _ refl refl h'.exit h'.lowered h'

  pub create_pool-Counted : (threads size : ℕ) → Counted (create_pool {T = T} threads size)
  unfolding create_pool create total
  create_pool-Counted threads size = record {
    slept = refl;
    held = refl;
    exit = λ l. ground arith;
    lowered = λ l. ground arith;
  }
