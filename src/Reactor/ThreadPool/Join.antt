-- ===== src/Reactor/ThreadPool/Join.antt =====
-- `stop` returns, where no thread waits when it has notified all.
use echoserver.Prelude.{
  ℕ, ◌+◌, ◌*◌, ◌≤◌, ◌≡◌, refl, sym, ap, ◌∙◌, true, false, Bool-cases, ◌⊎◌, inl, inr, List, [], ◌∷◌,
  ◌++◌, append_assoc, ◌-◌, arith, length,
}
use echoserver.Reactor.TaskQueue.{empty, pop}
use echoserver.Reactor.ThreadPool.{
  Worker, tests_exit, gets_task, is_waiting, sleeps, runs, ended, Owner, joining, stopped, Pool,
  ThreadPool, create_pool, test_exit, after_pop, get_task, run_task, all_ended,
}
use echoserver.Reactor.ThreadPool.Steps.{
  Move, looks, pops, waits_now, pops_again, ends_task, Step, works, starts, is_started, adds,
  adds_again, stops, drains, exits, clears, wakes, joins, resume_worker, Reach, Calm, stay, goes,
}
use echoserver.Reactor.ThreadPool.Counting.{
  total, total-append, total_moves, total_first, total_bounded, holds, asleep, before_wait,
}
use echoserver.Reactor.ThreadPool.Waiting.{
  has_exited, has_lowered, Counted, Move_counts, Step-Counted, Reach-Counted, create_pool-Counted,
}

module _ {T : Type 0} where
  -- The most steps that a thread still takes, once `stop` has set everything.
  abbrev steps_left : Worker T → ℕ
  steps_left tests_exit = 1
  steps_left gets_task = 2
  steps_left sleeps = 2
  steps_left (runs task) = 2
  steps_left is_waiting = 0
  steps_left ended = 0

  abbrev owner_left : Owner T → ℕ
  owner_left joining = 1
  owner_left _ = 0

  abbrev left : ThreadPool T → ℕ
  left s = total steps_left s.threads + owner_left s.owner

  record Settled (s : ThreadPool T) : Type 0 where
    counted : Counted s
    at_end : (s.owner ≡ joining) ⊎ (s.owner ≡ stopped)
    free : s.pool.locked ≡ false
    exit : s.pool.is_exit ≡ true
    lowered : s.pool.task_que.flag ≡ false
    none_waits : s.pool.task_que.not_empty.waiting ≡ 0

  gives_up_lem :
      (p : Pool T)
      → p.task_que.flag ≡ false
      → ((get_task p).0 ≡ tests_exit)
        × ((get_task p).1.task_que ≡ p.task_que)
        × ((get_task p).1.locked ≡ p.locked)
  unfolding get_task after_pop pop empty
  gives_up_lem p h = (ground arith, ground arith, ground arith)

  get_task_settles :
      (p : Pool T)
      → p.locked ≡ false
      → p.task_que.flag ≡ false
      → p.task_que.not_empty.waiting ≡ 0
      → ((get_task p).1.task_que.not_empty.waiting ≡ 0)
        × ((get_task p).1.locked ≡ false)
        × (steps_left (get_task p).0 + 1 ≤ 2)
  get_task_settles p free f e =
      let (t, q, l) = gives_up_lem p f in
      (ap (λ q. q.not_empty.waiting) q ∙ e, l ∙ free, omega (arith, ap steps_left t))

  Move_settles :
      (s : ThreadPool T) {w v : Worker T} {p : Pool T}
      → Move s.pool w v p
      → before_wait w ≡ 0
      → Settled s
      → (p.task_que.not_empty.waiting ≡ 0) × (p.locked ≡ false) × (steps_left v + 1 ≤ steps_left w)
  unfolding test_exit run_task
  Move_settles s looks b h = (h.none_waits, h.free, ground (arith, h.exit))
  Move_settles s (pops free) b h = get_task_settles s.pool free h.lowered h.none_waits
  Move_settles s waits_now b h = absurd (omega (arith, b))
  Move_settles s (pops_again n free e) b h =
      get_task_settles (resume_worker n s.pool) free h.lowered h.none_waits
  Move_settles s (ends_task task) b h = (h.none_waits, h.free, omega arith)

  Settled-between :
      (s : ThreadPool T) (before after : List (Worker T)) (w : Worker T)
      → s.threads ≡ before ++ (w ∷ after)
      → Settled s
      → before_wait w ≡ 0
  Settled-between s before after w e h = omega (
    arith,
    h.counted.held,
    ap holds h.free,
    ap (total before_wait) e,
    total-append before_wait before (w ∷ after),
    total_first before_wait w after,
  )

  Step-Settled : {s t : ThreadPool T} → Step s t → Settled s → Settled t × (left t + 1 ≤ left s)
  Step-Settled {s} (works before after {w} {v} {p} e m) h =
      let b : before_wait w ≡ 0 = Settled-between s before after w e h in
      let (still, free, less) = Move_settles s m b h in
      let (a, b', x, f) = Move_counts m (omega (arith, b)) in
      (
        record {
          counted = Step-Counted (works before after e m) h.counted;
          at_end = h.at_end;
          free = free;
          exit = x ∙ h.exit;
          lowered = f ∙ h.lowered;
          none_waits = still;
        },
        omega (arith, less, ap (total steps_left) e, total_moves steps_left before after w v),
      )
  Step-Settled {s} (joins e all) h = (
    record {
      counted = Step-Counted (joins e all) h.counted;
      at_end = inr refl;
      free = h.free;
      exit = h.exit;
      lowered = h.lowered;
      none_waits = h.none_waits;
    },
    omega (arith, ap owner_left e),
  )
  Step-Settled (starts n e) h = absurd (ground (arith, h.at_end))
  Step-Settled (is_started e) h = absurd (ground (arith, h.at_end))
  Step-Settled (adds task e free) h = absurd (ground (arith, h.at_end))
  Step-Settled (adds_again task n e free e') h = absurd (ground (arith, h.at_end))
  Step-Settled (stops e) h = absurd (ground (arith, h.at_end))
  Step-Settled (drains e) h = absurd (ground (arith, h.at_end))
  Step-Settled (exits e) h = absurd (ground (arith, h.at_end))
  Step-Settled (clears e) h = absurd (ground (arith, h.at_end))
  Step-Settled (wakes e) h = absurd (ground (arith, h.at_end))

  Calm-Settled :
      {s : ThreadPool T} {n : ℕ} {t : ThreadPool T}
      → Settled s
      → Calm s n t
      → Settled t × (left t + n ≤ left s)
  Calm-Settled h stay = (h, omega arith)
  Calm-Settled h (goes c step) =
      let (h', less) = Calm-Settled h c in
      let (h'', less') = Step-Settled step h' in (h'', omega (arith, less, less'))

  abbrev pub CanStep : ThreadPool T → Type 0
  CanStep s = (t : ThreadPool T) × Step s t

  -- The thread that a test of all threads stops at can take a step.
  thread_goes_on :
      (s : ThreadPool T) (before after : List (Worker T))
      → Settled s
      → s.threads ≡ before ++ after
      → all_ended after ≡ false
      → CanStep s
  unfolding all_ended
  thread_goes_on s before [] h e a = absurd (ground (arith, a))
  thread_goes_on s before (ended ∷ after) h e a =
      thread_goes_on s (before ++ (ended ∷ [])) after h
        (e ∙ sym (append_assoc before (ended ∷ []) after)) a
  thread_goes_on s before (tests_exit ∷ after) h e a = (_, works before after e looks)
  thread_goes_on s before (gets_task ∷ after) h e a = (_, works before after e (pops h.free))
  thread_goes_on s before (is_waiting ∷ after) h e a = (_, works before after e waits_now)
  thread_goes_on s before (runs task ∷ after) h e a = (_, works before after e (ends_task task))
  thread_goes_on s before (sleeps ∷ after) h e a = (
    _,
    works before after e (
        pops_again (s.pool.task_que.not_empty.notified - 1) h.free (
          omega (
            arith,
            h.counted.slept,
            h.none_waits,
            ap (total asleep) e,
            total-append asleep before (sleeps ∷ after),
            total_first asleep sleeps after,
          ))),
  )

  Settled-goes_on : (s : ThreadPool T) → Settled s → (s.owner ≡ stopped) ⊎ CanStep s
  Settled-goes_on s h = elim h.at_end [
    | inr e ↦ inl e
    | inl e ↦ elim (Bool-cases (all_ended s.threads)) [
      | inl all ↦ inr (_, joins e all)
      | inr busy_one ↦ inr (thread_goes_on s [] s.threads h refl busy_one)
    ]
  ]

  steps_left_small : (w : Worker T) → steps_left w ≤ 2
  steps_left_small tests_exit = omega arith
  steps_left_small gets_task = omega arith
  steps_left_small is_waiting = omega arith
  steps_left_small sleeps = omega arith
  steps_left_small (runs task) = omega arith
  steps_left_small ended = omega arith

-- Where `stop` has come to `join` and no thread waits that is not notified, nor holds the mutex:
-- however the threads run on, they take at most two steps each and the owner one, and as long as
-- `stop` has not returned, a step is possible. So `stop` returns.
pub stop_returns :
    {T : Type 0} (threads size n : ℕ) (s t : ThreadPool T)
    → Reach (create_pool threads size) s
    → s.owner ≡ joining
    → s.pool.locked ≡ false
    → s.pool.task_que.not_empty.waiting ≡ 0
    → Calm s n t
    → (n ≤ 2 * length s.threads + 1) × ((t.owner ≡ stopped) ⊎ CanStep t)
stop_returns threads size n s t r e free idle c =
    let counted : Counted s = Reach-Counted (create_pool-Counted threads size) r in
    let settled : Settled s = record {
      counted = counted;
      at_end = inl e;
      free = free;
      exit = counted.exit (ap has_exited e);
      lowered = counted.lowered (ap has_lowered e);
      none_waits = idle;
    } in
    let (h, less) = Calm-Settled settled c in
    (
      omega (arith, less, total_bounded steps_left 2 steps_left_small s.threads, ap owner_left e),
      Settled-goes_on t h,
    )
