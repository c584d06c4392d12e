-- ===== src/Reactor/ThreadPool/Moves.antt =====
-- What one step of a worker does to the tasks.
use echoserver.Prelude.{◌+◌, ◌≡◌, refl, ap, ◌∙◌, Bool, true, [], ◌∷◌, ◌++◌, append_assoc, arith}
use echoserver.Reactor.TaskQueue.{TaskQueue, pop, Popped, waits, takes, gives_up}
use echoserver.Reactor.ThreadPool.{
  Worker, Pool, test_exit, after_pop, get_task, wait_for_task, run_task,
}
use echoserver.Reactor.TaskQueue.Steps.{taken}
use echoserver.Reactor.TaskQueue.Signals.{pop_splits}
use echoserver.Reactor.ThreadPool.Steps.{
  Move, looks, pops, waits_now, pops_again, ends_task, resume_worker,
}
use echoserver.Reactor.ThreadPool.Counting.{total, total-append, holds, count, running, busy}

module _ {T : Type 0} where
  -- Tasks are taken in the order in which they were added, and what was taken is running or has
  -- been run.
  abbrev pub InOrder : Pool T → Type 0
  InOrder p = p.taken ++ p.task_que.que ≡ p.added

  get_task-InOrder : (p : Pool T) → InOrder p → InOrder (get_task p).1
  unfolding get_task after_pop
  get_task-InOrder p h = popped (pop p.task_que).0 (pop p.task_que).1 (pop_splits p.task_que)
    where
      popped :
          (r : Popped T) (q : TaskQueue T)
          → taken r ++ q.que ≡ p.task_que.que
          → InOrder (after_pop r q p).1
      popped waits q e = h
      popped (takes task) q e = append_assoc p.taken _ q.que ∙ ap (◌++◌ p.taken) e ∙ h
      popped gives_up q e = ap (◌++◌ p.taken) e ∙ h

  -- Taking a task moves it from the queue to the thread.
  get_task_lem :
      (test : T → Bool) (p : Pool T)
      → ((get_task p).1.finished ≡ p.finished)
        × (count test (get_task p).1.taken ≡ count test p.taken + running test (get_task p).0)
        × (p.task_que.que ≡ [] → (get_task p).1.task_que.que ≡ [])
  unfolding get_task after_pop total
  get_task_lem test p = popped (pop p.task_que).0 (pop p.task_que).1 (pop_splits p.task_que)
    where
      popped :
          (r : Popped T) (q : TaskQueue T)
          → taken r ++ q.que ≡ p.task_que.que
          → ((after_pop r q p).1.finished ≡ p.finished)
            × (count test (after_pop r q p).1.taken
                ≡ count test p.taken + running test (after_pop r q p).0)
            × (p.task_que.que ≡ [] → (after_pop r q p).1.task_que.que ≡ [])
      popped waits q e = (refl, omega arith, λ h. h)
      popped (takes task) q e = (
        refl,
        omega (arith, total-append (λ x. holds (test x)) p.taken (task ∷ [])),
        λ h. ground (arith, e, h),
      )
      popped gives_up q e = (refl, omega arith, λ h. e ∙ h)

  pub Move-InOrder : {p p' : Pool T} {w v : Worker T} → Move p w v p' → InOrder p → InOrder p'
  Move-InOrder looks h = h
  Move-InOrder {p} (pops free) h = get_task-InOrder p h
  Move-InOrder {p} waits_now h = unfold wait_for_task in h
  Move-InOrder {p} (pops_again n free e) h = get_task-InOrder (resume_worker n p) h
  Move-InOrder (ends_task task) h = unfold run_task in h

  pub Move_conserves :
      {p p' : Pool T} {w v : Worker T}
      → (test : T → Bool) → Move p w v p'
      → count test p'.finished + running test v + count test p.taken
        ≡ count test p.finished + running test w + count test p'.taken
  Move_conserves {p} test looks = unfold test_exit in ground arith
  Move_conserves {p} test (pops free) =
      omega (arith, (get_task_lem test p).1, ap (count test) (get_task_lem test p).0)
  Move_conserves {p} test waits_now = unfold wait_for_task in omega arith
  Move_conserves {p} test (pops_again n free e) = omega (
    arith,
    (get_task_lem test (resume_worker n p)).1,
    ap (count test) (get_task_lem test (resume_worker n p)).0,
  )
  Move_conserves {p} test (ends_task task) =
      unfold run_task total in
      omega (arith, total-append (λ x. holds (test x)) p.finished (task ∷ []))

  pub Move_empties :
      {p p' : Pool T} {w v : Worker T} → Move p w v p' → p.task_que.que ≡ [] → p'.task_que.que ≡ []
  Move_empties looks h = h
  Move_empties {p} (pops free) h = (get_task_lem (λ x. true) p).2 h
  Move_empties waits_now h = unfold wait_for_task in h
  Move_empties {p} (pops_again n free e) h = (get_task_lem (λ x. true) (resume_worker n p)).2 h
  Move_empties (ends_task task) h = unfold run_task in h

  pub Move_busy : {p p' : Pool T} {w v : Worker T} → Move p w v p' → busy w ≡ 1
  Move_busy looks = refl
  Move_busy (pops free) = refl
  Move_busy waits_now = refl
  Move_busy (pops_again n free e) = refl
  Move_busy (ends_task task) = refl
