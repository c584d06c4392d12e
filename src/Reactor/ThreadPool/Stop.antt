-- ===== src/Reactor/ThreadPool/Stop.antt =====
-- When `stop` returns, every task that was added has been run, once.
use echoserver.Prelude.{
  ℕ, ◌+◌, ◌≡◌, refl, sym, ap, ◌∙◌, inl, inr, Bool, true, false, Bool-cases, Option, none, some,
  List, [], ◌∷◌, ◌++◌, append-nil, append_assoc, arith,
}
use echoserver.Reactor.TaskQueue.{TaskQueue, create, empty, full, push, clear_flag, wakeup_all}
use echoserver.Reactor.ThreadPool.{
  Worker, tests_exit, ended, Owner, serving, adding, draining, exiting, clearing, waking, joining,
  stopped, Pool, ThreadPool, create_pool, start_thread, add_task, test_empty, set_exit, lower_flag,
  wake_workers,
}
use echoserver.Reactor.ThreadPool.Steps.{
  Move, Step, works, starts, is_started, adds, adds_again, stops, drains, exits, clears, wakes,
  joins, resume_owner, Reach, here, next, rouses_worker, rouses_owner,
}
use echoserver.Reactor.ThreadPool.Counting.{
  total, total-append, total_moves, count, running, busy, none_running, all_ended-total,
}
use echoserver.Reactor.Bag.{to_bag, same_bag}
use echoserver.Reactor.ThreadPool.Moves.{
  InOrder, Move-InOrder, Move_conserves, Move_empties, Move_busy,
}

module _ {T : Type 0} where
  -- `stop` has seen that the queue is empty.
  abbrev pub leaving : Owner T → Bool
  leaving exiting = true
  leaving clearing = true
  leaving waking = true
  leaving joining = true
  leaving stopped = true
  leaving _ = false

  pub record Sound (s : ThreadPool T) : Type 0 where
    pub order : InOrder s.pool
    pub conserved :
        (test : T → Bool)
        → count test s.pool.finished + total (running test) s.threads ≡ count test s.pool.taken
    pub emptied : leaving s.owner ≡ true → s.pool.task_que.que ≡ []
    pub joined : s.owner ≡ stopped → total busy s.threads ≡ 0

  works-Sound :
      (s : ThreadPool T) (before after : List (Worker T)) {w v : Worker T} {p : Pool T}
      → s.threads ≡ before ++ (w ∷ after)
      → Move s.pool w v p
      → Sound s
      → Sound (record s { pool = p; threads = before ++ (v ∷ after) })
  works-Sound s before after {w} {v} {p} e m h = record {
    order = Move-InOrder m h.order;
    conserved = λ test. omega (
      arith,
      h.conserved test,
      Move_conserves test m,
      ap (total (running test)) e,
      total_moves (running test) before after w v,
    );
    emptied = λ l. Move_empties m (h.emptied l);
    joined = λ l. absurd (
        omega (
          arith,
          h.joined l,
          ap (total busy) e,
          Move_busy m,
          total_moves busy before after w ended,
        ));
  }

  -- A step of the owner that changes neither the threads nor what has happened to a task.
  owner-Sound :
      (s : ThreadPool T) (o : Owner T) (q : TaskQueue T) (flag : Bool)
      → q.que ≡ s.pool.task_que.que
      → (leaving o ≡ true → s.pool.task_que.que ≡ [])
      → (o ≡ stopped → total busy s.threads ≡ 0)
      → Sound s
      → Sound (record s { owner = o; pool = record (s.pool) { task_que = q; is_exit = flag } })
  owner-Sound s o q flag e empties ends h = record {
    order = ap (◌++◌ s.pool.taken) e ∙ h.order;
    conserved = h.conserved;
    emptied = λ l. e ∙ empties l;
    joined = ends;
  }

  add_task-Sound :
      (s : ThreadPool T) (task : Option T) (q : TaskQueue T)
      → q.que ≡ s.pool.task_que.que
      → Sound s
      → Sound (record s {
        owner = (add_task task (record (s.pool) { task_que = q })).0;
        pool = (add_task task (record (s.pool) { task_que = q })).1;
      })
  unfolding add_task push
  add_task-Sound s none q e h =
      owner-Sound s serving q s.pool.is_exit e (λ l. ground arith) (λ l. ground arith) h
  add_task-Sound s (some task) q e h = elim (Bool-cases (full q)) [
    | inl is_full ↦
        rw is_full
          (owner-Sound s (adding task) _ s.pool.is_exit e (λ l. ground arith) (λ l. ground arith) h)
    | inr has_room ↦ rw has_room (record {
      order =
          sym (append_assoc s.pool.taken q.que _)
          ∙ ap (λ xs. (s.pool.taken ++ xs) ++ (task ∷ [])) e
          ∙ ap (λ xs. xs ++ (task ∷ [])) h.order;
      conserved = h.conserved;
      emptied = λ l. ground arith;
      joined = λ l. ground arith;
    })
  ]

  empty-que : (q : TaskQueue T) → empty q ≡ true → q.que ≡ []
  unfolding empty
  empty-que q h = ground arith

  Step-Sound : {s t : ThreadPool T} → Step s t → Sound s → Sound t
  Step-Sound {s} (works before after e m) h = works-Sound s before after e m h
  Step-Sound {s} (starts n e) h =
      unfold start_thread total in
      record {
        order = h.order;
        conserved = λ test.
            omega
              (arith, h.conserved test, total-append (running test) s.threads (tests_exit ∷ []));
        emptied = λ l. ground arith;
        joined = λ l. ground arith;
      }
  Step-Sound {s} (is_started e) h =
      owner-Sound s serving s.pool.task_que s.pool.is_exit refl (λ l. ground arith)
        (λ l. ground arith) h
  Step-Sound {s} (adds task e free) h = add_task-Sound s task s.pool.task_que refl h
  Step-Sound {s} (adds_again task n e free e') h =
      add_task-Sound s (some task) (resume_owner n s.pool).task_que refl h
  Step-Sound {s} (stops e) h =
      owner-Sound s draining s.pool.task_que s.pool.is_exit refl (λ l. ground arith)
        (λ l. ground arith) h
  Step-Sound {s} (drains e) h =
      unfold test_empty in
      owner-Sound s (test_empty s.pool) s.pool.task_que s.pool.is_exit refl
        (λ l. empty-que s.pool.task_que (ground arith)) (λ l. ground arith) h
  Step-Sound {s} (exits e) h =
      unfold set_exit in
      owner-Sound s clearing s.pool.task_que true refl (λ l. h.emptied (ap leaving e))
        (λ l. ground arith) h
  Step-Sound {s} (clears e) h =
      unfold lower_flag clear_flag in
      owner-Sound s waking _ s.pool.is_exit refl (λ l. h.emptied (ap leaving e)) (λ l. ground arith)
        h
  Step-Sound {s} (wakes e) h =
      unfold wake_workers wakeup_all in
      owner-Sound s joining _ s.pool.is_exit refl (λ l. h.emptied (ap leaving e))
        (λ l. ground arith) h
  Step-Sound {s} (joins e all) h =
      owner-Sound s stopped s.pool.task_que s.pool.is_exit refl (λ l. h.emptied (ap leaving e))
        (λ l. all_ended-total s.threads all) h

  rouse-Sound :
      (s : ThreadPool T) (q : TaskQueue T)
      → q.que ≡ s.pool.task_que.que
      → Sound s
      → Sound (record s { pool = record (s.pool) { task_que = q } })
  rouse-Sound s q e h = owner-Sound s s.owner q s.pool.is_exit e h.emptied h.joined h

  Reach-Sound : {s t : ThreadPool T} → Sound s → Reach s t → Sound t
  Reach-Sound h here = h
  Reach-Sound h (next r step) = Step-Sound step (Reach-Sound h r)
  Reach-Sound h (rouses_worker {t} r) = rouse-Sound t _ refl (Reach-Sound h r)
  Reach-Sound h (rouses_owner {t} r) = rouse-Sound t _ refl (Reach-Sound h r)

  create_pool-Sound : (threads size : ℕ) → Sound (create_pool {T = T} threads size)
  unfolding create_pool create total
  create_pool-Sound threads size = record {
    order = refl;
    conserved = λ test. refl;
    emptied = λ l. refl;
    joined = λ l. refl;
  }

-- A pool is used by the one thread that starts it, adds tasks and stops it. In every order in which
-- the threads run: tasks are taken in the order in which they were added, and when `stop` returns,
-- the queue is empty and every task that was added has been run, exactly as often as it was added, in whatever
-- order.
pub stop_runs_all :
    {T : Type 0} (threads size : ℕ) (s : ThreadPool T)
    → Reach (create_pool threads size) s
    → s.owner ≡ stopped
    → (s.pool.task_que.que ≡ [])
      × (s.pool.taken ≡ s.pool.added)
      × (to_bag s.pool.finished ≡ to_bag s.pool.added)
stop_runs_all threads size s r e =
    let h : Sound s = Reach-Sound (create_pool-Sound threads size) r in
    let empty_now : s.pool.task_que.que ≡ [] = h.emptied (ap leaving e) in
    let all_taken : s.pool.taken ≡ s.pool.added =
      sym (append-nil s.pool.taken) ∙ sym (ap (◌++◌ s.pool.taken) empty_now) ∙ h.order in
    (
      empty_now,
      all_taken,
      same_bag (λ test. omega (
        arith,
        h.conserved test,
        none_running test s.threads (h.joined e),
        ap (count test) all_taken,
      )),
    )
