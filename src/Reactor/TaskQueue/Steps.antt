-- ===== src/Reactor/TaskQueue/Steps.antt =====
-- The threads that share a `TaskQueue`, as the order in which they get the mutex.
use echoserver.Prelude.{ℕ, suc, ◌≡◌, List, [], ◌∷◌, ◌++◌, if◌then◌else◌}
use echoserver.Reactor.TaskQueue.{
  TaskQueue, create, full, push, Popped, waits, takes, gives_up, pop, clear_flag, wakeup_all,
  notify_one,
}

-- The queue, the tasks that were put into it and those that were taken, in order.
pub record Shared (T : Type 0) : Type 0 where
  pub queue : TaskQueue T
  pub pushed : List T
  pub popped : List T

abbrev pub fresh : {T : Type 0} → ℕ → Shared T
fresh capacity = record { queue = create capacity; pushed = []; popped = [] }

module _ {T : Type 0} where
  abbrev pub after_push : T → Shared T → Shared T
  after_push task s = record s {
    queue = push task s.queue;
    pushed = if full s.queue then s.pushed else s.pushed ++ (task ∷ []);
  }

  abbrev pub taken : Popped T → List T
  taken (takes task) = task ∷ []
  taken waits = []
  taken gives_up = []

  abbrev pub after_pop : Shared T → Shared T
  after_pop s = record s { queue = (pop s.queue).1; popped = s.popped ++ taken (pop s.queue).0 }

  -- A notified thread that has the mutex back.
  abbrev pub resume_pusher : ℕ → Shared T → Shared T
  resume_pusher n s =
      let q = s.queue in
      record s {
        queue = record q { not_full = record { waiting = q.not_full.waiting; notified = n } };
      }

  abbrev pub resume_popper : ℕ → Shared T → Shared T
  resume_popper n s =
      let q = s.queue in
      record s {
        queue = record q { not_empty = record { waiting = q.not_empty.waiting; notified = n } };
      }

  -- A thread may return from `wait` without a notification, as if it had got one.
  pub data Step (s : Shared T) : Shared T → Type 0 where
    pushes : (task : T) → Step s (after_push task s)
    pushes_again :
        (task : T) (n : ℕ)
        → s.queue.not_full.notified ≡ suc n
        → Step s (after_push task (resume_pusher n s))
    pops : Step s (after_pop s)
    pops_again :
        (n : ℕ) → s.queue.not_empty.notified ≡ suc n → Step s (after_pop (resume_popper n s))
    rouses_pusher :
        Step s (record s { queue = record (s.queue) { not_full = notify_one s.queue.not_full } })
    rouses_popper :
        Step s (record s { queue = record (s.queue) { not_empty = notify_one s.queue.not_empty } })
    clears_flag : Step s (record s { queue = clear_flag s.queue })
    wakes_all : Step s (record s { queue = wakeup_all s.queue })

pub data Reach {T : Type 0} (s : Shared T) : Shared T → Type 0 where
  here : Reach s s
  next : {t u : Shared T} → Reach s t → Step t u → Reach s u
