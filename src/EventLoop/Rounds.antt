-- ===== src/EventLoop/Rounds.antt =====
-- `EventLoop::run`: when a `stop` is lost.
use echoserver.Prelude.{
  Bool-cases, inl, inr, ℕ, ◌≡◌, refl, ap, ◌∙◌, true, false, ltb, Option, none, some, List, [], ◌∷◌,
  arith, length,
}
use echoserver.Prelude.Syscall.{Syscall, done, failed}
use echoserver.EventLoop.{
  EventLoop, Host, lookup, stop, begin_run, dispatch_events, grow, handle_events, do_pending_tasks,
  run_tasks, run_pending, rounds, run,
}

-- The states that have the loop: putting it and reading it there agree.
pub record IsHost {S T : Type 0} (host : Host S T) : Type 1 where
  pub Inside : S → Type 0
  pub put-Inside : (l : EventLoop T) (s : S) → Inside s → Inside (host.put l s)
  pub loop-put : (l : EventLoop T) (s : S) → Inside s → host.loop (host.put l s) ≡ l

-- No handler and no task stops the loop, or takes it away.
pub record NeverStops {S T : Type 0} (host : Host S T) (laws : IsHost host) : Type 1 where
  pub call-Inside :
      (handler events : ℕ) (s : S) → laws.Inside s → laws.Inside (host.call handler events s)
  pub task-Inside : (task : T) (s : S) → laws.Inside s → laws.Inside (host.execute task s)
  pub by_call :
      (handler events : ℕ) (s : S)
      → (host.loop s).quit ≡ false
      → (host.loop (host.call handler events s)).quit ≡ false
  pub by_task :
      (task : T) (s : S)
      → (host.loop s).quit ≡ false
      → (host.loop (host.execute task s)).quit ≡ false

module _ {S T : Type 0} (host : Host S T) (laws : IsHost host) (never : NeverStops host laws) where
  -- The loop is there and has not been told to stop.
  abbrev Running : S → Type 0
  Running s = laws.Inside s × ((host.loop s).quit ≡ false)

  put-Running : (l : EventLoop T) (s : S) → l.quit ≡ false → laws.Inside s → Running (host.put l s)
  put-Running l s h inside =
      (laws.put-Inside l s inside, ap (λ (l : EventLoop T). l.quit) (laws.loop-put l s inside) ∙ h)

  call-Running :
      (o : Option ℕ) (events : ℕ) (s : S)
      → Running s
      → Running (elim o [ none ↦ s | some handler ↦ host.call handler events s ])
  call-Running none events s h = h
  call-Running (some handler) events s h =
      (never.call-Inside handler events s h.0, never.by_call handler events s h.1)

  dispatch-Running :
      (ready : List (ℕ × ℕ)) (s : S) → Running s → Running (dispatch_events host ready s)
  unfolding dispatch_events
  dispatch-Running [] s h = h
  dispatch-Running ((fd, events) ∷ ready) s h =
      dispatch-Running ready _ (call-Running (lookup fd (host.loop s).handlers) events s h)

  tasks-Running : (tasks : List T) (s : S) → Running s → Running (run_tasks host tasks s)
  unfolding run_tasks
  tasks-Running [] s h = h
  tasks-Running (task ∷ tasks) s h =
      tasks-Running tasks _ (never.task-Inside task s h.0, never.by_task task s h.1)

  grow_quit : (n : ℕ) (l : EventLoop T) → (grow host n l).quit ≡ l.quit
  unfolding grow
  grow_quit n l = ground arith

  events-Running :
      (ready : Syscall (List (ℕ × ℕ))) (s : S) → Running s → Running (handle_events host ready s)
  unfolding handle_events
  events-Running (failed e) s h = h
  events-Running (done ready) s h =
      let s' : S = dispatch_events host ready s in
      let k : Running s' = dispatch-Running ready s h in
      elim (Bool-cases (ltb 0 (length ready))) [
        | inl more ↦
            rw (more, handle_events)
              (put-Running (grow host (length ready) (host.loop s')) s'
                (grow_quit (length ready) (host.loop s') ∙ k.1) k.0)
        | inr idle ↦ rw (idle, handle_events) k
      ]

  pending-Running : (s : S) → Running s → Running (run_pending host s)
  unfolding run_pending do_pending_tasks
  pending-Running s h =
      let taken : List T × EventLoop T = do_pending_tasks (host.loop s) in
      tasks-Running taken.0 (host.put taken.1 s) (put-Running taken.1 s h.1 h.0)

  rounds_go_on :
      (answers : List (Syscall (List (ℕ × ℕ)))) (s : S)
      → Running s
      → (rounds host answers s).1 ≡ true
  unfolding rounds
  rounds_go_on [] s h = rw h.1 refl
  rounds_go_on (ready ∷ later) s h = rw h.1 (
      rounds_go_on later _
        (pending-Running (handle_events host ready s) (events-Running ready s h)))

  -- Where no handler and no task stops the loop, a `stop` that comes before `run` is lost: `run`
  -- clears the flag, and the loop is still running after any number of rounds.
  pub stop_before_run :
      (thread stopper : ℕ) (answers : List (Syscall (List (ℕ × ℕ)))) (s : S)
      → laws.Inside s
      → (run host thread answers (host.put (stop stopper (host.loop s)) s)).1 ≡ true
  unfolding run begin_run
  stop_before_run thread stopper answers s inside =
      let stopped : S = host.put (stop stopper (host.loop s)) s in
      rounds_go_on answers (host.put (begin_run thread (host.loop stopped)) stopped) (
        put-Running (begin_run thread (host.loop stopped)) stopped refl
          (laws.put-Inside (stop stopper (host.loop s)) s inside))
