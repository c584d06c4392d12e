-- ===== src/System/Removing.antt =====
-- What the main loop posts and removes, in the life of a connection.
use echoserver.Prelude.{
  ℕ, ◌+◌, ◌≤◌, ◌≡◌, refl, false, List, [], ◌∷◌, arith, inl, inr, Bool-cases, Option-cases,
}
use echoserver.EventLoop.{EventLoop, lookup, is_in_loop_thread, push_task, wakeup}
use echoserver.EchoServer.{EchoServer, remove_connection_in_loop}
use echoserver.System.{
  Job, destroys, System, main_thread, loop_at, put_loop, post, post_to_owner, carry_action,
  carry_actions, remove,
}
use echoserver.System.Posts.{with_job, post_elsewhere, post_here}
use echoserver.System.Births.{
  births, births-append, all_births-modify, holds, put-Frame, put-Absent,
}
use echoserver.System.Phases.{Phase}
use echoserver.System.Living.{move-Phase, Frame-Phase, run_job-Phase}

pub with_job-births :
    (name : ℕ) (job : Job) (l : EventLoop Job)
    → births name (with_job job l).pending_tasks
      ≤ births name (job ∷ []) + births name l.pending_tasks
unfolding push_task wakeup
with_job-births name job l = omega (arith, births-append name l.pending_tasks (job ∷ []))

pub with_job-holds :
    (name : ℕ) (job : Job) (l : EventLoop Job)
    → holds name l.handlers ≡ false
    → holds name (with_job job l).handlers ≡ false
unfolding push_task wakeup
with_job-holds name job l h = h

-- The main thread hands a task over.
pub post-Phase :
    (name i : ℕ) (job : Job) (s : System) → Phase name (job ∷ []) s → Phase name [] (post i job s)
post-Phase name i job s phase = elim (Bool-cases (is_in_loop_thread main_thread (loop_at i s))) [
  | inl own ↦ rw (post_here i job s own) (
      run_job-Phase name i job [] (put_loop i (loop_at i s) s) (
        Frame-Phase (put-Frame name i (λ l. l) s (λ l. refl))
          (put-Absent name i (λ l. l) s (λ l h. h)) phase))
  | inr away ↦ rw (post_elsewhere i job s away) (
      move-Phase name (job ∷ []) [] s (put_loop i (with_job job (loop_at i s)) s) refl
        (omega (
          arith,
          all_births-modify name (births name (job ∷ [])) (with_job job) (with_job-births name job)
              s.loops i,
        ))
        (omega arith) (put-Absent name i (with_job job) s (with_job-holds name job)) phase)
]

-- A task that is not posted is not run either.
pub forgotten-Phase :
    (name : ℕ) (job : Job) (s : System) → Phase name (job ∷ []) s → Phase name [] s
forgotten-Phase name job s phase =
    move-Phase name (job ∷ []) [] s s refl (omega arith) (omega arith) (λ a. a) phase

pub owner-Phase :
    (name other : ℕ) (job : Job) (s : System)
    → Phase name (job ∷ []) s
    → Phase name [] (post_to_owner other job s)
unfolding post_to_owner
owner-Phase name other job s phase = elim (Option-cases (lookup other s.peers)) [
  | inl absent ↦ rw (absent, post_to_owner) (forgotten-Phase name job s phase)
  | inr (p, found) ↦ rw (found, post_to_owner) (post-Phase name p.io_loop job s phase)
]

pub destroys-Phase :
    (name other : ℕ) (s : System) → Phase name [] s → Phase name (destroys other ∷ []) s
destroys-Phase name other s phase =
    move-Phase name [] (destroys other ∷ []) s s refl (omega arith) (omega arith) (λ a. a) phase

-- The server's own fields are of no concern, but for the next name.
pub server-Phase :
    (name : ℕ) (server : EchoServer) (s : System)
    → s.server.next_conn_id ≤ server.next_conn_id
    → Phase name [] s
    → Phase name [] (record s { server = server })
server-Phase name server s ids phase =
    move-Phase name [] [] s (record s { server = server }) refl (omega arith) ids (λ a. a) phase

pub remove-Phase : (name other : ℕ) (s : System) → Phase name [] s → Phase name [] (remove other s)
unfolding remove remove_connection_in_loop carry_actions carry_action
remove-Phase name other s phase =
    owner-Phase name other (destroys other) _
      (destroys-Phase name other _ (server-Phase name _ s (omega arith) phase))

-- The next task of the main loop.
pub removes-Phase :
    (name other : ℕ) (names : List ℕ) (s : System)
    → Phase name [] s
    → Phase name [] (remove other (record s { removals = names }))
removes-Phase name other names s phase = remove-Phase name other _ (
    move-Phase name [] [] s (record s { removals = names }) refl (omega arith) (omega arith)
      (λ a. a) phase)
