-- ===== src/System/Posts.antt =====
-- What `runInLoop` of the main thread does to a worker's loop.
use echoserver.Prelude.{ℕ, ◌≡◌, ap, true, false, Option, none, some, arith}
use echoserver.EventLoop.{EventLoop, is_in_loop_thread, run_in_loop, push_task, wakeup}
use echoserver.System.{Job, System, main_thread, loop_at, put_loop, run_job, post}

-- A task that is pushed from the main thread.
abbrev pub with_job : Job → EventLoop Job → EventLoop Job
with_job job l = wakeup (push_task job l)

run_elsewhere :
    (job : Job) (l : EventLoop Job)
    → is_in_loop_thread main_thread l ≡ false
    → run_in_loop main_thread job l ≡ (none, with_job job l)
unfolding run_in_loop
run_elsewhere job l away = ground arith

pub post_elsewhere :
    (i : ℕ) (job : Job) (s : System)
    → is_in_loop_thread main_thread (loop_at i s) ≡ false
    → post i job s ≡ put_loop i (with_job job (loop_at i s)) s
unfolding post
post_elsewhere i job s away =
    ap
      (λ (r : Option Job × EventLoop Job). elim r.0 as (λ o. System) [
        | none ↦ put_loop i r.1 s
        | some ran ↦ run_job i ran (put_loop i r.1 s)
      ])
      (run_elsewhere job (loop_at i s) away)

run_here :
    (job : Job) (l : EventLoop Job)
    → is_in_loop_thread main_thread l ≡ true
    → run_in_loop main_thread job l ≡ (some job, l)
unfolding run_in_loop
run_here job l own = ground arith

pub post_here :
    (i : ℕ) (job : Job) (s : System)
    → is_in_loop_thread main_thread (loop_at i s) ≡ true
    → post i job s ≡ run_job i job (put_loop i (loop_at i s) s)
unfolding post
post_here i job s own =
    ap
      (λ (r : Option Job × EventLoop Job). elim r.0 as (λ o. System) [
        | none ↦ put_loop i r.1 s
        | some ran ↦ run_job i ran (put_loop i r.1 s)
      ])
      (run_here job (loop_at i s) own)
