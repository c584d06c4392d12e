-- ===== src/EventLoop.antt =====
-- include/event_loop.h and src/event_loop.cpp, the class `EventLoop`: the handlers by descriptor,
-- the tasks that other threads post, and the rounds of the loop.
-- Tasks are of any type `T`, and a handler is known by a number. Threads are numbers. What
-- `epoll_ctl` and `epoll_wait` return is an argument, and `signals` counts the writes to the
-- eventfd that have not been read. Log lines are left out.
pub mod Handlers
pub mod Rounds
pub mod Wakeup
mod Tests
use echoserver.Prelude.{
  ℕ, zero, suc, ◌+◌, ◌*◌, Bool, true, false, not, Option, none, some, List, [], ◌∷◌, ◌++◌, ◌==◌,
  ltb, if◌then◌else◌, length,
}
use echoserver.Prelude.Syscall.{Syscall, done, failed}

abbrev pub max_events : ℕ
max_events = 1024

-- `unordered_map<int, …>`: the first entry of a key counts.
abbrev pub lookup {ℓ} : {V : Type ℓ} → ℕ → List (ℕ × V) → Option V
lookup fd [] = none
lookup fd ((key, v) ∷ rest) = if key == fd then some v else lookup fd rest

abbrev pub erase {ℓ} : {V : Type ℓ} → ℕ → List (ℕ × V) → List (ℕ × V)
erase k [] = []
erase k ((j, v) ∷ m) = if j == k then erase k m else (j, v) ∷ erase k m

abbrev pub assign {ℓ} : {V : Type ℓ} → ℕ → V → List (ℕ × V) → List (ℕ × V)
assign k v m = (k, v) ∷ erase k m

pub record EventLoop (T : Type 0) : Type 0 where
  pub running : Bool
  pub quit : Bool
  pub handlers : List (ℕ × ℕ)
  pub active_events : ℕ
  pub pending_tasks : List T
  pub loop_thread_id : ℕ
  pub signals : ℕ

module _ {T : Type 0} where
  -- The constructor registers the handler of the eventfd, if `epoll_ctl` takes it.
  unfoldable pub create : ℕ → ℕ → ℕ → Syscall (Unit {0}) → EventLoop T
  create thread wakeup_fd handler answer = record {
    running = false;
    quit = false;
    handlers = elim answer [ done u ↦ (wakeup_fd, handler) ∷ [] | failed e ↦ [] ];
    active_events = max_events;
    pending_tasks = [];
    loop_thread_id = thread;
    signals = 0;
  }

  abbrev pub is_in_loop_thread : ℕ → EventLoop T → Bool
  is_in_loop_thread thread l = l.loop_thread_id == thread

  -- `epoll_ctl` with EPOLL_CTL_ADD, and the entry of the map where it succeeds.
  unfoldable pub register_handler : ℕ → ℕ → Syscall (Unit {0}) → EventLoop T → EventLoop T
  register_handler fd handler (done u) l = record l { handlers = assign fd handler l.handlers }
  register_handler fd handler (failed e) l = l

  -- The entry goes also where `epoll_ctl` fails.
  unfoldable pub unregister_handler : ℕ → Syscall (Unit {0}) → EventLoop T → EventLoop T
  unregister_handler fd answer l = record l { handlers = erase fd l.handlers }

  unfoldable pub wakeup : EventLoop T → EventLoop T
  wakeup l = record l { signals = l.signals + 1 }

  unfoldable pub handle_wakeup : EventLoop T → EventLoop T
  handle_wakeup l = record l { signals = 0 }

  -- The part of `runInLoop` under the mutex.
  unfoldable pub push_task : T → EventLoop T → EventLoop T
  push_task task l = record l { pending_tasks = l.pending_tasks ++ (task ∷ []) }

  -- The task to run at once, if there is one, and the loop.
  unfoldable pub run_in_loop : ℕ → T → EventLoop T → Option T × EventLoop T
  unfolding wakeup push_task
  run_in_loop thread task l =
      if is_in_loop_thread thread l then (some task, l) else (none, wakeup (push_task task l))

  -- Each of the next three has the task that calls it again, which another thread posts.
  unfoldable pub add_handler : ℕ → T → ℕ → ℕ → Syscall (Unit {0}) → EventLoop T → EventLoop T
  unfolding register_handler wakeup push_task
  add_handler thread again fd handler answer l =
      if is_in_loop_thread thread l
      then register_handler fd handler answer l
      else wakeup (push_task again l)

  -- `epoll_ctl` changes the mask in the kernel only.
  unfoldable pub update_handler : ℕ → T → Syscall (Unit {0}) → EventLoop T → EventLoop T
  unfolding wakeup push_task
  update_handler thread again answer l =
      if is_in_loop_thread thread l then l else wakeup (push_task again l)

  unfoldable pub remove_handler : ℕ → T → ℕ → Syscall (Unit {0}) → EventLoop T → EventLoop T
  unfolding unregister_handler wakeup push_task
  remove_handler thread again fd answer l =
      if is_in_loop_thread thread l
      then unregister_handler fd answer l
      else wakeup (push_task again l)

  -- The tasks to run, in order.
  unfoldable pub do_pending_tasks : EventLoop T → List T × EventLoop T
  do_pending_tasks l = (l.pending_tasks, record l { pending_tasks = [] })

  unfoldable pub stop : ℕ → EventLoop T → EventLoop T
  unfolding wakeup
  stop thread l =
      let l' = record l { quit = true } in if is_in_loop_thread thread l then l' else wakeup l'

  -- `run` up to its loop, and after it.
  unfoldable pub begin_run : ℕ → EventLoop T → EventLoop T
  begin_run thread l = record l { running = true; quit = false; loop_thread_id = thread }

  unfoldable pub end_run : EventLoop T → EventLoop T
  end_run l = record l { running = false }

-- The destructor: the descriptors that it closes, of those of epoll and of the eventfd (`none` is -1).
unfoldable pub close_fds : Option ℕ → Option ℕ → List ℕ
close_fds epoll_fd wakeup_fd =
    let wakeup : List ℕ = elim wakeup_fd [ none ↦ [] | some fd ↦ fd ∷ [] ] in
    elim epoll_fd [ none ↦ wakeup | some fd ↦ fd ∷ wakeup ]

-- The loops that run inside a larger state `S`: how to reach the event loop in it, what calling a
-- handler with a mask does to it, and what running a task does.
pub record Host (S : Type 0) (T : Type 0) : Type 0 where
  pub loop : S → EventLoop T
  pub put : EventLoop T → S → S
  pub call : ℕ → ℕ → S → S
  pub execute : T → S → S

module _ {S T : Type 0} (host : Host S T) where
  -- Each descriptor is looked up when its turn comes, since a callback may change the handlers.
  unfoldable pub dispatch_events : List (ℕ × ℕ) → S → S
  dispatch_events [] s = s
  dispatch_events ((fd, events) ∷ rest) s =
      dispatch_events rest (elim (lookup fd (host.loop s).handlers) [
        | none ↦ s
        | some handler ↦ host.call handler events s
      ])

  -- The list of events doubles where it was full.
  unfoldable pub grow : ℕ → EventLoop T → EventLoop T
  grow ready l =
      if ready == l.active_events then record l { active_events = l.active_events * 2 } else l

  -- What `epoll_wait` returns is an argument; a failure and a timeout change nothing.
  unfoldable pub handle_events : Syscall (List (ℕ × ℕ)) → S → S
  unfolding dispatch_events grow
  handle_events (failed e) s = s
  handle_events (done ready) s =
      let s' = dispatch_events ready s in
      if ltb 0 (length ready) then host.put (grow (length ready) (host.loop s')) s' else s'

  unfoldable pub run_tasks : List T → S → S
  run_tasks [] s = s
  run_tasks (task ∷ tasks) s = run_tasks tasks (host.execute task s)

  unfoldable pub run_pending : S → S
  unfolding run_tasks do_pending_tasks
  run_pending s = let (tasks, l) = do_pending_tasks (host.loop s) in run_tasks tasks (host.put l s)

  -- `while (!quit_)`: one answer of `epoll_wait` for each round. The loop is still running where
  -- the answers end, which the second component says.
  unfoldable pub rounds : List (Syscall (List (ℕ × ℕ))) → S → S × Bool
  unfolding handle_events run_pending
  rounds [] s = (s, not (host.loop s).quit)
  rounds (ready ∷ later) s =
      let next = rounds later (run_pending (handle_events ready s)) in
      if (host.loop s).quit then (s, false) else next

  unfoldable pub run : ℕ → List (Syscall (List (ℕ × ℕ))) → S → S × Bool
  unfolding rounds begin_run end_run
  run thread answers s =
      let (s', running) = rounds answers (host.put (begin_run thread (host.loop s)) s) in
      (if running then s' else host.put (end_run (host.loop s')) s', running)
