-- ===== src/System/Stopping.antt =====
-- `stop` of a worker's loop that has not begun to run, in the server: nothing that the loop runs stops
-- it again.
use echoserver.Prelude.{
  ℕ, ◌<◌, ◌≡◌, refl, ◌∙◌, Bool-cases, Option-cases, inl, inr, true, false, List, [], ◌∷◌, arith,
  ◌==◌, length, length-set, get_or-set_self,
}
use echoserver.Prelude.Syscall.{Syscall}
use echoserver.Handler.{Callback}
use echoserver.Connection.{
  Effect, sends, shuts_down_write, adds_handler, updates_handler, removes_handler, calls_close,
  calls_error, posts,
}
use echoserver.EventLoop.{
  EventLoop, lookup, assign, add_handler, remove_handler, handle_wakeup, stop, run,
}
use echoserver.EventLoop.Rounds.{IsHost, NeverStops, stop_before_run}
use echoserver.Connection.Operations.{establish_in_loop, destroy_in_loop}
use echoserver.Peer.{Peer, act_on, handle_callback}
use echoserver.System.{
  Job, establishes, destroys, System, no_loop, loop_at, put_loop, report_removal, carry_out,
  perform, on_callback, deliver, callbacks_of, run_job, host,
}
use echoserver.System.Births.{adds, drops}
use echoserver.System.Dangling.{get_or-modify}

-- As many loops, and none told to stop that was not.
record Runs (s t : System) : Type 0 where
  same_length : length t.loops ≡ length s.loops
  goes_on : (j : ℕ) → (loop_at j s).quit ≡ false → (loop_at j t).quit ≡ false

same-Runs : (s t : System) → t.loops ≡ s.loops → Runs s t
same-Runs s t e = record { same_length = rw e refl; goes_on = λ j h. rw e h }

trans-Runs : {s t u : System} → Runs s t → Runs t u → Runs s u
trans-Runs a b = record {
  same_length = b.same_length ∙ a.same_length;
  goes_on = λ j h. b.goes_on j (a.goes_on j h);
}

put-Runs :
    (i : ℕ) (f : EventLoop Job → EventLoop Job) (s : System)
    → ((l : EventLoop Job) → (f l).quit ≡ l.quit)
    → Runs s (put_loop i (f (loop_at i s)) s)
put-Runs i f s keep = record {
  same_length = length-set s.loops i _;
  goes_on = λ j h.
      get_or-modify (λ (l : EventLoop Job). l.quit ≡ false) f no_loop (λ l k. keep l ∙ k) s.loops i
        j h;
}

adds_quit : (name fd : ℕ) (l : EventLoop Job) → (adds name fd l).quit ≡ l.quit
unfolding add_handler
adds_quit name fd l = ground arith

drops_quit : (name fd : ℕ) (l : EventLoop Job) → (drops name fd l).quit ≡ l.quit
unfolding remove_handler
drops_quit name fd l = ground arith

wakeup_quit : (l : EventLoop Job) → (handle_wakeup l).quit ≡ l.quit
unfolding handle_wakeup
wakeup_quit l = refl

report-Runs : (name : ℕ) (s : System) → Runs s (report_removal name s)
unfolding report_removal
report-Runs name s = same-Runs s _ refl

carry_out-Runs : (i name fd : ℕ) (es : List Effect) (s : System) → Runs s (carry_out i name fd es s)
unfolding carry_out
carry_out-Runs i name fd [] s = same-Runs s s refl
carry_out-Runs i name fd (adds_handler mask ∷ es) s =
    trans-Runs (put-Runs i (adds name fd) s (adds_quit name fd)) (carry_out-Runs i name fd es _)
carry_out-Runs i name fd (removes_handler ∷ es) s =
    trans-Runs (put-Runs i (drops name fd) s (drops_quit name fd)) (carry_out-Runs i name fd es _)
carry_out-Runs i name fd (calls_close ∷ es) s =
    trans-Runs (report-Runs name s) (carry_out-Runs i name fd es _)
carry_out-Runs i name fd (calls_error ∷ es) s =
    trans-Runs (report-Runs name s) (carry_out-Runs i name fd es _)
carry_out-Runs i name fd (sends bytes ∷ es) s = carry_out-Runs i name fd es s
carry_out-Runs i name fd (shuts_down_write ∷ es) s = carry_out-Runs i name fd es s
carry_out-Runs i name fd (updates_handler m ∷ es) s = carry_out-Runs i name fd es s
carry_out-Runs i name fd (posts task ∷ es) s = carry_out-Runs i name fd es s

perform-Runs :
    (i name : ℕ) (f : Peer → Peer × List Effect) (s : System) → Runs s (perform i name f s)
unfolding perform
perform-Runs i name f s = elim (Option-cases (lookup name s.peers)) [
  | inl absent ↦ rw (absent, perform) (same-Runs s s refl)
  | inr (p, found) ↦
      rw (found, perform)
        (trans-Runs (same-Runs s (record s { peers = assign name (f p).0 s.peers }) refl)
          (carry_out-Runs i name p.conn.fd (f p).1 _))
]

callback-Runs :
    (i name : ℕ) (callback : Callback) (s : System) → Runs s (on_callback i name callback s)
unfolding on_callback
callback-Runs i name callback s = elim (Bool-cases (name == 0)) [
  | inl eventfd ↦ rw eventfd (put-Runs i handle_wakeup s wakeup_quit)
  | inr known ↦ rw known (perform-Runs i name (handle_callback callback) s)
]

deliver-Runs :
    (i name : ℕ) (callbacks : List Callback) (s : System) → Runs s (deliver i name callbacks s)
unfolding deliver
deliver-Runs i name [] s = same-Runs s s refl
deliver-Runs i name (callback ∷ callbacks) s =
    trans-Runs (callback-Runs i name callback s) (deliver-Runs i name callbacks _)

job-Runs : (i : ℕ) (job : Job) (s : System) → Runs s (run_job i job s)
unfolding run_job
job-Runs i (establishes name) s = perform-Runs i name (act_on establish_in_loop []) s
job-Runs i (destroys name) s = perform-Runs i name (act_on destroy_in_loop []) s

inside : {s t : System} (i : ℕ) → Runs s t → i < length s.loops → i < length t.loops
inside i r h = omega (arith, r.same_length, h)

host-IsHost : (i : ℕ) → IsHost (host i)
unfolding host
host-IsHost i = record {
  Inside = λ s. i < length s.loops;
  put-Inside = λ l s h. omega (arith, length-set s.loops i l, h);
  loop-put = λ l s h. get_or-set_self s.loops i l no_loop h;
}

host-NeverStops : (i : ℕ) → NeverStops (host i) (host-IsHost i)
unfolding host host-IsHost
host-NeverStops i = record {
  call-Inside = λ name events s h. inside i (deliver-Runs i name (callbacks_of name events s) s) h;
  task-Inside = λ job s h. inside i (job-Runs i job s) h;
  by_call = λ name events s h. (deliver-Runs i name (callbacks_of name events s) s).goes_on i h;
  by_task = λ job s h. (job-Runs i job s).goes_on i h;
}

-- A `stop` of a worker's loop that comes before the worker's thread has called `run` is lost: for any
-- loop of the server, whatever its handlers and tasks are and whatever `epoll_wait` answers, `run`
-- is still looping after any number of rounds.
pub stop_is_lost :
    (i thread stopper : ℕ) (answers : List (Syscall (List (ℕ × ℕ)))) (s : System)
    → i < length s.loops
    → (run (host i) thread answers (put_loop i (stop stopper (loop_at i s)) s)).1 ≡ true
unfolding host host-IsHost
stop_is_lost i thread stopper answers s there =
    stop_before_run (host i) (host-IsHost i) (host-NeverStops i) thread stopper answers s there
