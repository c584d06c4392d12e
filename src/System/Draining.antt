-- ===== src/System/Draining.antt =====
-- A client whose connection polls EPOLLOUT, round by round: how what waits for it drains.
use mathlib.Core.Path.{subst}
use echoserver.Prelude.{
  ℕ, suc, ◌≤◌, ◌<◌, ◌≡◌, refl, sym, ap, ◌∙◌, true, false, some, List, [], ◌∷◌, arith, ◌==◌, length,
}
use echoserver.Prelude.Syscall.{Syscall, done}
use echoserver.Handler
use echoserver.Handler.{epollout, on_write, Callback}
use echoserver.Connection.{
  Effect, sends, shuts_down_write, adds_handler, updates_handler, removes_handler, calls_close,
  calls_error, posts,
}
use echoserver.EventLoop.{
  EventLoop, lookup, assign, dispatch_events, grow, handle_events, run_tasks, run_pending,
  do_pending_tasks,
}
use echoserver.Peer.{Peer, handler_of, handle_callback}
use echoserver.Peer.Progress.{calm, Draining, waits, Progresses, write-Progresses, write-calm}
use echoserver.System.{
  Job, System, no_loop, loop_at, put_loop, callbacks_of, carry_out, perform, on_callback, deliver,
  host,
}
use echoserver.EventLoop.Handlers.{lookup-assign}
use echoserver.System.Steps.{worker_round}
use echoserver.System.Dangling.{get_or-modify}

calm_lem :
    (i name fd : ℕ) (es : List Effect) (s : System) → calm es ≡ true → carry_out i name fd es s ≡ s
unfolding carry_out
calm_lem i name fd [] s h = refl
calm_lem i name fd (sends bytes ∷ es) s h = calm_lem i name fd es s h
calm_lem i name fd (shuts_down_write ∷ es) s h = calm_lem i name fd es s h
calm_lem i name fd (updates_handler mask ∷ es) s h = calm_lem i name fd es s h
calm_lem i name fd (adds_handler mask ∷ es) s h = cc
calm_lem i name fd (removes_handler ∷ es) s h = cc
calm_lem i name fd (calls_close ∷ es) s h = cc
calm_lem i name fd (calls_error ∷ es) s h = cc
calm_lem i name fd (posts task ∷ es) s h = cc

-- A client whose handler is in loop `i`, which has no tasks.
pub record Registered (name i fd : ℕ) (p : Peer) (s : System) : Type 0 where
  pub found : lookup name s.peers ≡ some p
  pub registered : lookup fd (loop_at i s).handlers ≡ some name
  pub no_tasks : (loop_at i s).pending_tasks ≡ []

abbrev answered : ℕ → Peer → System → System
answered name p s = record s { peers = assign name (handle_callback on_write p).0 s.peers }

write_event : (p : Peer) → Handler.handle_events (handler_of p.conn) epollout ≡ on_write ∷ []
unfolding Handler.handle_events handler_of Handler.has
write_event p = refl

known : (name : ℕ) → 0 < name → (name == 0) ≡ false
known name pos = ground arith

callbacks_lem :
    (name : ℕ) (p : Peer) (s : System)
    → 0 < name
    → lookup name s.peers ≡ some p
    → callbacks_of name epollout s ≡ on_write ∷ []
callbacks_lem name p s pos found = rw (known name pos, found) (write_event p)

deliver_lem :
    (name i n : ℕ) (p : Peer) (rest : List (Syscall ℕ)) (s : System)
    → 0 < name
    → lookup name s.peers ≡ some p
    → p.script.replies ≡ done (suc n) ∷ rest
    → deliver i name (on_write ∷ []) s ≡ answered name p s
unfolding deliver on_callback perform
deliver_lem name i n p rest s pos found replies =
    rw (deliver, on_callback, known name pos, perform, found)
      (calm_lem i name p.conn.fd (handle_callback on_write p).1 (answered name p s)
        (write-calm p n rest replies))

-- The event finds the handler, which sends what the kernel takes.
dispatch_lem :
    (name i fd n : ℕ) (p : Peer) (rest : List (Syscall ℕ)) (s : System)
    → 0 < name
    → Registered name i fd p s
    → p.script.replies ≡ done (suc n) ∷ rest
    → dispatch_events (host i) ((fd, epollout) ∷ []) s ≡ answered name p s
unfolding dispatch_events host
dispatch_lem name i fd n p rest s pos polled replies =
    rw (dispatch_events, host, polled.registered)
      (ap (λ (cs : List Callback). deliver i name cs s) (callbacks_lem name p s pos polled.found)
        ∙ deliver_lem name i n p rest s pos polled.found replies)

abbrev cleared : EventLoop Job → EventLoop Job
cleared l = record l { pending_tasks = [] }

-- What the round leaves.
abbrev after_round : ℕ → System → System
after_round i s =
    let t = put_loop i (grow (host i) 1 (loop_at i s)) s in put_loop i (cleared (loop_at i t)) t

grow-same :
    (i : ℕ) (l : EventLoop Job)
    → ((grow (host i) 1 l).handlers ≡ l.handlers)
      × ((grow (host i) 1 l).pending_tasks ≡ l.pending_tasks)
unfolding grow
grow-same i l = ground arith

round_lem :
    (name i fd n : ℕ) (p : Peer) (rest : List (Syscall ℕ)) (s : System)
    → 0 < name
    → Registered name i fd p s
    → p.script.replies ≡ done (suc n) ∷ rest
    → worker_round i (done ((fd, epollout) ∷ [])) s ≡ after_round i (answered name p s)
unfolding worker_round handle_events run_pending do_pending_tasks run_tasks
round_lem name i fd n p rest s pos polled replies =
    let grown : System = put_loop i (grow (host i) 1 (loop_at i s)) (answered name p s) in
    let none_there : (loop_at i grown).pending_tasks ≡ [] =
      get_or-modify (λ (l : EventLoop Job). l.pending_tasks ≡ []) (grow (host i) 1) no_loop
        (λ l h. (grow-same i l).1 ∙ h) s.loops i i polled.no_tasks in
    rw (dispatch_lem name i fd n p rest s pos polled replies, none_there) refl

-- The answers of a kernel that takes some bytes each time, and then these.
abbrev pub granted : List ℕ → List (Syscall ℕ) → List (Syscall ℕ)
granted [] rest = rest
granted (n ∷ ns) rest = done (suc n) ∷ granted ns rest

-- Rounds of worker `i` in which `epoll_wait` reports that the descriptor takes bytes, as many as the
-- list has entries.
abbrev pub writable_rounds : ℕ → ℕ → List ℕ → System → System
writable_rounds i fd [] s = s
writable_rounds i fd (n ∷ ns) s =
    writable_rounds i fd ns (worker_round i (done ((fd, epollout) ∷ [])) s)

after-Registered :
    (name i fd : ℕ) (p : Peer) (s : System)
    → Registered name i fd p s
    → Registered name i fd (handle_callback on_write p).0 (after_round i (answered name p s))
after-Registered name i fd p s polled =
    let q : Peer = (handle_callback on_write p).0 in
    let Good : EventLoop Job → Type 0 =
      λ (l : EventLoop Job). (lookup fd l.handlers ≡ some name) × (l.pending_tasks ≡ []) in
    let t : System = put_loop i (grow (host i) 1 (loop_at i s)) (answered name p s) in
    let grown : Good (loop_at i t) =
      get_or-modify Good (grow (host i) 1) no_loop
        (λ l h. (ap (lookup fd) (grow-same i l).0 ∙ h.0, (grow-same i l).1 ∙ h.1)) s.loops i i
        (polled.registered, polled.no_tasks) in
    let left : Good (loop_at i (put_loop i (cleared (loop_at i t)) t)) =
      get_or-modify Good cleared no_loop (λ l h. (h.0, refl)) t.loops i i grown in
    record {
      found = ground (arith, lookup-assign name name q s.peers);
      registered = left.0;
      no_tasks = left.1;
    }

-- What the client has in the end.
pub record Drained (name : ℕ) (sent : List ℕ) (s : System) : Type 0 where
  pub peer : Peer
  pub found : lookup name s.peers ≡ some peer
  pub draining : Draining peer
  pub same_received : peer.received ≡ sent
  pub none_waits : waits peer ≡ 0

pub rounds-Drained :
    (name i fd : ℕ) (ns : List ℕ) (rest : List (Syscall ℕ)) (p : Peer) (s : System)
    → 0 < name
    → Registered name i fd p s
    → Draining p
    → p.script.replies ≡ granted ns rest
    → waits p ≤ length ns
    → Drained name p.received (writable_rounds i fd ns s)
rounds-Drained name i fd [] rest p s pos polled d replies enough = record {
  peer = p;
  found = polled.found;
  draining = d;
  same_received = refl;
  none_waits = omega arith;
}
rounds-Drained name i fd (n ∷ ns) rest p s pos polled d replies enough =
    let q : Peer = (handle_callback on_write p).0 in
    let progress : Progresses p q (granted ns rest) =
      write-Progresses p n (granted ns rest) d replies in
    subst (λ (t : System). Drained name p.received (writable_rounds i fd ns t))
      (sym (round_lem name i fd n p (granted ns rest) s pos polled replies))
      (subst
        (λ (sent : List ℕ).
          Drained name sent (writable_rounds i fd ns (after_round i (answered name p s))))
        progress.same_received
        (rounds-Drained name i fd ns rest q (after_round i (answered name p s)) pos
          (after-Registered name i fd p s polled) progress.draining progress.replies
          (omega (arith, progress.fewer, enough))))
