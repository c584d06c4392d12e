-- ===== src/System/Clients.antt =====
-- A worker's round deals honestly with every client.
use mathlib.Core.Path.{subst}
use echoserver.Prelude.{
  ℕ, ◌≡◌, refl, sym, ◌∙◌, Option, none, some, List, [], ◌∷◌, arith, ◌==◌, append-nil, Bool-cases,
  inl, inr, length, ltb,
}
use echoserver.Prelude.Syscall.{Syscall, done, failed}
use echoserver.Handler.{Callback}
use echoserver.Connection.{
  Effect, sends, shuts_down_write, adds_handler, updates_handler, removes_handler, calls_close,
  calls_error, posts, M,
}
use echoserver.Connection.Operations.{establish_in_loop, destroy_in_loop}
use echoserver.Connection.Handling.{establish-Passes, destroy-Passes}
use echoserver.EventLoop.{
  EventLoop, lookup, assign, dispatch_events, handle_events, run_tasks, do_pending_tasks,
  run_pending,
}
use echoserver.EventLoop.Handlers.{lookup-assign}
use echoserver.Peer.{Peer, act_on, handle_callback}
use echoserver.System.{
  callbacks_of, Job, establishes, destroys, System, report_removal, carry_out, perform, on_callback,
  deliver, run_job, host,
}
use echoserver.System.Steps.{worker_round}
use echoserver.Peer.Honest.{total, Honest, Small, act_on-Honest, callback-total, callback-Honest}

-- Every client that sends less than the size limit is dealt with honestly.
abbrev pub AllHonest : System → Type 0
AllHonest s = (name : ℕ) (p : Peer) → lookup name s.peers ≡ some p → Small p → Honest p

-- What an action on a connection may do.
pub record Keeps (f : Peer → Peer × List Effect) : Type 0 where
  same_total : (p : Peer) → total (f p).0 ≡ total p
  honest : (p : Peer) → Honest p → Small p → Honest (f p).0

pub callback-Keeps : (callback : Callback) → Keeps (handle_callback callback)
callback-Keeps callback = record {
  same_total = callback-total callback;
  honest = callback-Honest callback;
}

pub act_on-total : (m : M (Unit {0})) (p : Peer) → total (act_on m [] p).0 ≡ total p
unfolding act_on
act_on-total m p = rw append-nil refl

pub establish-Keeps : Keeps (act_on establish_in_loop [])
establish-Keeps = record {
  same_total = act_on-total establish_in_loop;
  honest = λ p h small. act_on-Honest establish_in_loop [] p h (establish-Passes p.conn h.sane);
}

pub destroy-Keeps : Keeps (act_on destroy_in_loop [])
destroy-Keeps = record {
  same_total = act_on-total destroy_in_loop;
  honest = λ p h small. act_on-Honest destroy_in_loop [] p h (destroy-Passes p.conn h.sane);
}

pub report_removal-peers : (name : ℕ) (s : System) → (report_removal name s).peers ≡ s.peers
unfolding report_removal
report_removal-peers name s = refl

pub carry_out-peers :
    (i name fd : ℕ) (es : List Effect) (s : System) → (carry_out i name fd es s).peers ≡ s.peers
unfolding carry_out
carry_out-peers i name fd [] s = refl
carry_out-peers i name fd (adds_handler mask ∷ es) s = carry_out-peers i name fd es _
carry_out-peers i name fd (removes_handler ∷ es) s = carry_out-peers i name fd es _
carry_out-peers i name fd (calls_close ∷ es) s = carry_out-peers i name fd es _
carry_out-peers i name fd (calls_error ∷ es) s = carry_out-peers i name fd es _
carry_out-peers i name fd (sends bytes ∷ es) s = carry_out-peers i name fd es s
carry_out-peers i name fd (shuts_down_write ∷ es) s = carry_out-peers i name fd es s
carry_out-peers i name fd (updates_handler mask ∷ es) s = carry_out-peers i name fd es s
carry_out-peers i name fd (posts task ∷ es) s = carry_out-peers i name fd es s

-- One connection changes to an honest one.
pub assigned-AllHonest :
    (name : ℕ) (q : Peer) (s : System)
    → (Small q → Honest q)
    → AllHonest s
    → AllHonest (record s { peers = assign name q s.peers })
assigned-AllHonest name q s h all other p e small = elim (Bool-cases (name == other)) [
  | inl same ↦
      let found : some q ≡ some p = rw same at (sym (lookup-assign name other q s.peers) ∙ e) in
      let equal : q ≡ p = cc in subst (λ (r : Peer). Small r → Honest r) equal h small
  | inr differs ↦ all other p (rw differs at (sym (lookup-assign name other q s.peers) ∙ e)) small
]

pub same_peers-AllHonest : (s t : System) → t.peers ≡ s.peers → AllHonest s → AllHonest t
same_peers-AllHonest s t same all = λ name p e. all name p (rw same at e)

pub perform-AllHonest :
    (i name : ℕ) (f : Peer → Peer × List Effect) (s : System)
    → Keeps f
    → AllHonest s
    → AllHonest (perform i name f s)
unfolding perform
perform-AllHonest i name f s keeps all = found-AllHonest (lookup name s.peers) refl
  where
    found-AllHonest :
        (o : Option Peer)
        → lookup name s.peers ≡ o
        → AllHonest (elim o [
          | none ↦ s
          | some p ↦
              carry_out i name p.conn.fd (f p).1 (record s { peers = assign name (f p).0 s.peers })
        ])
    found-AllHonest none e = all
    found-AllHonest (some p) e =
        let changed : System = record s { peers = assign name (f p).0 s.peers } in
        same_peers-AllHonest changed (carry_out i name p.conn.fd (f p).1 changed)
          (carry_out-peers i name p.conn.fd (f p).1 changed)
          (assigned-AllHonest name (f p).0 s
            (λ small.
              let before : Small p = omega (arith, keeps.same_total p) in
              keeps.honest p (all name p e before) before)
            all)

pub on_callback-AllHonest :
    (i name : ℕ) (callback : Callback) (s : System)
    → AllHonest s
    → AllHonest (on_callback i name callback s)
unfolding on_callback
on_callback-AllHonest i name callback s all = elim (Bool-cases (name == 0)) [
  | inl eventfd ↦ rw eventfd all
  | inr other ↦
      rw other (perform-AllHonest i name (handle_callback callback) s (callback-Keeps callback) all)
]

pub deliver-AllHonest :
    (i name : ℕ) (callbacks : List Callback) (s : System)
    → AllHonest s
    → AllHonest (deliver i name callbacks s)
unfolding deliver
deliver-AllHonest i name [] s all = all
deliver-AllHonest i name (callback ∷ callbacks) s all =
    deliver-AllHonest i name callbacks _ (on_callback-AllHonest i name callback s all)

pub run_job-AllHonest : (i : ℕ) (job : Job) (s : System) → AllHonest s → AllHonest (run_job i job s)
unfolding run_job
run_job-AllHonest i (establishes name) s all =
    perform-AllHonest i name (act_on establish_in_loop []) s establish-Keeps all
run_job-AllHonest i (destroys name) s all =
    perform-AllHonest i name (act_on destroy_in_loop []) s destroy-Keeps all

pub put-AllHonest :
    (i : ℕ) (l : EventLoop Job) (s : System) → AllHonest s → AllHonest ((host i).put l s)
unfolding host
put-AllHonest i l s all = all

pub called-AllHonest :
    (i : ℕ) (o : Option ℕ) (events : ℕ) (s : System)
    → AllHonest s
    → AllHonest (elim o [ none ↦ s | some name ↦ (host i).call name events s ])
unfolding host
called-AllHonest i none events s all = all
called-AllHonest i (some name) events s all =
    deliver-AllHonest i name (callbacks_of name events s) s all

pub dispatch-AllHonest :
    (i : ℕ) (ready : List (ℕ × ℕ)) (s : System)
    → AllHonest s
    → AllHonest (dispatch_events (host i) ready s)
unfolding dispatch_events
dispatch-AllHonest i [] s all = all
dispatch-AllHonest i ((fd, events) ∷ ready) s all =
    dispatch-AllHonest i ready _
      (called-AllHonest i (lookup fd ((host i).loop s).handlers) events s all)

pub tasks-AllHonest :
    (i : ℕ) (jobs : List Job) (s : System) → AllHonest s → AllHonest (run_tasks (host i) jobs s)
unfolding run_tasks host
tasks-AllHonest i [] s all = all
tasks-AllHonest i (job ∷ jobs) s all = tasks-AllHonest i jobs _ (run_job-AllHonest i job s all)

pub events-AllHonest :
    (i : ℕ) (ready : Syscall (List (ℕ × ℕ))) (s : System)
    → AllHonest s
    → AllHonest (handle_events (host i) ready s)
unfolding handle_events
events-AllHonest i (failed e) s all = all
events-AllHonest i (done ready) s all = elim (Bool-cases (ltb 0 (length ready))) [
  | inl more ↦ rw (more, handle_events) (put-AllHonest i _ _ (dispatch-AllHonest i ready s all))
  | inr idle ↦ rw (idle, handle_events) (dispatch-AllHonest i ready s all)
]

pub pending-AllHonest : (i : ℕ) (s : System) → AllHonest s → AllHonest (run_pending (host i) s)
unfolding run_pending
pending-AllHonest i s all =
    let (jobs, l) = do_pending_tasks ((host i).loop s) in
    tasks-AllHonest i jobs _ (put-AllHonest i l s all)

pub round-AllHonest :
    (i : ℕ) (ready : Syscall (List (ℕ × ℕ))) (s : System)
    → AllHonest s
    → AllHonest (worker_round i ready s)
unfolding worker_round
round-AllHonest i ready s all = pending-AllHonest i _ (events-AllHonest i ready s all)
