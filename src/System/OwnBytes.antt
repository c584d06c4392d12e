-- ===== src/System/OwnBytes.antt =====
-- In every order of steps a client is sent only what it sent itself, in order.
use mathlib.Core.List.{Sublist}
use echoserver.Prelude.{
  ◌≤◌, ◌+◌, ℕ, ◌+◌, ◌≡◌, refl, Option, none, some, List, [], ◌∷◌, ◌++◌, arith, true, Bool-cases,
  inl, inr, length, Option-cases,
}
use echoserver.Buffer
use echoserver.Buffer.{initial_size}
use echoserver.Buffer.Invariant.{contents, length-create, create-IsValid, contents-create}
use echoserver.Connection.Operations
use echoserver.Connection.Operations.{establish_in_loop, destroy_in_loop}
use echoserver.Connection.Passing.{sublist_of_eq}
use echoserver.EventLoop.{is_in_loop_thread, lookup, run_in_loop}
use echoserver.EchoServer.{
  Action, creates_connection, creates_loop, adds_acceptor, runs_main_loop, stops_main_loop,
  stops_loop, joins_thread, force_closes, calls_connection_callback, posts_removal,
  handle_new_connection, remove_connection_in_loop,
}
use echoserver.Peer.{Script, Peer, new_connection}
use echoserver.System.{
  no_script, main_thread, loop_at, Job, establishes, destroys, System, run_job, post, post_to_owner,
  carry_action, carry_actions, accept, remove,
}
use echoserver.System.Steps.{Step, accepts, removes, works, Reach, here, next}
use echoserver.System.Clients.{AllHonest, assigned-AllHonest, run_job-AllHonest, round-AllHonest}
use echoserver.Peer.Honest.{Honest, Small}

new-Honest :
    (name fd i : ℕ) (script : Script)
    → Honest (record {
      conn = new_connection name fd;
      io_loop = i;
      script = script;
      received = [];
      sent_back = [];
      faults = 0;
    })
unfolding new_connection Operations.create
new-Honest name fd i script =
    let size : length (Buffer.create initial_size).buffer ≡ 8 + 1024 =
      length-create initial_size (omega arith) in
    record {
      sane = record {
        input = create-IsValid initial_size (omega arith);
        output = create-IsValid initial_size (omega arith);
        handled = contents-create initial_size;
        echoing = refl;
        plain = refl;
      };
      own = sublist_of_eq (contents-create initial_size);
      input_small = omega arith;
      output_small = omega arith;
    }

posted-AllHonest :
    (i : ℕ) (now : Option Job) (s : System)
    → AllHonest s
    → AllHonest (elim now [ none ↦ s | some job ↦ run_job i job s ])
posted-AllHonest i none s all = all
posted-AllHonest i (some job) s all = run_job-AllHonest i job s all

post-AllHonest : (i : ℕ) (job : Job) (s : System) → AllHonest s → AllHonest (post i job s)
unfolding post run_in_loop
post-AllHonest i job s all = elim (Bool-cases (is_in_loop_thread main_thread (loop_at i s))) [
  | inl own ↦ rw (own, post) (run_job-AllHonest i job _ all)
  | inr away ↦ rw (away, post) all
]

owner-AllHonest :
    (name : ℕ) (job : Job) (s : System) → AllHonest s → AllHonest (post_to_owner name job s)
unfolding post_to_owner
owner-AllHonest name job s all = elim (Option-cases (lookup name s.peers)) [
  | inl absent ↦ rw (absent, post_to_owner) all
  | inr (p, found) ↦ rw (found, post_to_owner) (post-AllHonest p.io_loop job s all)
]

action-AllHonest :
    (fd : ℕ) (script : Script) (action : Action) (s : System)
    → AllHonest s
    → AllHonest (carry_action fd script action s)
unfolding carry_action
action-AllHonest fd script (creates_connection name (some i)) s all =
    assigned-AllHonest name _ s (λ small. new-Honest name fd i script) all
action-AllHonest fd script (Action.establishes name) s all =
    owner-AllHonest name (establishes name) s all
action-AllHonest fd script (Action.destroys name) s all = owner-AllHonest name (destroys name) s all
action-AllHonest fd script (creates_connection name none) s all = all
action-AllHonest fd script (creates_loop i) s all = all
action-AllHonest fd script adds_acceptor s all = all
action-AllHonest fd script runs_main_loop s all = all
action-AllHonest fd script stops_main_loop s all = all
action-AllHonest fd script (stops_loop i) s all = all
action-AllHonest fd script (joins_thread i) s all = all
action-AllHonest fd script (force_closes name) s all = all
action-AllHonest fd script (calls_connection_callback name) s all = all
action-AllHonest fd script (posts_removal name) s all = all

actions-AllHonest :
    (fd : ℕ) (script : Script) (actions : List Action) (s : System)
    → AllHonest s
    → AllHonest (carry_actions fd script actions s)
unfolding carry_actions
actions-AllHonest fd script [] s all = all
actions-AllHonest fd script (action ∷ actions) s all =
    actions-AllHonest fd script actions _ (action-AllHonest fd script action s all)

accept-AllHonest :
    (fd : ℕ) (script : Script) (s : System) → AllHonest s → AllHonest (accept fd script s)
unfolding accept
accept-AllHonest fd script s all =
    let (actions, server) = handle_new_connection true s.server in
    actions-AllHonest fd script actions (record s { server = server }) all

remove-AllHonest : (name : ℕ) (s : System) → AllHonest s → AllHonest (remove name s)
unfolding remove
remove-AllHonest name s all =
    let (actions, server) = remove_connection_in_loop name s.server in
    actions-AllHonest 0 no_script actions (record s { server = server }) all

Step-AllHonest : {s t : System} → Step s t → AllHonest s → AllHonest t
Step-AllHonest {s} (accepts fd script) all = accept-AllHonest fd script s all
Step-AllHonest {s} (removes name names e) all =
    remove-AllHonest name (record s { removals = names }) all
Step-AllHonest {s} (works i ready) all = round-AllHonest i ready s all

Reach-AllHonest : {s t : System} → AllHonest s → Reach s t → AllHonest t
Reach-AllHonest all here = all
Reach-AllHonest all (next r step) = Step-AllHonest step (Reach-AllHonest all r)

no_clients : (s : System) → s.peers ≡ [] → AllHonest s
no_clients s none_yet = λ other q e. absurd (ground (arith, none_yet, e))

-- In every order of accepts, removals and rounds of the workers, whatever `epoll_wait`, `readv` and
-- `send` return, from a server without connections: what a client is sent, and then what waits for
-- it, is some of what that client sent, in order; so no client gets a byte of another, and none
-- twice. That holds for a client that sends fewer bytes than the size limit of the buffers.
pub sends_own_bytes :
    {s t : System} (name : ℕ) {p : Peer}
    → s.peers ≡ []
    → Reach s t
    → lookup name t.peers ≡ some p
    → Small p
    → Sublist (p.sent_back ++ contents p.conn.output_buffer) p.received
sends_own_bytes {s} name {p} none_yet r found small =
    (Reach-AllHonest (no_clients s none_yet) r name p found small).own

-- What a client can make the server hold. In every order of steps, whatever `epoll_wait`, `readv` and
-- `send` return, from a server without connections: neither buffer of a connection ever has more
-- room than 1032 bytes and one for each byte that its client sent, whether or not it takes its
-- answers. That holds for a client that sends fewer bytes than the size limit of the buffers.
pub buffers_bounded :
    {s t : System} (name : ℕ) {p : Peer}
    → s.peers ≡ []
    → Reach s t
    → lookup name t.peers ≡ some p
    → Small p
    → (length p.conn.input_buffer.buffer ≤ 1032 + length p.received)
      × (length p.conn.output_buffer.buffer ≤ 1032 + length p.received)
buffers_bounded {s} name {p} none_yet r found small =
    let h : Honest p = Reach-AllHonest (no_clients s none_yet) r name p found small in
    (h.input_small, h.output_small)
