-- ===== src/System/Accepting.antt =====
-- A new connection: the next name, its only establishing, and no handler yet.
use mathlib.Core.Path.{subst}
use echoserver.Prelude.{
  ℕ, ◌+◌, ◌≡◌, refl, sym, true, false, Option, none, some, [], ◌∷◌, arith, ◌==◌, ==_iff, inl, inr,
  Bool-cases, length,
}
use echoserver.Buffer
use echoserver.Buffer.{initial_size, readable_bytes}
use echoserver.Buffer.Invariant.{length-create, create-IsValid, contents-create}
use echoserver.Connection.Operations
use echoserver.EventLoop.{lookup, assign}
use echoserver.EventLoop.Handlers.{lookup-assign}
use echoserver.EchoServer.{creates_connection, handle_new_connection, get_next_loop}
use echoserver.Peer.{Script, Peer, new_connection}
use echoserver.System.{establishes, System, post_to_owner, carry_action, carry_actions, accept}
use echoserver.System.Births.{all_births, Absent}
use echoserver.System.Phases.{Untouched, Phase, unborn, waiting, opened}
use echoserver.System.Living.{move-Phase}
use echoserver.System.Removing.{owner-Phase}

abbrev new_peer : ℕ → ℕ → ℕ → Script → Peer
new_peer name fd i script = record {
  conn = new_connection name fd;
  io_loop = i;
  script = script;
  received = [];
  sent_back = [];
  faults = 0;
}

new-Untouched : (name fd i : ℕ) (script : Script) → Untouched (new_peer name fd i script)
unfolding new_connection Operations.create
new-Untouched name fd i script =
    let size : length (Buffer.create initial_size).buffer ≡ 8 + 1024 =
      length-create initial_size (omega arith) in
    record {
      state = refl;
      events = refl;
      echoing = refl;
      plain = refl;
      input = create-IsValid initial_size (omega arith);
      output = create-IsValid initial_size (omega arith);
      unread = contents-create initial_size;
      unsent = contents-create initial_size;
      input_small = omega arith;
      output_small = omega arith;
      none_received = refl;
      none_sent = refl;
    }

-- The server when it has given out a name, and chosen a loop.
abbrev named : System → System
named s = record s { server = (handle_new_connection true s.server).1 }

abbrev next_name : System → ℕ
next_name s = s.server.next_conn_id

abbrev chosen_loop : System → Option ℕ
chosen_loop s = (get_next_loop (record s.server { next_conn_id = next_name s + 1 })).0

accept_lem :
    (fd : ℕ) (script : Script) (s : System)
    → accept fd script s
      ≡ post_to_owner
          (next_name s)
          (establishes (next_name s))
          (carry_action fd script (creates_connection (next_name s) (chosen_loop s)) (named s))
unfolding accept handle_new_connection carry_actions carry_action
accept_lem fd script s = elim (Bool-cases s.server.connection_callback) [
  | inl on ↦ rw on refl
  | inr off ↦ rw off refl
]

named_ids : (s : System) → (named s).server.next_conn_id ≡ next_name s + 1
unfolding handle_new_connection get_next_loop
named_ids s = ground arith

-- The next name is of no connection yet.
next-Unborn :
    (name : ℕ) (s : System)
    → next_name s ≡ name
    → Phase name [] s
    → (lookup name s.peers ≡ none) × (all_births name s.loops ≡ 0) × Absent name s
next-Unborn name s e (unborn none_there no_births away) = (none_there, omega arith, away)
next-Unborn name s e (waiting p found u once away given) = absurd (omega arith)
next-Unborn name s e (opened o) = absurd (omega (arith, o.given))

created_self-Phase :
    (fd : ℕ) (script : Script) (io : Option ℕ) (s : System)
    → Phase (next_name s) [] s
    → Phase (next_name s) [] (
        post_to_owner
          (next_name s)
          (establishes (next_name s))
          (carry_action fd script (creates_connection (next_name s) io) (named s)))
unfolding carry_action post_to_owner
created_self-Phase fd script none s phase =
    let (none_there, no_births, away) = next-Unborn (next_name s) s refl phase in
    rw (none_there, post_to_owner) (unborn none_there (omega arith) away)
created_self-Phase fd script (some i) s phase =
    let name : ℕ = next_name s in
    let (none_there, no_births, away) = next-Unborn name s refl phase in
    owner-Phase name name (establishes name)
      (record (named s) { peers = assign name (new_peer name fd i script) s.peers })
      (waiting (new_peer name fd i script)
        (ground (arith, lookup-assign name name (new_peer name fd i script) s.peers))
        (new-Untouched name fd i script) (ground (arith, no_births)) away
        (omega (arith, named_ids s)))

created_other-Phase :
    (name fd : ℕ) (script : Script) (io : Option ℕ) (s : System)
    → (next_name s == name) ≡ false
    → Phase name [] s
    → Phase name [] (
        post_to_owner
          (next_name s)
          (establishes (next_name s))
          (carry_action fd script (creates_connection (next_name s) io) (named s)))
unfolding carry_action
created_other-Phase name fd script none s differs phase =
    owner-Phase name (next_name s) (establishes (next_name s)) _ (
      move-Phase name [] (establishes (next_name s) ∷ []) s (named s) refl (ground arith)
        (omega (arith, named_ids s)) (λ a. a) phase)
created_other-Phase name fd script (some i) s differs phase =
    let q : Peer = new_peer (next_name s) fd i script in
    owner-Phase name (next_name s) (establishes (next_name s)) _ (
      move-Phase name [] (establishes (next_name s) ∷ []) s
        (record s { server = (named s).server; peers = assign (next_name s) q s.peers })
        (ground (arith, lookup-assign (next_name s) name q s.peers)) (ground arith)
        (omega (arith, named_ids s)) (λ a. a) phase)

pub accept-Phase :
    (name fd : ℕ) (script : Script) (s : System)
    → Phase name [] s
    → Phase name [] (accept fd script s)
accept-Phase name fd script s phase =
    rw (accept_lem fd script s) (elim (Bool-cases (next_name s == name)) [
      | inr differs ↦ created_other-Phase name fd script (chosen_loop s) s differs phase
      | inl self ↦
          let equal : next_name s ≡ name = (==_iff (next_name s) name).0 self in
          subst
            (λ n. Phase n [] (
              post_to_owner (next_name s) (establishes (next_name s)) (
                carry_action fd script (creates_connection (next_name s) (chosen_loop s))
                  (named s))))
            equal
            (created_self-Phase fd script (chosen_loop s) s
              (subst (λ n. Phase n [] s) (sym equal) phase))
    ])
