-- ===== src/System/Living.antt =====
-- No operation of the system leads a connection out of its life.
use mathlib.Core.Path.{subst}
use echoserver.Prelude.{
  ℕ, ◌+◌, ◌≤◌, ◌≡◌, refl, ◌∙◌, false, none, some, List, [], ◌∷◌, arith, ◌==◌, ==_iff, inl, inr,
  Bool-cases, Option-cases, append-nil,
}
use echoserver.Connection.{Connection, connecting, Effect}
use echoserver.Connection.Operations.{establish_in_loop, destroy_in_loop}
use echoserver.EventLoop.{lookup, assign}
use echoserver.EventLoop.Handlers.{lookup-assign}
use echoserver.Peer.{Peer, act_on}
use echoserver.System.{Job, establishes, destroys, System, carry_out, perform, run_job}
use echoserver.Peer.Honest.{Small}
use echoserver.System.Births.{
  births, all_births, Absent, Frame, Frame-trans, carry_out-Frame, carry_out-Absent,
}
use echoserver.System.Phases.{
  Untouched, Opened, Phase, unborn, waiting, opened, KeepsExact, destroy-KeepsExact,
  establish-Faithful,
}

-- Tasks may move between a loop and the list of those that it has taken.
pub move-Phase :
    (name : ℕ) (jobs jobs' : List Job) (s t : System)
    → lookup name t.peers ≡ lookup name s.peers
    → births name jobs' + all_births name t.loops ≤ births name jobs + all_births name s.loops
    → s.server.next_conn_id ≤ t.server.next_conn_id
    → (Absent name s → Absent name t)
    → Phase name jobs s
    → Phase name jobs' t
move-Phase name jobs jobs' s t peer fewer ids absent (unborn none_there no_births away) =
    unborn (peer ∙ none_there) (omega arith) (absent away)
move-Phase name jobs jobs' s t peer fewer ids absent (waiting p found u once away given) =
    waiting p (peer ∙ found) u (omega arith) (absent away) (omega arith)
move-Phase name jobs jobs' s t peer fewer ids absent (opened o) = opened (record {
  peer = o.peer;
  found = peer ∙ o.found;
  no_births = omega (arith, o.no_births);
  exact = o.exact;
  given = omega (arith, o.given);
})

pub Frame-Phase :
    {name : ℕ} {jobs : List Job} {s t : System}
    → Frame name s t
    → (Absent name s → Absent name t)
    → Phase name jobs s
    → Phase name jobs t
Frame-Phase {name} {jobs} {s} {t} f absent phase =
    move-Phase name jobs jobs s t f.peer (omega (arith, f.fewer)) f.ids absent phase

pub Frame-Opened :
    {name : ℕ} {jobs : List Job} {s t : System}
    → Frame name s t
    → Opened name jobs s
    → Opened name jobs t
Frame-Opened f o = record {
  peer = o.peer;
  found = f.peer ∙ o.found;
  no_births = omega (arith, f.fewer, o.no_births);
  exact = o.exact;
  given = omega (arith, f.ids, o.given);
}

-- The peer of this name is replaced.
abbrev with_peer : ℕ → Peer → System → System
with_peer name q s = record s { peers = assign name q s.peers }

other_peer-Frame :
    (name other : ℕ) (q : Peer) (s : System)
    → (other == name) ≡ false
    → Frame name s (with_peer other q s)
other_peer-Frame name other q s differs = record {
  peer = ground (arith, lookup-assign other name q s.peers);
  fewer = omega arith;
  ids = omega arith;
}

same_peer : (name : ℕ) (q : Peer) (s : System) → lookup name (with_peer name q s).peers ≡ some q
same_peer name q s = ground (arith, lookup-assign name name q s.peers)

perform_absent :
    (i name : ℕ) (f : Peer → Peer × List Effect) (s : System)
    → lookup name s.peers ≡ none
    → perform i name f s ≡ s
unfolding perform
perform_absent i name f s absent = rw (absent, perform) refl

perform_present :
    (i name : ℕ) (f : Peer → Peer × List Effect) (p : Peer) (s : System)
    → lookup name s.peers ≡ some p
    → perform i name f s ≡ carry_out i name p.conn.fd (f p).1 (with_peer name (f p).0 s)
unfolding perform
perform_present i name f p s found = rw (found, perform) refl

-- What happens to another connection.
pub perform_other-Phase :
    (name i other : ℕ) (f : Peer → Peer × List Effect) (jobs : List Job) (s : System)
    → (other == name) ≡ false
    → Phase name jobs s
    → Phase name jobs (perform i other f s)
perform_other-Phase name i other f jobs s differs phase =
    elim (Option-cases (lookup other s.peers)) [
      | inl absent ↦ rw (perform_absent i other f s absent) phase
      | inr (p, found) ↦
          let changed : System = with_peer other (f p).0 s in
          rw (perform_present i other f p s found) (
            Frame-Phase
              (Frame-trans (other_peer-Frame name other (f p).0 s differs)
                (carry_out-Frame name i other p.conn.fd (f p).1 changed))
              (λ away. carry_out-Absent name i other p.conn.fd (f p).1 changed differs away) phase)
    ]

pub perform-Opened :
    (name i : ℕ) (f : Peer → Peer × List Effect) (jobs : List Job) (s : System)
    → KeepsExact f
    → Opened name jobs s
    → Opened name jobs (perform i name f s)
perform-Opened name i f jobs s keeps o =
    let q : Peer = (f o.peer).0 in
    let changed : System = with_peer name q s in
    rw (perform_present i name f o.peer s o.found) (
      Frame-Opened (carry_out-Frame name i name o.peer.conn.fd (f o.peer).1 changed) (record {
        peer = q;
        found = same_peer name q s;
        no_births = o.no_births;
        exact = λ small.
            let before : Small o.peer = omega (arith, keeps.same_total o.peer) in
            keeps.exact o.peer before (o.exact before);
        given = o.given;
      }))

destroy_connecting : (c : Connection) → c.state ≡ connecting → destroy_in_loop c ≡ (tt, c, [])
unfolding destroy_in_loop
destroy_connecting c h = ground arith

-- A task that destroys, where the connection is still to be established, finds nothing to do.
destroy_waiting : (p : Peer) → Untouched p → act_on destroy_in_loop [] p ≡ (p, [])
unfolding act_on
destroy_waiting p u =
    ground (arith, destroy_connecting p.conn u.state, append-nil p.received, append-nil p.sent_back)

carry_nothing :
    (i name fd : ℕ) (es : List Effect) (s : System) → es ≡ [] → carry_out i name fd es s ≡ s
unfolding carry_out
carry_nothing i name fd es s e = rw (e, carry_out) refl

destroy_job-Phase :
    (name i : ℕ) (jobs : List Job) (s : System)
    → Phase name jobs s
    → Phase name jobs (perform i name (act_on destroy_in_loop []) s)
destroy_job-Phase name i jobs s (unborn none_there no_births away) =
    rw (perform_absent i name (act_on destroy_in_loop []) s none_there)
      (unborn none_there no_births away)
destroy_job-Phase name i jobs s (waiting p found u once away given) =
    rw
      (
        perform_present i name (act_on destroy_in_loop []) p s found,
        destroy_waiting p u,
        carry_nothing i name p.conn.fd [] (with_peer name p s) refl,
      )
      (waiting p (same_peer name p s) u once away given)
destroy_job-Phase name i jobs s (opened o) =
    opened (perform-Opened name i (act_on destroy_in_loop []) jobs s destroy-KeepsExact o)

-- The one establishing opens the connection.
establish_job-Opened :
    (name i : ℕ) (jobs : List Job) (s : System)
    → Phase name (establishes name ∷ jobs) s
    → Opened name jobs (perform i name (act_on establish_in_loop []) s)
establish_job-Opened name i jobs s (unborn none_there no_births away) =
    absurd (ground (arith, no_births))
establish_job-Opened name i jobs s (opened o) = absurd (ground (arith, o.no_births))
establish_job-Opened name i jobs s (waiting p found u once away given) =
    let f : Peer → Peer × List Effect = act_on establish_in_loop [] in
    let spent : births name jobs + all_births name s.loops ≡ 0 = ground (arith, once) in
    rw (perform_present i name f p s found) (
      Frame-Opened (carry_out-Frame name i name p.conn.fd (f p).1 (with_peer name (f p).0 s))
        (record {
          peer = (f p).0;
          found = same_peer name (f p).0 s;
          no_births = spent;
          exact = λ small up none_lost. establish-Faithful p u;
          given = given;
        }))

-- A task that a loop has taken and runs.
pub run_job-Phase :
    (name i : ℕ) (job : Job) (jobs : List Job) (s : System)
    → Phase name (job ∷ jobs) s
    → Phase name jobs (run_job i job s)
unfolding run_job
run_job-Phase name i (destroys other) jobs s phase =
    let same : Phase name jobs s =
      move-Phase name (destroys other ∷ jobs) jobs s s refl (omega arith) (omega arith) (λ a. a)
        phase in
    elim (Bool-cases (other == name)) [
      | inl self ↦
          let equal : other ≡ name = (==_iff other name).0 self in
          rw equal (destroy_job-Phase name i jobs s same)
      | inr differs ↦
          perform_other-Phase name i other (act_on destroy_in_loop []) jobs s differs same
    ]
run_job-Phase name i (establishes other) jobs s phase = elim (Bool-cases (other == name)) [
  | inl self ↦
      let equal : other ≡ name = (==_iff other name).0 self in
      rw equal (
        opened (
          establish_job-Opened name i jobs s
            (subst (λ n. Phase name (establishes n ∷ jobs) s) equal phase)))
  | inr differs ↦
      let same : Phase name jobs s =
        move-Phase name (establishes other ∷ jobs) jobs s s refl (ground arith) (omega arith)
          (λ a. a) phase in
      perform_other-Phase name i other (act_on establish_in_loop []) jobs s differs same
]
