-- ===== src/System/Echoing.antt =====
-- The promise of the echo server, from its threads down to the bytes.
use mathlib.Core.Path.{subst}
use echoserver.Prelude.{
  ℕ, zero, suc, ◌<◌, ◌≡◌, refl, false, not, some, List, [], ◌∷◌, ◌++◌, arith, ◌==◌, All, get_or,
}
use echoserver.Buffer.{readable_bytes}
use echoserver.Buffer.Invariant.{contents}
use echoserver.Handler.{has, epollout}
use echoserver.Connection.{connected}
use echoserver.EventLoop.{EventLoop, lookup}
use echoserver.Peer.{Peer}
use echoserver.System.{Job, System, no_loop}
use echoserver.System.Steps.{Step, accepts, removes, works, Reach, here, next}
use echoserver.Peer.Honest.{Small}
use echoserver.Peer.Exact.{Faithful}
use echoserver.System.Births.{all_births, holds}
use echoserver.System.Phases.{Phase, unborn, waiting, opened}
use echoserver.System.Removing.{removes-Phase}
use echoserver.System.Accepting.{accept-Phase}
use echoserver.System.Rounds.{round-Phase}

Step-Phase : (name : ℕ) {s t : System} → Step s t → Phase name [] s → Phase name [] t
Step-Phase name {s} (accepts fd script) phase = accept-Phase name fd script s phase
Step-Phase name {s} (removes other names e) phase = removes-Phase name other names s phase
Step-Phase name {s} (works i ready) phase = round-Phase name i ready s phase

pub Reach-Phase : (name : ℕ) {s t : System} → Phase name [] s → Reach s t → Phase name [] t
Reach-Phase name phase here = phase
Reach-Phase name phase (next r step) = Step-Phase name step (Reach-Phase name phase r)

-- A server that has just started: no connections, no tasks, and no handler in any loop but that of
-- the eventfd.
pub record IsStart (s : System) : Type 0 where
  pub no_peers : s.peers ≡ []
  pub no_tasks : All (λ (l : EventLoop Job). l.pending_tasks ≡ []) s.loops
  pub eventfd_only : All (λ (l : EventLoop Job). All (λ (e : ℕ × ℕ). e.1 ≡ 0) l.handlers) s.loops

no_births_start :
    (name : ℕ) (loops : List (EventLoop Job))
    → All (λ (l : EventLoop Job). l.pending_tasks ≡ []) loops
    → all_births name loops ≡ 0
no_births_start name [] h = refl
no_births_start name (l ∷ loops) h = rw h.0 (omega (arith, no_births_start name loops h.1))

eventfd_alone :
    (name : ℕ) (handlers : List (ℕ × ℕ))
    → 0 < name
    → All (λ (e : ℕ × ℕ). e.1 ≡ 0) handlers
    → holds name handlers ≡ false
eventfd_alone name [] pos h = refl
eventfd_alone name ((fd, other) ∷ rest) pos h = ground (arith, eventfd_alone name rest pos h.1, h.0)

absent_start :
    (name : ℕ) (loops : List (EventLoop Job))
    → 0 < name
    → All (λ (l : EventLoop Job). All (λ (e : ℕ × ℕ). e.1 ≡ 0) l.handlers) loops
    → (i : ℕ) → holds name (get_or loops i no_loop).handlers ≡ false
absent_start name [] pos h i = refl
absent_start name (l ∷ loops) pos h zero = eventfd_alone name l.handlers pos h.0
absent_start name (l ∷ loops) pos h (suc i) = absent_start name loops pos h.1 i

pub start-Phase : (name : ℕ) (s : System) → IsStart s → 0 < name → Phase name [] s
start-Phase name s start pos =
    unborn (rw start.no_peers refl) (omega (arith, no_births_start name s.loops start.no_tasks))
      (absent_start name s.loops pos start.eventfd_only)

pub phase-Faithful :
    (name : ℕ) (p : Peer) (s : System)
    → Phase name [] s
    → lookup name s.peers ≡ some p
    → p.conn.state ≡ connected
    → p.faults ≡ 0
    → Small p
    → Faithful p
phase-Faithful name p s (unborn none_there no_births away) found up none_lost small = cc
phase-Faithful name p s (waiting q h u once away given) found up none_lost small =
    let equal : q ≡ p = cc in absurd (ground (arith, u.state, equal))
phase-Faithful name p s (opened o) found up none_lost small =
    let equal : o.peer ≡ p = cc (o.found) in
    subst (λ (q : Peer). Small q → q.conn.state ≡ connected → q.faults ≡ 0 → Faithful q) equal
      o.exact small up none_lost

-- The promise of the whole server. From its start, in every order of accepts, removals and rounds of
-- the workers, whatever `epoll_wait` and `readv` return: a client whose connection is connected, and
-- for which `send` met no EPIPE and no ECONNRESET, has been sent back all that it sent, in order, but
-- for what waits in the output buffer; and the connection is interested in EPOLLOUT exactly when
-- something waits. That holds for a client that sends fewer bytes than the size limit of the
-- buffers.
pub server_echoes :
    {s t : System} (name : ℕ) {p : Peer}
    → IsStart s
    → Reach s t
    → 0 < name
    → lookup name t.peers ≡ some p
    → p.conn.state ≡ connected
    → p.faults ≡ 0
    → Small p
    → (p.sent_back ++ contents p.conn.output_buffer ≡ p.received)
      × (has p.conn.events epollout ≡ not (readable_bytes p.conn.output_buffer == 0))
server_echoes {s} {t} name {p} start r pos found up none_lost small =
    let f : Faithful p =
      phase-Faithful name p t (Reach-Phase name (start-Phase name s start pos) r) found up none_lost
        small in
    (f.order, f.serving.output.waiting)
