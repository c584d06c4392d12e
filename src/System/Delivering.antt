-- ===== src/System/Delivering.antt =====
-- The whole server sends a client the bytes that wait for it.
use echoserver.Prelude.{
  ℕ, ◌≤◌, ◌<◌, ◌≡◌, refl, sym, ap, ◌∙◌, false, not, some, List, [], ◌∷◌, ◌++◌, arith, ◌==◌, length,
  append-nil,
}
use echoserver.Prelude.Syscall.{Syscall}
use echoserver.Buffer.{readable_bytes}
use echoserver.Buffer.Invariant.{contents}
use echoserver.Handler.{has, epollout}
use echoserver.Connection.{connected}
use echoserver.Connection.Transfers.{readable-length}
use echoserver.EventLoop.{lookup}
use echoserver.Peer.{Peer}
use echoserver.Peer.Honest.{Small}
use echoserver.Peer.Exact.{Faithful}
use echoserver.System.{System, loop_at}
use echoserver.System.Steps.{Reach}
use echoserver.System.Echoing.{IsStart, start-Phase, Reach-Phase, phase-Faithful}
use echoserver.System.Draining.{Drained, granted, writable_rounds, rounds-Drained}

-- A client that is still connected and has these bytes back, and whose connection polls EPOLLOUT no
-- longer.
pub record HasBack (name : ℕ) (bytes : List ℕ) (s : System) : Type 0 where
  pub peer : Peer
  pub found : lookup name s.peers ≡ some peer
  pub up : peer.conn.state ≡ connected
  pub all_sent : peer.sent_back ≡ bytes
  pub rests : has peer.conn.events epollout ≡ false

nothing_left : (bytes : List ℕ) → length bytes ≡ 0 → bytes ≡ []
nothing_left [] h = refl
nothing_left (b ∷ bytes) h = absurd (omega (arith, h))

Drained-HasBack :
    (name : ℕ) (bytes : List ℕ) (s : System) → Drained name bytes s → HasBack name bytes s
Drained-HasBack name bytes s d =
    let f : Faithful d.peer = d.draining.faithful in
    let size : readable_bytes d.peer.conn.output_buffer ≡ 0 =
      readable-length f.serving.output.valid ∙ d.none_waits in
    record {
      peer = d.peer;
      found = d.found;
      up = d.draining.up;
      all_sent =
          sym (append-nil d.peer.sent_back)
          ∙ ap (λ (more : List ℕ). d.peer.sent_back ++ more)
              (sym (nothing_left (contents d.peer.conn.output_buffer) d.none_waits))
          ∙ f.order
          ∙ d.same_received;
      rests = f.serving.output.waiting ∙ ap (λ (n : ℕ). not (n == 0)) size;
    }

-- What waits is sent. In a state that the server reaches from its start: where a client's connection
-- is connected, has met no EPIPE and no ECONNRESET, and its handler is in the loop of a worker that
-- has no tasks, let that worker go on with as many rounds in which `epoll_wait` reports EPOLLOUT for
-- it as bytes wait for the client, or more, and let `send` take at least one byte, where one waits,
-- in each. Then the client has back every byte that it sent, in order, it is still connected, and its
-- connection does not poll EPOLLOUT any more. That holds for a client that sends fewer bytes than the
-- size limit of the buffers.
pub waiting_is_delivered :
    {s t : System} (name i fd : ℕ) {p : Peer} (ns : List ℕ) (later : List (Syscall ℕ))
    → IsStart s
    → Reach s t
    → 0 < name
    → lookup name t.peers ≡ some p
    → p.conn.state ≡ connected
    → p.faults ≡ 0
    → Small p
    → lookup fd (loop_at i t).handlers ≡ some name
    → (loop_at i t).pending_tasks ≡ []
    → p.script.replies ≡ granted ns later
    → length (contents p.conn.output_buffer) ≤ length ns
    → HasBack name p.received (writable_rounds i fd ns t)
waiting_is_delivered {s} {t} name i fd {p} ns later start r pos found up whole small registered
      no_tasks replies enough =
    let f : Faithful p =
      phase-Faithful name p t (Reach-Phase name (start-Phase name s start pos) r) found up whole
        small in
    Drained-HasBack name p.received (writable_rounds i fd ns t) (
      rounds-Drained name i fd ns later p t pos
        (record { found = found; registered = registered; no_tasks = no_tasks })
        (record { up = up; whole = whole; small = small; faithful = f }) replies enough)
