-- ===== src/System/Phases.antt =====
-- The life of a connection in the system: it is unborn, then waits for its only establishing, out of
-- reach of every event, and is open from then on.
use echoserver.Prelude.{
  ℕ, ◌+◌, ◌≤◌, ◌<◌, ◌≡◌, refl, ap, ◌∙◌, true, false, none, some, List, [], arith, length,
}
use echoserver.Buffer.{readable_bytes}
use echoserver.Buffer.Invariant.{IsValid, contents}
use echoserver.Handler.{Callback, has, epollout, enable_reading}
use echoserver.Handler.Masks.{IsInterest}
use echoserver.Connection.{connecting, Effect}
use echoserver.Connection.Operations.{establish_in_loop, destroy_in_loop}
use echoserver.Connection.Transfers.{readable-length}
use echoserver.EventLoop.{lookup}
use echoserver.Peer.{Peer, act_on, handle_callback}
use echoserver.System.{Job, System}
use echoserver.Peer.Honest.{total, Small, callback-total}
use echoserver.System.Clients.{act_on-total}
use echoserver.Peer.Exact.{Faithful, Exact, callback-Exact, destroy_state}
use echoserver.System.Births.{births, all_births, Absent}

-- A connection as its constructor leaves it.
pub record Untouched (p : Peer) : Type 0 where
  pub state : p.conn.state ≡ connecting
  pub events : p.conn.events ≡ 0
  pub echoing : p.conn.message_callback ≡ true
  pub plain : p.conn.write_complete_callback ≡ false
  pub input : IsValid p.conn.input_buffer
  pub output : IsValid p.conn.output_buffer
  pub unread : contents p.conn.input_buffer ≡ []
  pub unsent : contents p.conn.output_buffer ≡ []
  pub input_small : length p.conn.input_buffer.buffer ≤ 1032
  pub output_small : length p.conn.output_buffer.buffer ≤ 1032
  pub none_received : p.received ≡ []
  pub none_sent : p.sent_back ≡ []

-- `jobs` are the tasks that a loop has taken and not run yet.
pub record Opened (name : ℕ) (jobs : List Job) (s : System) : Type 0 where
  pub peer : Peer
  pub found : lookup name s.peers ≡ some peer
  pub no_births : births name jobs + all_births name s.loops ≡ 0
  pub exact : Small peer → Exact peer
  pub given : name < s.server.next_conn_id

pub data Phase (name : ℕ) (jobs : List Job) (s : System) : Type 0 where
  unborn :
      lookup name s.peers ≡ none
      → births name jobs + all_births name s.loops ≡ 0
      → Absent name s
      → Phase name jobs s
  waiting :
      (p : Peer)
      → lookup name s.peers ≡ some p
      → Untouched p
      → births name jobs + all_births name s.loops ≤ 1
      → Absent name s
      → name < s.server.next_conn_id
      → Phase name jobs s
  opened : Opened name jobs s → Phase name jobs s

-- What a connection may meet once it is open.
pub record KeepsExact (f : Peer → Peer × List Effect) : Type 0 where
  pub same_total : (p : Peer) → total (f p).0 ≡ total p
  pub exact : (p : Peer) → Small p → Exact p → Exact (f p).0

pub callback-KeepsExact : (callback : Callback) → KeepsExact (handle_callback callback)
callback-KeepsExact callback = record {
  same_total = callback-total callback;
  exact = callback-Exact callback;
}

destroy-Exact : (p : Peer) → Exact (act_on destroy_in_loop [] p).0
unfolding act_on
destroy-Exact p up none_lost = absurd (destroy_state p.conn up)

pub destroy-KeepsExact : KeepsExact (act_on destroy_in_loop [])
destroy-KeepsExact = record {
  same_total = act_on-total destroy_in_loop;
  exact = λ p small h. destroy-Exact p;
}

first_mask : IsInterest (enable_reading 0) × (has (enable_reading 0) epollout ≡ false)
unfolding has enable_reading
first_mask = (omega arith, refl)

-- Nothing was received when a connection is established.
pub establish-Faithful : (p : Peer) → Untouched p → Faithful (act_on establish_in_loop [] p).0
unfolding act_on establish_in_loop
establish-Faithful p u =
    let nothing : readable_bytes p.conn.output_buffer ≡ 0 =
      readable-length u.output ∙ ap length u.unsent in
    record {
      serving = record {
        up = refl;
        echoing = u.echoing;
        plain = u.plain;
        output = record {
          valid = u.output;
          interest = rw u.events first_mask.0;
          waiting = rw (u.events, nothing) first_mask.1;
        };
        input = u.input;
        handled = u.unread;
      };
      order = rw (u.none_sent, u.unsent, u.none_received) refl;
      input_small = omega (arith, u.input_small);
      output_small = omega (arith, u.output_small);
    }
