-- ===== src/Reactor/TcpConnection/Echo.antt =====
-- A line that is received and sent back.
use echoserver.Prelude.{
  ℕ, ◌*◌, ◌-◌, ◌≤◌, ◌≡◌, sym, ap, ◌∙◌, List, [], ◌∷◌, ◌++◌, arith, length, take,
}
use echoserver.Reactor.SocketIo.{returns, Progress, first_line, readline}
use echoserver.Reactor.SocketIo.Reading.{served, failures}
use echoserver.Reactor.SocketIo.Writing.{writen_full}
use echoserver.Reactor.SocketIo.Lines.{Reads, readline_lem}
use echoserver.Reactor.SocketIo.FirstLine.{Ready}
use echoserver.Prelude.Bytes.{c_string}
use echoserver.Reactor.TcpConnection.{TcpConnection, buffer_size, receive, send}

-- The next line of what the peer sends, with its newline, or as much of it as the buffer holds.
abbrev pub next_line : TcpConnection → List ℕ
next_line c = (first_line (take (buffer_size - 1) c.incoming)).0

-- The kernel answers often enough in both directions, without failures, and a line is to come.
pub record Healthy (c : TcpConnection) : Type 0 where
  pub receives : failures c.recv_script ≡ 0
  pub enough : 2 * length (next_line c) ≤ served c.recv_script
  pub ready : Ready (buffer_size - 1) c.incoming
  pub sends : failures c.send_script ≡ 0
  pub room : length (next_line c) ≤ served c.send_script

c_string_shorter : (bs : List ℕ) → length (c_string bs) ≤ length bs
unfolding c_string
c_string_shorter [] = omega arith
c_string_shorter (b ∷ bs) = ground (arith, c_string_shorter bs)

received_Reads :
    (c : TcpConnection)
    → Healthy c
    → Reads
        (buffer_size - 1)
        c.incoming
        (readline (buffer_size - 1) (buffer_size - 1) c.recv_script c.incoming)
received_Reads c h =
    readline_lem (buffer_size - 1) (buffer_size - 1) c.recv_script c.incoming (omega arith)
      h.receives h.enough h.ready

-- On a connection whose kernel answers often enough and without failures, where a line is to come,
-- `receive` returns, and sending back what it returns sends the line, up to its first NUL; what the
-- peer sent behind the line is left for the next call.
pub echo_line :
    (c : TcpConnection)
    → Healthy c
    → let (outcome, message, received) = receive c in
      (outcome ≡ returns)
      × ((send message received).sent ≡ c.sent ++ c_string (next_line c))
      × (next_line c ++ (send message received).incoming ≡ c.incoming)
unfolding receive send
echo_line c h =
    let p : Progress = readline (buffer_size - 1) (buffer_size - 1) c.recv_script c.incoming in
    let r : Reads (buffer_size - 1) c.incoming p = received_Reads c h in
    let short : length (c_string p.moved) ≤ served c.send_script =
      omega (arith, c_string_shorter p.moved, ap length r.line, h.room) in
    (
      r.ends,
      ap (◌++◌ c.sent)
          ((writen_full (c_string p.moved) c.send_script h.sends short).1 ∙ ap c_string r.line),
      ap (λ xs. xs ++ p.left) (sym r.line) ∙ r.order,
    )
