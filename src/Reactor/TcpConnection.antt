-- ===== src/Reactor/TcpConnection.antt =====
-- wd_reactor_server/Reactor_v4/TcpConnection.cc: a connection on which whole lines are read and
-- whole messages are written.
-- A connection has the bytes that its peer sends before it closes, the bytes that were sent to it,
-- and a script of the kernel's answers for each direction. Addresses are left out.
pub mod Echo
use echoserver.Prelude.{
  ℕ, zero, suc, ◌-◌, Bool, true, false, List, [], ◌∷◌, ◌++◌, ◌==◌, if◌then◌else◌, length,
}
use echoserver.Prelude.Bytes.{c_string}
use echoserver.Reactor.SocketIo.{
  Answer, Outcome, Progress, writen, Peeked, shows, peek_fails, peek_runs_on, recv_peek, readline,
}

pub record TcpConnection : Type 0 where
  pub incoming : List ℕ
  pub recv_script : List Answer
  pub sent : List ℕ
  pub send_script : List Answer
  pub is_shutdown_write : Bool

-- `char buff[65536]`
abbrev pub buffer_size : ℕ
buffer_size = 65536

-- How the call ends, the message, and the connection.
unfoldable pub receive : TcpConnection → Outcome × List ℕ × TcpConnection
receive c =
    let p = readline (buffer_size - 1) (buffer_size - 1) c.recv_script c.incoming in
    (p.outcome, c_string p.moved, record c { incoming = p.left; recv_script = p.script })

unfoldable pub send : List ℕ → TcpConnection → TcpConnection
send message c =
    let p = writen message c.send_script in
    record c { sent = c.sent ++ p.moved; send_script = p.script }

-- Whether the write side is shut down now.
unfoldable pub shutdown : TcpConnection → Bool × TcpConnection
shutdown c =
    if c.is_shutdown_write then (false, c) else (true, record c { is_shutdown_write = true })

-- `ret == 0` behind the interrupted calls.
unfoldable pub is_closed : TcpConnection → Bool × TcpConnection
is_closed c = elim (recv_peek 20 c.recv_script c.incoming) [
  | shows peeked rest ↦ (length peeked == 0, record c { recv_script = rest })
  | peek_fails rest ↦ (false, record c { recv_script = rest })
  | peek_runs_on ↦ (false, record c { recv_script = [] })
]
