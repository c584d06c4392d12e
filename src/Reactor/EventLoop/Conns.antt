-- ===== src/Reactor/EventLoop/Conns.antt =====
-- The map of connections: a connection that was changed is found as it is now.
use echoserver.Prelude.{ℕ, ◌≡◌, refl, true, some, List, [], ◌∷◌, arith}
use echoserver.EventLoop.{lookup}
use echoserver.Reactor.TcpConnection.{TcpConnection, send}
use echoserver.Reactor.EventLoop.{Functor, Loop, update, run_functor}

pub lookup-update :
    (fd : ℕ) (c old : TcpConnection) (conns : List (ℕ × TcpConnection))
    → lookup fd conns ≡ some old
    → lookup fd (update fd c conns) ≡ some c
lookup-update fd c old [] h = absurd (ground (arith, h))
lookup-update fd c old ((key, d) ∷ conns) h = ground (arith, lookup-update fd c old conns)

pub update-update :
    (fd : ℕ) (c d : TcpConnection) (conns : List (ℕ × TcpConnection))
    → update fd d (update fd c conns) ≡ update fd d conns
update-update fd c d [] = refl
update-update fd c d ((key, old) ∷ conns) = ground (arith, update-update fd c d conns)

pub run_functor_lem :
    (f : Functor) (c : TcpConnection) (l : Loop)
    → lookup f.conn l.conns ≡ some c
    → ((run_functor f l).0 ≡ true)
      × (lookup f.conn (run_functor f l).1.conns ≡ some (send f.message c))
unfolding run_functor
run_functor_lem f c l e =
    rw (run_functor, e) (refl, lookup-update f.conn (send f.message c) c l.conns e)
