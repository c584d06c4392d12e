-- ===== src/Reactor/TcpServer/Ending.antt =====
-- What the end of a connection asks of the kernel.
use echoserver.Prelude.{ℕ, zero, suc, ◌≡◌, List, [], ◌∷◌, ◌++◌, arith, if◌then◌else◌}
use echoserver.Reactor.TcpConnection.{TcpConnection, shutdown}
use echoserver.Reactor.TcpServer.{Call, shuts_down, closes, shutdown_on, destroy}

-- `shutdown` a number of times, and then the destructors.
unfoldable pub shut_and_destroy : ℕ → ℕ → TcpConnection → List Call
unfolding shutdown_on destroy
shut_and_destroy zero fd c = destroy fd c
shut_and_destroy (suc n) fd c =
    let (calls, c') = shutdown_on fd c in calls ++ shut_and_destroy n fd c'

-- However often a connection is shut down before it is destroyed, its write side is shut down
-- exactly once, if it had not been before, and then its descriptor is closed, once.
pub ends_once :
    (n fd : ℕ) (c : TcpConnection)
    → shut_and_destroy n fd c
      ≡ (if c.is_shutdown_write then closes fd ∷ [] else shuts_down fd ∷ closes fd ∷ [])
unfolding shut_and_destroy destroy shutdown_on shutdown
ends_once zero fd c = ground arith
ends_once (suc n) fd c = ground (arith, ends_once n fd (shutdown_on fd c).1)
