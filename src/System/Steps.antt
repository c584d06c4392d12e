-- ===== src/System/Steps.antt =====
-- The steps of the server's threads, in any order.
use echoserver.Prelude.{ℕ, ◌≡◌, List, ◌∷◌}
use echoserver.Prelude.Syscall.{Syscall}
use echoserver.EventLoop.{handle_events, run_pending}
use echoserver.Peer.{Script}
use echoserver.System.{System, host, accept, remove}

-- A round of worker `i`, with what `epoll_wait` returns.
unfoldable pub worker_round : ℕ → Syscall (List (ℕ × ℕ)) → System → System
unfolding handle_events run_pending host
worker_round i ready s = run_pending (host i) (handle_events (host i) ready s)

-- The main thread and the workers share the queues of tasks alone, so a whole round of a worker is a
-- step, and so is each task of the main loop: workers may go on between two of them.
pub data Step (s : System) : System → Type 0 where
  accepts : (fd : ℕ) (script : Script) → Step s (accept fd script s)
  removes :
      (name : ℕ) (names : List ℕ)
      → s.removals ≡ name ∷ names
      → Step s (remove name (record s { removals = names }))
  works : (i : ℕ) (ready : Syscall (List (ℕ × ℕ))) → Step s (worker_round i ready s)

pub data Reach (s : System) : System → Type 0 where
  here : Reach s s
  next : {t u : System} → Reach s t → Step t u → Reach s u
