-- ===== src/Reactor/Server/Wakeup.antt =====
-- No functor is left waiting: the eventfd wakes the loop up.
use echoserver.Prelude.{◌≡◌, ◌≢◌, ◌<◌, refl, Bool, true, false, ◌⊎◌, inl, inr, [], arith, ap}
use echoserver.Reactor.EventLoop.{Loop, unloop, wakeup, handle_read, run_functor}
use echoserver.Reactor.EventLoop.Dispatch.{dispatch}
use echoserver.Reactor.Server.{
  Phase, polling, taking, Server, serve, Step, tests, polls, handles, reads, takes, runs, has_run,
  ends_round, processes, signals, unloops, Reach, here, next,
}
use echoserver.Reactor.Server.Keeping.{Keeps, dispatch-Keeps, run_functor-Keeps}

abbrev is_taking : Phase → Bool
is_taking (taking rs) = true
is_taking _ = false

-- A pending functor has a signal that is not read, a thread that is about to write one, or an I/O
-- thread that is about to take it.
abbrev NoneLost : Server → Type 0
NoneLost s =
    (s.loop.pending_functors ≡ [])
    ⊎ ((0 < s.loop.signals) ⊎ ((is_taking s.phase ≡ true) ⊎ (0 < s.posting)))

Keeps-NoneLost :
    (s : Server) (l : Loop) (p : Phase)
    → Keeps s.loop l
    → is_taking s.phase ≡ false
    → NoneLost s
    → (l.pending_functors ≡ []) ⊎ ((0 < l.signals) ⊎ ((is_taking p ≡ true) ⊎ (0 < s.posting)))
Keeps-NoneLost s l p k e h = ground (arith, k)

Step-NoneLost : {s t : Server} → Step s t → NoneLost s → NoneLost t
unfolding handle_read wakeup unloop
Step-NoneLost (tests e) h = ground (arith, ap is_taking e)
Step-NoneLost (polls rs e) h = ground (arith, ap is_taking e)
Step-NoneLost {s} (handles r rs e k) h =
    Keeps-NoneLost s (dispatch r s.loop).loop _ (dispatch-Keeps r s.loop k) (ap is_taking e) h
Step-NoneLost (reads r rs e k) h = inr (inr (inl refl))
Step-NoneLost (takes rs e) h = inl refl
Step-NoneLost {s} (runs f fs rs e) h =
    Keeps-NoneLost s (run_functor f s.loop).1 _ (run_functor-Keeps f s.loop) (ap is_taking e) h
Step-NoneLost (has_run rs e) h = ground (arith, ap is_taking e)
Step-NoneLost (ends_round e) h = ground (arith, ap is_taking e)
Step-NoneLost (processes before after f e) h = inr (inr (inr (omega arith)))
Step-NoneLost (signals n e) h = inr (inl (omega arith))
Step-NoneLost unloops h = h

Reach-NoneLost : {s t : Server} → NoneLost s → Reach s t → NoneLost t
Reach-NoneLost h here = h
Reach-NoneLost h (next r step) = Step-NoneLost step (Reach-NoneLost h r)

-- In every order of steps from the start of the loop: when the I/O thread waits in `epoll_wait` with
-- a functor pending and no thread is still to write to the eventfd, the eventfd is readable.
pub functor_is_signalled :
    (l : Loop) (s : Server)
    → l.pending_functors ≡ []
    → Reach (serve l) s
    → s.phase ≡ polling
    → s.posting ≡ 0
    → s.loop.pending_functors ≢ []
    → 0 < s.loop.signals
functor_is_signalled l s idle r p q pending =
    ground (arith, Reach-NoneLost (inl idle) r, ap is_taking p)
