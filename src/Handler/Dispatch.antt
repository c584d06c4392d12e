-- ===== src/Handler/Dispatch.antt =====
-- Which callbacks `EventHandler::handleEvents` calls, and in what order.
use echoserver.Prelude.{
  ℕ, ◌+◌, ◌≤◌, ◌≡◌, Bool, true, false, not, ◌&&◌, List, [], ◌∷◌, arith, if◌then◌else◌,
}
use echoserver.Handler.{
  EventHandler, Callback, on_close, on_error, on_read, on_write, has, epollin, epollerr, epollhup,
  epollout, handle_events,
}

abbrev same : Callback → Callback → Bool
same on_close on_close = true
same on_error on_error = true
same on_read on_read = true
same on_write on_write = true
same _ _ = false

-- How often a callback is called.
abbrev pub calls : Callback → List Callback → ℕ
calls c [] = 0
calls c (d ∷ ds) = (if same c d then 1 else 0) + calls c ds

abbrev pub one_if : Bool → ℕ
one_if b = if b then 1 else 0

-- The peer has hung up and nothing is left to read.
abbrev pub hung_up : ℕ → Bool
hung_up events = has events epollhup && not (has events epollin)

-- Each callback is called at most once, and only if it is set: close exactly on a hang-up with
-- nothing to read, the others exactly on their events where that is not so.
pub handle_events-calls :
    (h : EventHandler) (events : ℕ)
    → let cs = handle_events h events in
      (calls on_close cs ≡ one_if (hung_up events && h.close_callback))
      × (calls on_error cs
          ≡ one_if (not (hung_up events) && (has events epollerr && h.error_callback)))
      × (calls on_read cs ≡ one_if (not (hung_up events) && (has events 0x2003 && h.read_callback)))
      × (calls on_write cs
          ≡ one_if (not (hung_up events) && (has events epollout && h.write_callback)))
unfolding handle_events
handle_events-calls h events = (ground arith, ground arith, ground arith, ground arith)

abbrev pub rank : Callback → ℕ
rank on_close = 0
rank on_error = 1
rank on_read = 2
rank on_write = 3

abbrev pub IsOrdered : ℕ → List Callback → Type 0
IsOrdered n [] = Unit {0}
IsOrdered n (c ∷ cs) = (n ≤ rank c) × IsOrdered (rank c) cs

-- Errors are handled before what can be read, and that before writing.
pub handle_events-IsOrdered : (h : EventHandler) (events : ℕ) → IsOrdered 0 (handle_events h events)
unfolding handle_events
handle_events-IsOrdered h events = ground arith
