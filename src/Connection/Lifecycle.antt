-- ===== src/Connection/Lifecycle.antt =====
-- The states that a `Connection` goes through, and what closing it does.
use echoserver.Prelude.{
  ℕ, suc, ◌+◌, ◌≡◌, ◌≢◌, refl, ◌⊎◌, Bool, true, false, List, [], ◌∷◌, ◌++◌, arith, if◌then◌else◌,
}
use echoserver.Prelude.Syscall.{Syscall}
use echoserver.Connection.{
  ConnectionState, connecting, connected, disconnecting, disconnected, Connection, Effect, sends,
  shuts_down_write, adds_handler, updates_handler, removes_handler, calls_close, calls_error, posts,
  sends_in_loop, shuts_down_in_loop, force_closes_in_loop, M, ◌>>◌, after, effects,
}
use echoserver.Connection.Operations.{
  handle_close, handle_error, handle_read, handle_write, send, send_in_loop, shutdown,
  shutdown_in_loop, force_close, force_close_in_loop, destroy_connection, destroy_in_loop,
  finish_writing,
}

-- How the state may change once the connection is established.
abbrev pub Moves : ConnectionState → ConnectionState → Type 0
Moves s t = (t ≡ s) ⊎ (((s ≡ connected) × (t ≡ disconnecting)) ⊎ (t ≡ disconnected))

-- The operations that other components and threads call, and the handlers of events; all but
-- `establishConnection`, which the server calls once, when it has made the connection.
pub data Call : Type 0 where
  reads : Syscall (List ℕ) → Call
  writes : Syscall ℕ → Call
  closes_by_peer : Call
  has_error : Call
  sends_data : Bool → List ℕ → Syscall ℕ → Call
  shuts_down : Bool → Call
  forces_close : Bool → Call
  runs_shutdown : Call
  runs_force_close : Call
  is_destroyed : Bool → Call
  runs_destroy : Call

-- A message callback and a write-complete callback that do nothing to the connection.
abbrev pub idle : M (Unit {0})
idle c = (tt, c, [])

unfoldable pub act : Call → M (Unit {0})
act (reads answer) = handle_read idle answer
act (writes answer) = handle_write idle answer
act closes_by_peer = handle_close
act has_error = handle_error
act (sends_data in_loop bytes answer) = send idle in_loop bytes answer
act (shuts_down in_loop) = shutdown in_loop
act (forces_close in_loop) = force_close in_loop
act runs_shutdown = shutdown_in_loop
act runs_force_close = force_close_in_loop
act (is_destroyed in_loop) = destroy_connection in_loop
act runs_destroy = destroy_in_loop

-- Every operation and handler leaves the state, or moves it from connected to disconnecting, or to
-- disconnected.
pub act-Moves : (call : Call) (c : Connection) → Moves c.state (after (act call) c).state
unfolding act
act-Moves (reads answer) c = unfold handle_read handle_close handle_error in ground arith
act-Moves (writes answer) c = unfold handle_write finish_writing shutdown_in_loop in ground arith
act-Moves closes_by_peer c = unfold handle_close in ground arith
act-Moves has_error c = unfold handle_error in ground arith
act-Moves (sends_data in_loop bytes answer) c = unfold send in ground arith
act-Moves (shuts_down in_loop) c = unfold shutdown in ground arith
act-Moves (forces_close in_loop) c = unfold force_close in ground arith
act-Moves runs_shutdown c = unfold shutdown_in_loop in ground arith
act-Moves runs_force_close c = unfold force_close_in_loop in ground arith
act-Moves (is_destroyed in_loop) c = unfold destroy_connection in ground arith
act-Moves runs_destroy c = unfold destroy_in_loop in ground arith

unfoldable pub acts : List Call → M (Unit {0})
acts [] c = (tt, c, [])
acts (call ∷ calls) c =
    let (u, d, before) = act call c in let (v, d', later) = acts calls d in (v, d', before ++ later)

abbrev pub rank : ConnectionState → ℕ
rank connecting = 0
rank connected = 1
rank disconnecting = 2
rank disconnected = 3

-- The calls that a handler of the event loop makes.
abbrev pub is_event : Call → Bool
is_event (reads answer) = true
is_event (writes answer) = true
is_event closes_by_peer = true
is_event has_error = true
is_event _ = false

-- How often the handler is taken out of the event loop.
abbrev pub removals : List Effect → ℕ
removals [] = 0
removals (removes_handler ∷ es) = suc (removals es)
removals (_ ∷ es) = removals es

removals-append : (xs ys : List Effect) → removals (xs ++ ys) ≡ removals xs + removals ys
removals-append [] ys = omega arith
removals-append (removes_handler ∷ xs) ys = omega (arith, removals-append xs ys)
removals-append (sends b ∷ xs) ys = removals-append xs ys
removals-append (shuts_down_write ∷ xs) ys = removals-append xs ys
removals-append (adds_handler m ∷ xs) ys = removals-append xs ys
removals-append (updates_handler m ∷ xs) ys = removals-append xs ys
removals-append (calls_close ∷ xs) ys = removals-append xs ys
removals-append (calls_error ∷ xs) ys = removals-append xs ys
removals-append (posts t ∷ xs) ys = removals-append xs ys

-- On a disconnected connection no call takes the handler out of the event loop.
disconnected_call :
    (call : Call) (c : Connection) → c.state ≡ disconnected → removals (effects (act call) c) ≡ 0
unfolding act
disconnected_call (reads answer) c h = unfold handle_read handle_close handle_error in ground arith
disconnected_call (writes answer) c h =
    unfold handle_write finish_writing shutdown_in_loop in ground arith
disconnected_call closes_by_peer c h = unfold handle_close in ground arith
disconnected_call has_error c h = unfold handle_error in ground arith
disconnected_call (sends_data in_loop bytes answer) c h = unfold send in ground arith
disconnected_call (shuts_down in_loop) c h = unfold shutdown in ground arith
disconnected_call (forces_close in_loop) c h = unfold force_close in ground arith
disconnected_call runs_shutdown c h = unfold shutdown_in_loop in ground arith
disconnected_call runs_force_close c h = unfold force_close_in_loop in ground arith
disconnected_call (is_destroyed in_loop) c h = unfold destroy_connection in ground arith
disconnected_call runs_destroy c h = unfold destroy_in_loop in ground arith

disconnected_stays :
    (call : Call) (c : Connection)
    → c.state ≡ disconnected
    → (after (act call) c).state ≡ disconnected
disconnected_stays call c h = ground (arith, act-Moves call c)

disconnected_never_removed :
    (calls : List Call) (c : Connection)
    → c.state ≡ disconnected
    → removals (effects (acts calls) c) ≡ 0
unfolding acts
disconnected_never_removed [] c h = refl
disconnected_never_removed (call ∷ calls) c h = omega (
  arith,
  removals-append (effects (act call) c) (effects (acts calls) (after (act call) c)),
  disconnected_call call c h,
  disconnected_never_removed calls (after (act call) c) (disconnected_stays call c h),
)

closing_removes_nothing : (c : Connection) → removals (effects (act closes_by_peer) c) ≡ 0
unfolding act handle_close
closing_removes_nothing c = ground arith

closing_disconnects : (c : Connection) → (after (act closes_by_peer) c).state ≡ disconnected
unfolding act handle_close
closing_disconnects c = ground arith

-- A connection that its peer has closed is not taken out of the event loop: neither `handleClose` nor
-- any calls and events after it, `destroyConnection` among them, remove the handler, whatever state
-- the connection was in. `establishConnection` is not among these calls: the server calls it once,
-- before any event.
pub closed_never_removed :
    (calls : List Call) (c : Connection) → removals (effects (acts (closes_by_peer ∷ calls)) c) ≡ 0
unfolding acts
closed_never_removed calls c = omega (
  arith,
  removals-append (effects (act closes_by_peer) c)
      (effects (acts calls) (after (act closes_by_peer) c)),
  closing_removes_nothing c,
  disconnected_never_removed calls (after (act closes_by_peer) c) (closing_disconnects c),
)

-- `forceClose` in the loop's thread closes a connection that is up or shutting down: it is
-- disconnected, it is interested in no event, and the close callback is called once, if it is set.
pub force_close_lem :
    (c : Connection)
    → (c.state ≡ connected) ⊎ (c.state ≡ disconnecting)
    → force_close true c ≡ (
      tt,
      record c { state = disconnected; events = 0 },
      if c.close_callback then calls_close ∷ [] else [],
    )
unfolding force_close
force_close_lem c h = ground arith

-- A connected connection that is destroyed twice in the loop's thread is taken out of the loop and
-- reported as closed once, if the close callback is set.
pub destroy_twice :
    (c : Connection)
    → c.state ≡ connected
    → effects (destroy_connection true >> destroy_connection true) c
      ≡ removes_handler ∷ (if c.close_callback then calls_close ∷ [] else [])
unfolding destroy_connection
destroy_twice c h = ground arith

-- From another thread than the loop's, `send`, `shutdown` and `forceClose` on a connection that is
-- up touch neither the buffers nor the socket: they post one task.
pub cross_thread_posts :
    (c : Connection) (bytes : List ℕ) (answer : Syscall ℕ)
    → c.state ≡ connected
    → (send idle false bytes answer c ≡ (tt, c, posts (sends_in_loop bytes) ∷ []))
      × (shutdown false c ≡ (tt, record c { state = disconnecting }, posts shuts_down_in_loop ∷ []))
      × (force_close false c
          ≡ (tt, record c { state = disconnecting }, posts force_closes_in_loop ∷ []))
unfolding send shutdown force_close
cross_thread_posts c bytes answer h = (ground arith, ground arith, ground arith)

-- Between the call and the task the connection may leave the connected state; then the bytes of a
-- posted `send` are dropped.
pub send_too_late :
    (c : Connection) (bytes : List ℕ) (answer : Syscall ℕ)
    → c.state ≢ connected
    → send_in_loop idle bytes answer c ≡ (tt, c, [])
unfolding send_in_loop
send_too_late c bytes answer h = ground arith
