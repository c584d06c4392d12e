-- ===== src/Reactor/Direct/Same.antt =====
-- The loop with the pool and the functors answers as the direct loop does, one event at a time.
use echoserver.Prelude.{
  ℕ, ◌≡◌, ◌≢◌, refl, sym, ◌∙◌, Bool, true, false, Bool-cases, none, some, Option-cases, inl, inr,
  List, [], ◌∷◌, ◌==◌, if◌then◌else◌, arith,
}
use mathlib.Core.Path.{subst}
use echoserver.EventLoop.{lookup}
use echoserver.Reactor.SocketIo.{returns, runs_on, overruns}
use echoserver.Reactor.TcpConnection.{TcpConnection, send, receive, is_closed}
use echoserver.Reactor.EventLoop as Pooled
use echoserver.Reactor.EventLoop.{
  Functor, Loop, remove, insert, update, run_in_loop, run_functor, run_functors, process,
  receive_task, wakeup, do_pending_functors, handle_read,
}
use echoserver.Reactor.EventLoop.Dispatch as Dispatch
use echoserver.Reactor.EventLoop.Dispatch.{Ready, Done, after_receive, nothing_done}
use echoserver.Reactor.EventLoop.Conns.{lookup-update, update-update}
use echoserver.Reactor.Direct.{
  DirectLoop, add_epoll_read_event, del_epoll_read_event, handle_new_connection, handle_message,
  echo, run_callbacks, dispatch, dispatch_all,
}

-- What the loop of Reactor_v4 is without its eventfd and its functors.
abbrev pub direct : Loop → DirectLoop
direct l = record {
  acceptor_fd = l.acceptor_fd;
  is_looping = l.is_looping;
  conns = l.conns;
  watched = remove l.event_fd l.watched;
}

abbrev pub process_all : List Functor → Loop → Loop
process_all [] l = l
process_all (task ∷ tasks) l = process_all tasks (process task l)

-- An event, then the pool processes what it has given, then the loop wakes up.
-- What is done, then the pool processes the tasks, then the loop wakes up.
unfoldable pub finish : Done → Bool × Loop
unfolding process do_pending_functors handle_read
finish first =
    let (alive, l') = do_pending_functors (handle_read (process_all first.tasks first.loop)) in
    if first.goes_on then (alive, l') else (false, first.loop)

unfoldable pub answer_all : List Ready → Loop → Bool × Loop
unfolding finish
answer_all [] l = (true, l)
answer_all (r ∷ rs) l =
    let (goes_on, l') = finish (Dispatch.dispatch r l) in
    let later = answer_all rs l' in if goes_on then later else (false, l')

remove-remove : (k fd : ℕ) (xs : List ℕ) → remove k (remove fd xs) ≡ remove fd (remove k xs)
remove-remove k fd [] = refl
remove-remove k fd (x ∷ xs) = ground (arith, remove-remove k fd xs)

-- Both loops go on or not, and are in the same state; no functor waits, and the eventfd stays.
abbrev Same : Loop → Bool × Loop → Bool × DirectLoop → Type 0
Same l (g, l') (h, d) =
    (g ≡ h) × (direct l' ≡ d) × (l'.pending_functors ≡ []) × (l'.event_fd ≡ l.event_fd)

nothing-Same :
    (l : Loop) → l.pending_functors ≡ [] → Same l (finish (nothing_done l)) (true, direct l)
unfolding nothing_done finish handle_read do_pending_functors run_functors
nothing-Same l e = rw e (refl, refl, refl, refl)

-- The task that `receive` has given is processed, and the message goes out on its connection.
sent-Same :
    (fd : ℕ) (message : List ℕ) (c' c : TcpConnection) (l : Loop)
    → lookup fd l.conns ≡ some c
    → l.pending_functors ≡ []
    → Same l
        (finish (
          after_receive
            (some (record { conn = fd; message = message }))
            (record l { conns = update fd c' l.conns })))
        (true, record (direct l) { conns = update fd (send message c') l.conns })
unfolding finish after_receive process run_in_loop wakeup handle_read do_pending_functors
    run_functors run_functor
sent-Same fd message c' c l e idle = rw (idle) (
    rw (run_functor, lookup-update fd c' c l.conns e)
      (rw (update-update fd c' (send message c') l.conns) (refl, refl, refl, refl)))

receive-Same :
    (fd : ℕ) (c : TcpConnection) (l : Loop)
    → lookup fd l.conns ≡ some c
    → l.pending_functors ≡ []
    → let (task, l') = receive_task fd l in
      Same l (finish (after_receive task l')) (echo fd (direct l))
unfolding receive_task echo
receive-Same fd c l e idle =
    rw (receive_task, echo, e)
      (elim (receive c).0
        as (λ o.
          Same l
            (finish (
              after_receive
                (elim o [
                  | returns ↦ some (record { conn = fd; message = (receive c).1 })
                  | _ ↦ none
                ])
                (record l { conns = update fd (receive c).2 l.conns })))
            (elim o [
              | returns ↦ (
                true,
                record (direct l) { conns = update fd (send (receive c).1 (receive c).2) l.conns },
              )
              | _ ↦ (false, record (direct l) { conns = update fd (receive c).2 l.conns })
            ])) [
              | returns ↦ sent-Same fd (receive c).1 (receive c).2 c l e idle
              | runs_on ↦ (unfold finish after_receive in (refl, refl, idle, refl))
              | overruns ↦ (unfold finish after_receive in (refl, refl, idle, refl))
            ])

-- A descriptor that `accept` gives, and one that a message comes on, are not the eventfd.
abbrev pub Apart : Ready → ℕ → Type 0
Apart r event = (r.fd ≢ event) × (r.accepted ≢ event)

remove_others :
    (k fd : ℕ) (added : Bool) (xs : List ℕ)
    → fd ≢ k
    → remove k (if added then fd ∷ xs else xs) ≡ (if added then fd ∷ remove k xs else remove k xs)
remove_others k fd added xs h = ground arith

remove_same :
    (k fd : ℕ) (removed : Bool) (xs : List ℕ)
    → remove k (if removed then remove fd xs else xs)
      ≡ (if removed then remove fd (remove k xs) else remove k xs)
remove_same k fd removed xs = ground (arith, remove-remove k fd xs)

connect-Same :
    (r : Ready) (l : Loop)
    → Apart r l.event_fd
    → l.pending_functors ≡ []
    → r.fd == l.acceptor_fd ≡ true
    → Same l (finish (Dispatch.dispatch r l)) (dispatch r (direct l))
unfolding Dispatch.dispatch Dispatch.run_callbacks nothing_done Pooled.handle_new_connection
    Pooled.add_epoll_read_event finish handle_read do_pending_functors run_functors dispatch
    run_callbacks handle_new_connection add_epoll_read_event
connect-Same r l apart idle at = elim (Bool-cases r.controlled) [
  | inl watched ↦
      rw (at, idle, watched)
        (rw (remove_others l.event_fd r.accepted true l.watched apart.1) (refl, refl, refl, refl))
  | inr unwatched ↦ rw (at, idle, unwatched) (refl, refl, refl, refl)
]

-- A handler that gives no task leaves nothing to finish.
nothing_left :
    (l l' : Loop) (d : DirectLoop)
    → l'.pending_functors ≡ []
    → l'.event_fd ≡ l.event_fd
    → direct l' ≡ d
    → Same l (finish (nothing_done l')) (true, d)
nothing_left l l' d idle event e =
    let (a, b, c, f) = nothing-Same l' idle in (a, b ∙ e, c, f ∙ event)

message-Same :
    (r : Ready) (l : Loop)
    → Apart r l.event_fd
    → l.pending_functors ≡ []
    → r.fd == l.acceptor_fd ≡ false
    → Same l (finish (Dispatch.dispatch r l)) (dispatch r (direct l))
unfolding Dispatch.dispatch Dispatch.run_callbacks Pooled.handle_message Pooled.del_epoll_read_event
    dispatch run_callbacks handle_message del_epoll_read_event
message-Same r l apart idle at =
    let other : r.fd == l.event_fd ≡ false = ground (arith, apart.0) in
    rw at (
      rw other (elim (Option-cases (lookup r.fd l.conns)) [
        | inl e ↦ rw (Pooled.handle_message, handle_message, e) (nothing-Same l idle)
        | inr (c, e) ↦ elim (Bool-cases (is_closed c).0) [
          | inl closed ↦
              rw (Pooled.handle_message, handle_message, e, closed)
                (elim (Bool-cases r.controlled) [
                  | inl gone ↦
                      rw (Pooled.del_epoll_read_event, del_epoll_read_event, gone)
                        (nothing_left l _ _ idle refl
                          (rw (remove-remove l.event_fd r.fd l.watched) refl))
                  | inr kept ↦
                      rw (Pooled.del_epoll_read_event, del_epoll_read_event, kept)
                        (nothing_left l _ _ idle refl refl)
                ])
          | inr still ↦
              rw (Pooled.handle_message, handle_message, e, still)
                (receive-Same r.fd (is_closed c).1
                  (record l { conns = update r.fd (is_closed c).1 l.conns })
                  (lookup-update r.fd (is_closed c).1 c l.conns e) idle)
        ]
      ]))

event-Same :
    (r : Ready) (l : Loop)
    → Apart r l.event_fd
    → l.pending_functors ≡ []
    → Same l (finish (Dispatch.dispatch r l)) (dispatch r (direct l))
event-Same r l apart idle = elim (Bool-cases (r.fd == l.acceptor_fd)) [
  | inl new ↦ connect-Same r l apart idle new
  | inr old ↦ message-Same r l apart idle old
]

abbrev pub AllApart : List Ready → ℕ → Type 0
AllApart [] event = Unit {0}
AllApart (r ∷ rs) event = Apart r event × AllApart rs event

-- Reactor_v4 answers as Reactor_v3 does. For any events on the listening socket and on connections,
-- from a state without pending functors, where after each event the pool processes its task and the
-- loop then wakes up, the loop with the pool ends in the state of the direct loop after the same
-- events, with the same bytes sent on every connection, and one goes on exactly if the other does.
pub answer_all_is_direct :
    (rs : List Ready) (l : Loop)
    → AllApart rs l.event_fd
    → l.pending_functors ≡ []
    → ((answer_all rs l).0 ≡ (dispatch_all rs (direct l)).0)
      × (direct (answer_all rs l).1 ≡ (dispatch_all rs (direct l)).1)
unfolding answer_all dispatch_all
answer_all_is_direct [] l apart idle = (refl, refl)
answer_all_is_direct (r ∷ rs) l (apart, rest) idle =
    let (g, e, idle', event) = event-Same r l apart idle in
    let l' : Loop = (finish (Dispatch.dispatch r l)).1 in
    rw (sym g, sym e)
      (elim (Bool-cases (finish (Dispatch.dispatch r l)).0) [
        | inl on ↦ rw on (answer_all_is_direct rs l' (subst (AllApart rs) (sym event) rest) idle')
        | inr halted ↦ rw halted (refl, refl)
      ])
