-- ===== src/Reactor/EventLoop/Watched.antt =====
-- What epoll watches, and a message that outlives its connection.
use echoserver.Prelude.{
  ℕ, ◌≡◌, ◌≢◌, refl, ap, Bool, true, false, ◌||◌, Option, none, some, List, [], ◌∷◌, arith, ◌==◌,
  inl, inr, Bool-cases, Option-cases, if◌then◌else◌,
}
use echoserver.EventLoop.{lookup, erase}
use echoserver.EventLoop.Handlers.{lookup-erase}
use echoserver.Reactor.TcpConnection.{TcpConnection, is_closed, send, receive}
use echoserver.Reactor.EventLoop.{
  Functor, Loop, contains, remove, insert, update, add_epoll_read_event, del_epoll_read_event,
  handle_new_connection, handle_message, run_functor, run_functors, do_pending_functors,
  receive_task, process, run_in_loop, wakeup,
}

abbrev pub is_there : Option TcpConnection → Bool
is_there none = false
is_there (some c) = true

-- epoll watches the listening socket, the eventfd, and the connections.
abbrev pub Watches : Loop → Type 0
Watches l =
    (fd : ℕ)
    → contains fd l.watched
      ≡ (fd == l.acceptor_fd || (fd == l.event_fd || is_there (lookup fd l.conns)))

contains-remove :
    (k fd : ℕ) (xs : List ℕ)
    → contains fd (remove k xs) ≡ (if k == fd then false else contains fd xs)
contains-remove k fd [] = ground arith
contains-remove k fd (x ∷ xs) = ground (arith, contains-remove k fd xs)

is_there-update :
    (k fd : ℕ) (c : TcpConnection) (conns : List (ℕ × TcpConnection))
    → is_there (lookup fd (update k c conns)) ≡ is_there (lookup fd conns)
is_there-update k fd c [] = refl
is_there-update k fd c ((key, old) ∷ conns) = ground (arith, is_there-update k fd c conns)

-- What happens to the loop, where `epoll_ctl` succeeds, the kernel gives new connections a
-- descriptor that is not in use, and messages come on connections.
pub data Event : Type 0 where
  connects : ℕ → TcpConnection → Event
  sends_message : ℕ → Event
  receives_task : ℕ → Event
  processes : Functor → Event
  runs_functors : Event

unfoldable pub happen : Event → Loop → Loop
happen (connects fd c) l = (handle_new_connection true fd c l).1
happen (sends_message fd) l = (handle_message true fd l).1
happen (receives_task fd) l = (receive_task fd l).1
happen (processes f) l = process f l
happen runs_functors l = (do_pending_functors l).1

abbrev pub Fits : Event → Loop → Type 0
Fits (connects fd c) l = contains fd l.watched ≡ false
Fits (sends_message fd) l = (fd ≢ l.acceptor_fd) × (fd ≢ l.event_fd)
Fits _ l = Unit {0}

run_functor-Watches : (f : Functor) (l : Loop) → Watches l → Watches (run_functor f l).1
unfolding run_functor
run_functor-Watches f l h d = elim (Option-cases (lookup f.conn l.conns)) [
  | inl e ↦ rw (run_functor, e) (h d)
  | inr (c, e) ↦
      rw (run_functor, e) (ground (arith, h d, is_there-update f.conn d (send f.message c) l.conns))
]

run_functors-Watches : (fs : List Functor) (l : Loop) → Watches l → Watches (run_functors fs l).1
unfolding run_functors
run_functors-Watches [] l h = h
run_functors-Watches (f ∷ fs) l h =
    run_functors-Watches fs (run_functor f l).1 (run_functor-Watches f l h)

-- Where epoll watches exactly the listening socket, the eventfd and the connections, every event
-- keeps that, as long as `epoll_ctl` succeeds, a new connection gets a descriptor that is not
-- watched, and messages come on other descriptors than the first two.
pub happen-Watches : (e : Event) (l : Loop) → Fits e l → Watches l → Watches (happen e l)
unfolding happen
happen-Watches (connects fd c) l f h d =
    unfold handle_new_connection insert add_epoll_read_event in ground (arith, h d, h fd)
happen-Watches (sends_message fd) l f h d =
    unfold handle_message del_epoll_read_event in
    elim (Option-cases (lookup fd l.conns)) [
      | inl e ↦ rw (happen, handle_message, e) (h d)
      | inr (c, e) ↦
          let c' : TcpConnection = (is_closed c).1 in
          elim (Bool-cases (is_closed c).0) [
            | inl closed ↦
                rw (happen, handle_message, e, closed)
                  (ground (
                    arith,
                    h d,
                    contains-remove fd d l.watched,
                    ap is_there (lookup-erase fd d (update fd c' l.conns)),
                    is_there-update fd d c' l.conns,
                  ))
            | inr still ↦
                rw (happen, handle_message, e, still)
                  (ground (arith, h d, is_there-update fd d c' l.conns))
          ]
    ]
happen-Watches (receives_task fd) l f h d =
    unfold receive_task in
    elim (Option-cases (lookup fd l.conns)) [
      | inl e ↦ rw (happen, receive_task, e) (h d)
      | inr (c, e) ↦
          rw (happen, receive_task, e)
            (ground (arith, h d, is_there-update fd d (receive c).2 l.conns))
    ]
happen-Watches (processes f) l u h d = unfold process in h d
happen-Watches runs_functors l f h d =
    unfold do_pending_functors in
    run_functors-Watches l.pending_functors (record l { pending_functors = [] }) h d

erased : (fd : ℕ) (conns : List (ℕ × TcpConnection)) → lookup fd (erase fd conns) ≡ none
erased fd conns = ground (arith, lookup-erase fd fd conns)

-- A task that the pool has processed leaves its message with a bare pointer to the connection. Where
-- no other message waits and the loop finds the connection closed before it reads the eventfd, the
-- connection is gone when the message is sent.
pub message_outlives_connection :
    (fd : ℕ) (message : List ℕ) (conn : TcpConnection) (l : Loop)
    → lookup fd l.conns ≡ some conn
    → (is_closed conn).0 ≡ true
    → l.pending_functors ≡ []
    → let task : Functor = record { conn = fd; message = message } in
      let closed = (handle_message true fd (process task l)).1 in
      (do_pending_functors closed).0 ≡ false
unfolding process run_in_loop wakeup handle_message del_epoll_read_event do_pending_functors
    run_functors run_functor
message_outlives_connection fd message conn l e closed idle =
    rw (handle_message, e, closed, idle)
      (rw (run_functor, erased fd (update fd (is_closed conn).1 l.conns)) refl)
