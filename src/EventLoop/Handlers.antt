-- ===== src/EventLoop/Handlers.antt =====
-- The map of the handlers, and the stale handler of a connection that its peer has closed.
use echoserver.Prelude.{
  ℕ, ◌+◌, ◌≡◌, refl, Bool, true, false, ◌&&◌, ◌++◌, none, some, List, [], ◌∷◌, arith, ◌==◌,
  if◌then◌else◌,
}
use echoserver.Prelude.Syscall.{Syscall, done, failed}
use echoserver.EventLoop.{
  EventLoop, lookup, erase, assign, add_handler, update_handler, remove_handler, is_in_loop_thread,
  wakeup, push_task,
}
use echoserver.Connection.{
  Connection, Effect, Task, sends, shuts_down_write, adds_handler, updates_handler, removes_handler,
  calls_close, calls_error, posts, effects, establishes, destroys,
}
use echoserver.Connection.Lifecycle.{Call, closes_by_peer, acts, removals, closed_never_removed}

pub lookup-erase :
    {V : Type 0} (k j : ℕ) (m : List (ℕ × V))
    → lookup j (erase k m) ≡ (if k == j then none else lookup j m)
lookup-erase k j [] = ground arith
lookup-erase k j ((i, v) ∷ m) = ground (arith, lookup-erase k j m)

pub lookup-assign :
    {V : Type 0} (k j : ℕ) (v : V) (m : List (ℕ × V))
    → lookup j (assign k v m) ≡ (if k == j then some v else lookup j m)
lookup-assign k j v m = ground (arith, lookup-erase k j m)

-- What the event loop of a connection does on its effects in its own thread, where `epoll_ctl`
-- succeeds.
unfoldable pub on_effect : ℕ → ℕ → Effect → EventLoop Task → EventLoop Task
on_effect fd handler (adds_handler mask) l =
    add_handler l.loop_thread_id establishes fd handler (done tt) l
on_effect fd handler (updates_handler mask) l =
    update_handler l.loop_thread_id establishes (done tt) l
on_effect fd handler removes_handler l = remove_handler l.loop_thread_id destroys fd (done tt) l
on_effect fd handler _ l = l

unfoldable pub on_effects : ℕ → ℕ → List Effect → EventLoop Task → EventLoop Task
unfolding on_effect
on_effects fd handler [] l = l
on_effects fd handler (e ∷ es) l = on_effects fd handler es (on_effect fd handler e l)

abbrev pub is_done : Syscall (Unit {0}) → Bool
is_done (done u) = true
is_done (failed e) = false

-- With one handler at a descriptor, effects without a removal leave it there.
kept_handler :
    (fd handler : ℕ) (es : List Effect) (l : EventLoop Task)
    → removals es ≡ 0
    → lookup fd l.handlers ≡ some handler
    → lookup fd (on_effects fd handler es l).handlers ≡ some handler
unfolding on_effects add_handler update_handler
kept_handler fd handler [] l none_removed e = e
kept_handler fd handler (adds_handler mask ∷ es) l none_removed e =
    kept_handler fd handler es _ none_removed
      (ground (arith, lookup-assign fd fd handler l.handlers))
kept_handler fd handler (updates_handler mask ∷ es) l h e =
    kept_handler fd handler es _ h (ground arith)
kept_handler fd handler (removes_handler ∷ es) l h e = absurd (omega arith)
kept_handler fd handler (sends bytes ∷ es) l h e = kept_handler fd handler es l h e
kept_handler fd handler (shuts_down_write ∷ es) l h e = kept_handler fd handler es l h e
kept_handler fd handler (calls_close ∷ es) l h e = kept_handler fd handler es l h e
kept_handler fd handler (calls_error ∷ es) l h e = kept_handler fd handler es l h e
kept_handler fd handler (posts task ∷ es) l h e = kept_handler fd handler es l h e

-- The event loop that holds the handler of a connection still holds it after the peer has closed
-- the connection and `handleClose` and any calls and events that follow, `destroyConnection` among
-- them, have run and the loop has done what they ask of it. `establishConnection` is not among these
-- calls: the server calls it once, before any event.
pub stale_handler :
    (fd handler : ℕ) (calls : List Call) (c : Connection) (l : EventLoop Task)
    → lookup fd l.handlers ≡ some handler
    → lookup fd (on_effects fd handler (effects (acts (closes_by_peer ∷ calls)) c) l).handlers
      ≡ some handler
stale_handler fd handler calls c l e = kept_handler fd handler _ l (closed_never_removed calls c) e

-- For any loop, thread, descriptors and answer: in the loop's thread `addHandler` and
-- `removeHandler` change the entry of their own descriptor
-- alone, the first only where `epoll_ctl` succeeds. From another thread the three calls change no
-- entry: they post one task and signal the eventfd.
pub handlers_lem :
    {T : Type 0} (thread fd other handler : ℕ) (again : T) (answer : Syscall (Unit {0}))
    (l : EventLoop T)
    → let here = is_in_loop_thread thread l in
      let added = add_handler thread again fd handler answer l in
      let removed = remove_handler thread again fd answer l in
      (lookup other added.handlers ≡ (
        if here && (is_done answer && fd == other) then some handler else lookup other l.handlers))
      × (lookup other removed.handlers
          ≡ (if here && fd == other then none else lookup other l.handlers))
      × (added.signals ≡ (if here then l.signals else l.signals + 1))
      × (removed.pending_tasks
          ≡ (if here then l.pending_tasks else l.pending_tasks ++ (again ∷ [])))
      × (update_handler thread again answer l ≡ (if here then l else wakeup (push_task again l)))
unfolding add_handler remove_handler update_handler
handlers_lem thread fd other handler again (done u) l = (
  ground (arith, lookup-assign fd other handler l.handlers),
  ground (arith, lookup-erase fd other l.handlers),
  ground arith,
  ground arith,
  refl,
)
handlers_lem thread fd other handler again (failed e) l = (
  ground arith,
  ground (arith, lookup-erase fd other l.handlers),
  ground arith,
  ground arith,
  refl,
)
