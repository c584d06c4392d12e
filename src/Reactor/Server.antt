-- ===== src/Reactor/Server.antt =====
-- wd_reactor_server/Reactor_v4: the I/O thread of EventLoop.cc together with the threads of the pool
-- that process the tasks of TestTcpServer.cc, as the order in which they take their steps.
-- The pool is the list of the tasks that were added to it and are not yet processed. A thread may
-- process any of them at any time, which covers a pool with any number of threads and a queue of any
-- size. What `epoll_wait` answers is any list.
mod Keeping
mod Wakeup
mod Tests
use echoserver.Prelude.{
  ℕ, zero, suc, ◌≡◌, Bool, true, false, not, ◌||◌, List, [], ◌∷◌, ◌++◌, ◌==◌, if◌then◌else◌,
}
use echoserver.Reactor.EventLoop.{Functor, Loop, create, unloop, wakeup, handle_read, run_functor}
use echoserver.Reactor.EventLoop.Dispatch.{Ready, dispatch}

-- Where the I/O thread is in `loop`. In `dispatching` it has the descriptors that are still to be
-- handled in this round, in `running` the functors too that `doPendingFunctors` has taken. In
-- `stuck` it does not go on, and has functors that it has not run.
pub data Phase : Type 0 where
  testing : Phase
  polling : Phase
  dispatching : List Ready → Phase
  taking : List Ready → Phase
  running : List Functor → List Ready → Phase
  stuck : List Functor → Phase
  left : Phase

-- `posting` threads have pushed their functor and not yet written to the eventfd.
pub record Server : Type 0 where
  pub loop : Loop
  pub phase : Phase
  pub in_pool : List Functor
  pub posting : ℕ

abbrev pub serve : Loop → Server
serve l = record {
  loop = record l { is_looping = true };
  phase = testing;
  in_pool = [];
  posting = 0;
}

abbrev pub test_looping : Server → Server
test_looping s = record s { phase = if s.loop.is_looping then polling else left }

-- A new connection, or a message, whose task goes to the pool.
abbrev pub handle : Ready → List Ready → Server → Server
handle r rs s =
    let done = dispatch r s.loop in
    record s {
      loop = done.loop;
      phase = if done.goes_on then dispatching rs else stuck [];
      in_pool = s.in_pool ++ done.tasks;
    }

-- `doPendingFunctors` under its mutex.
abbrev pub take_functors : List Ready → Server → Server
take_functors rs s = record s {
  loop = record (s.loop) { pending_functors = [] };
  phase = running s.loop.pending_functors rs;
}

abbrev pub run_next : Functor → List Functor → List Ready → Server → Server
run_next f fs rs s =
    let (alive, l) = run_functor f s.loop in
    record s { loop = l; phase = if alive then running fs rs else stuck (f ∷ fs) }

-- `runInLoop` under its mutex, by a thread that has processed a task.
abbrev pub push_functor : Functor → List Functor → Server → Server
push_functor f others s = record s {
  loop = record (s.loop) { pending_functors = s.loop.pending_functors ++ (f ∷ []) };
  in_pool = others;
  posting = suc s.posting;
}

abbrev pub is_wakeup : Ready → Loop → Bool
is_wakeup r l = if r.fd == l.acceptor_fd then false else r.fd == l.event_fd

pub data Step (s : Server) : Server → Type 0 where
  tests : s.phase ≡ testing → Step s (test_looping s)
  polls : (rs : List Ready) → s.phase ≡ polling → Step s (record s { phase = dispatching rs })
  handles :
      (r : Ready) (rs : List Ready)
      → s.phase ≡ dispatching (r ∷ rs)
      → is_wakeup r s.loop ≡ false
      → Step s (handle r rs s)
  reads :
      (r : Ready) (rs : List Ready)
      → s.phase ≡ dispatching (r ∷ rs)
      → is_wakeup r s.loop ≡ true
      → Step s (record s { loop = handle_read s.loop; phase = taking rs })
  takes : (rs : List Ready) → s.phase ≡ taking rs → Step s (take_functors rs s)
  runs :
      (f : Functor) (fs : List Functor) (rs : List Ready)
      → s.phase ≡ running (f ∷ fs) rs
      → Step s (run_next f fs rs s)
  has_run :
      (rs : List Ready) → s.phase ≡ running [] rs → Step s (record s { phase = dispatching rs })
  ends_round : s.phase ≡ dispatching [] → Step s (record s { phase = testing })
  processes :
      (before after : List Functor) (f : Functor)
      → s.in_pool ≡ before ++ (f ∷ after)
      → Step s (push_functor f (before ++ after) s)
  signals : (n : ℕ) → s.posting ≡ suc n → Step s (record s { loop = wakeup s.loop; posting = n })
  unloops : Step s (record s { loop = unloop s.loop })

pub data Reach (s : Server) : Server → Type 0 where
  here : Reach s s
  next : {t u : Server} → Reach s t → Step t u → Reach s u
