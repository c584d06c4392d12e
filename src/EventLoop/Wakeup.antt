-- ===== src/EventLoop/Wakeup.antt =====
-- No posted task is lost between `runInLoop` in other threads and the rounds of the loop.
use echoserver.Prelude.{ℕ, suc, ◌≡◌, ◌≢◌, ◌<◌, refl, ◌⊎◌, inl, inr, [], arith}
use echoserver.EventLoop.{EventLoop, push_task, wakeup, handle_wakeup, do_pending_tasks}

-- Where the loop's thread is in a round.
pub data Phase : Type 0 where
  polling : Phase
  handling : Phase
  running_tasks : Phase

-- `posting` threads have pushed their task and not yet written to the eventfd.
pub record Shared (T : Type 0) : Type 0 where
  pub loop : EventLoop T
  pub phase : Phase
  pub posting : ℕ

pub data Step {T : Type 0} (s : Shared T) : Shared T → Type 0 where
  push : (task : T) → Step s (record s { loop = push_task task s.loop; posting = suc s.posting })
  signal : (n : ℕ) → s.posting ≡ suc n → Step s (record s { loop = wakeup s.loop; posting = n })
  poll_returns : s.phase ≡ polling → Step s (record s { phase = handling })
  read_signals : s.phase ≡ handling → Step s (record s { loop = handle_wakeup s.loop })
  take_tasks :
      s.phase ≡ handling
      → Step s (record s { loop = (do_pending_tasks s.loop).1; phase = running_tasks })
  finish_tasks : s.phase ≡ running_tasks → Step s (record s { phase = polling })

pub data Reach {T : Type 0} (s : Shared T) : Shared T → Type 0 where
  here : Reach s s
  next : {t u : Shared T} → Reach s t → Step t u → Reach s u

-- A pending task has a signal that is not read, or a thread that is about to write one, or a round
-- that will take it.
abbrev pub NoneLost : {T : Type 0} → Shared T → Type 0
NoneLost s =
    (s.loop.pending_tasks ≡ []) ⊎ ((0 < s.loop.signals) ⊎ ((s.phase ≡ handling) ⊎ (0 < s.posting)))

Step-NoneLost : {T : Type 0} {s t : Shared T} → Step s t → NoneLost s → NoneLost t
unfolding push_task wakeup handle_wakeup do_pending_tasks
Step-NoneLost (push task) h = inr (inr (inr (omega arith)))
Step-NoneLost (signal n e) h = inr (inl (omega arith))
Step-NoneLost (poll_returns e) h = inr (inr (inl refl))
Step-NoneLost (read_signals e) h = inr (inr (inl e))
Step-NoneLost (take_tasks e) h = inl refl
Step-NoneLost (finish_tasks e) h = ground arith

Reach-NoneLost : {T : Type 0} {s t : Shared T} → NoneLost s → Reach s t → NoneLost t
Reach-NoneLost h here = h
Reach-NoneLost h (next r step) = Step-NoneLost step (Reach-NoneLost h r)

-- In every interleaving of posting threads with the loop, from a state without pending tasks: when
-- the loop waits in `epoll_wait` with a task pending and no thread still to signal, the eventfd is
-- readable, so the wait returns.
pub task_is_signalled :
    {T : Type 0} {s t : Shared T}
    → s.loop.pending_tasks ≡ []
    → Reach s t
    → t.phase ≡ polling
    → t.posting ≡ 0
    → t.loop.pending_tasks ≢ []
    → 0 < t.loop.signals
task_is_signalled {T} {s} {t} e r p q pending = ground (arith, Reach-NoneLost (inl e) r)
