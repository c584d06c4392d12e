-- ===== src/Reactor/TaskQueue/Exit.antt =====
-- `wakeup` without the mutex, between the test and the wait of a `pop` in another thread.
use echoserver.Prelude.{ℕ, zero, suc, ◌≡◌, refl, false, arith}
use echoserver.Reactor.TaskQueue.{
  TaskQueue, waits, pop, wakeup, clear_flag, wakeup_all, notify_all, wait,
}

-- The thread has found the queue empty and the flag set; `wakeup` runs; then the thread waits.
abbrev pub wait_late : {T : Type 0} → TaskQueue T → TaskQueue T
wait_late q = let r = wakeup q in record r { not_empty = wait r.not_empty }

-- The other consumers call `pop` again.
unfoldable pub pops : {T : Type 0} → ℕ → TaskQueue T → TaskQueue T
pops zero q = q
pops (suc n) q = pops n (pop q).1

pops_keep_waiting :
    {T : Type 0} (n : ℕ) (q : TaskQueue T) → q.flag ≡ false → (pops n q).not_empty ≡ q.not_empty
unfolding pops pop
pops_keep_waiting zero q h = refl
pops_keep_waiting (suc n) q h = ground (arith, pops_keep_waiting n (pop q).1)

-- Where `pop` is going to wait, no other consumer waits or is notified, and `wakeup` runs before
-- it waits: the thread waits after `wakeup` has notified all, and however often other consumers
-- call `pop`, none is notified any more, so that the pool cannot join the thread.
pub wakeup_is_missed :
    {T : Type 0} (n : ℕ) (q : TaskQueue T)
    → (pop q).0 ≡ waits
    → q.not_empty.notified ≡ 0
    → q.not_empty.waiting ≡ 0
    → let later = pops n (wait_late q) in
      (later.not_empty.waiting ≡ 1) × (later.not_empty.notified ≡ 0)
unfolding wakeup clear_flag wakeup_all notify_all wait
wakeup_is_missed n q h none alone = ground (arith, pops_keep_waiting n (wait_late q))
