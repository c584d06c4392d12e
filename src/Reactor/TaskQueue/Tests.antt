-- ===== src/Reactor/TaskQueue/Tests.antt =====
-- Concrete orders of threads, and the conditions of the theorems at them.
use echoserver.Prelude.{ℕ, ◌≤◌, ◌<◌, ◌≡◌, refl, true, ◌++◌, arith, length}
use echoserver.Reactor.TaskQueue.{create, push, pop, waits, wait, notify_one, full, empty}
use echoserver.Reactor.TaskQueue.Steps.{
  Shared, fresh, after_push, after_pop, pushes, pops, Reach, here, next,
}
use echoserver.Reactor.TaskQueue.Signals.{queue_in_order, consumer_not_forgotten}

-- A consumer waits, then two producers come to a queue for one task.
abbrev contended : Shared ℕ
contended = after_push 6 (after_push 5 (after_pop (after_pop (fresh 1))))

contended_reached : Reach (fresh 1) contended
contended_reached = next (next (next (next here pops) pops) (pushes 5)) (pushes 6)

queue_in_order_example :
    (length contended.queue.que ≤ 1) × (contended.popped ++ contended.queue.que ≡ contended.pushed)
queue_in_order_example = queue_in_order 1 contended contended_reached

one_waits : 0 < contended.queue.not_empty.waiting
unfolding create pop empty push full wait notify_one
one_waits = omega arith

one_task : 0 < length contended.queue.que
unfolding create pop empty push full
one_task = omega arith

flag_up : contended.queue.flag ≡ true
unfolding create pop empty push full
flag_up = refl

consumer_not_forgotten_example : 0 < contended.queue.not_empty.notified
consumer_not_forgotten_example =
    consumer_not_forgotten 1 contended contended_reached flag_up one_waits one_task

-- One producer waits at a full queue, and a consumer takes its only task.
abbrev drained : Shared ℕ
drained = after_pop (after_push 6 (after_push 7 (after_push 5 (fresh 1))))

drained_reached : Reach (fresh 1) drained
drained_reached = next (next (next (next here (pushes 5)) (pushes 7)) (pushes 6)) pops

producer_waits : 0 < drained.queue.not_full.waiting
unfolding create pop empty push full wait notify_one
producer_waits = omega arith

has_room : length drained.queue.que < 1
unfolding create pop empty push full
has_room = omega arith

first_waits : (pop (create {T = ℕ} 3)).0 ≡ waits
unfolding create pop empty
first_waits = refl
