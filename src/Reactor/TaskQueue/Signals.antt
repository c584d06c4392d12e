-- ===== src/Reactor/TaskQueue/Signals.antt =====
-- No notification is lost, and tasks come out in the order in which they went in.
use echoserver.Prelude.{
  ℕ, ◌+◌, ◌≤◌, ◌<◌, ◌≡◌, refl, sym, ap, ◌∙◌, ◌⊎◌, inl, inr, true, false, [], ◌∷◌, ◌++◌,
  append_assoc, arith, Bool-cases, length, length-append,
}
use echoserver.Reactor.TaskQueue.{
  TaskQueue, create, empty, full, push, pop, clear_flag, wakeup_all, notify_one, notify_all, wait,
}
use echoserver.Reactor.TaskQueue.Steps.{
  Shared, fresh, after_push, after_pop, taken, resume_pusher, resume_popper, Step, pushes,
  pushes_again, pops, pops_again, rouses_pusher, rouses_popper, clears_flag, wakes_all, Reach, here,
  next,
}

-- Where consumers wait there are as many notified ones as tasks, and where producers wait, as many
-- notified ones as free places.
abbrev PopsSignalled : {T : Type 0} → TaskQueue T → Type 0
PopsSignalled q =
    (q.flag ≡ false) ⊎ ((q.not_empty.waiting ≡ 0) ⊎ (length q.que ≤ q.not_empty.notified))

abbrev PushesSignalled : {T : Type 0} → TaskQueue T → Type 0
PushesSignalled q = (q.not_full.waiting ≡ 0) ⊎ (q.capacity ≤ length q.que + q.not_full.notified)

-- The same with one notified consumer, or producer, that has just left the count.
abbrev PopsSignalled' : {T : Type 0} → ℕ → TaskQueue T → Type 0
PopsSignalled' n q =
    (q.flag ≡ false) ⊎ ((q.not_empty.waiting ≡ 0) ⊎ (length q.que ≤ q.not_empty.notified + n))

abbrev PushesSignalled' : {T : Type 0} → ℕ → TaskQueue T → Type 0
PushesSignalled' n q =
    (q.not_full.waiting ≡ 0) ⊎ (q.capacity ≤ length q.que + q.not_full.notified + n)

abbrev Bounded : {T : Type 0} → TaskQueue T → Type 0
Bounded q = length q.que ≤ q.capacity

push_keeps :
    {T : Type 0} (n : ℕ) (task : T) (q : TaskQueue T)
    → n ≤ 1
    → Bounded q
    → PopsSignalled q
    → PushesSignalled' n q
    → Bounded (push task q) × PopsSignalled (push task q) × PushesSignalled (push task q)
unfolding push full wait notify_one
push_keeps n task q h b p f = (
  ground (arith, length-append q.que (task ∷ [])),
  ground (arith, length-append q.que (task ∷ [])),
  ground (arith, length-append q.que (task ∷ [])),
)

pop_keeps :
    {T : Type 0} (n : ℕ) (q : TaskQueue T)
    → n ≤ 1
    → Bounded q
    → PopsSignalled' n q
    → PushesSignalled q
    → Bounded (pop q).1 × PopsSignalled (pop q).1 × PushesSignalled (pop q).1
unfolding pop empty wait notify_one
pop_keeps n q h b p f = (ground arith, ground arith, ground arith)

-- The tasks that were taken and those in the queue are those that were put in, in order.
abbrev InOrder : {T : Type 0} → Shared T → Type 0
InOrder s = s.popped ++ s.queue.que ≡ s.pushed

push_order : {T : Type 0} (task : T) (s : Shared T) → InOrder s → InOrder (after_push task s)
unfolding push
push_order task s e = elim (Bool-cases (full s.queue)) [
  | inl is_full ↦ rw is_full e
  | inr has_room ↦
      rw has_room (sym (append_assoc s.popped s.queue.que _) ∙ ap (λ xs. xs ++ (task ∷ [])) e)
]

pub pop_splits : {T : Type 0} (q : TaskQueue T) → taken (pop q).0 ++ (pop q).1.que ≡ q.que
unfolding pop empty
pop_splits q = ground arith

pop_order : {T : Type 0} (s : Shared T) → InOrder s → InOrder (after_pop s)
pop_order s e =
    append_assoc s.popped (taken (pop s.queue).0) _ ∙ ap (◌++◌ s.popped) (pop_splits s.queue) ∙ e

abbrev pub Sound : {T : Type 0} → Shared T → Type 0
Sound s = Bounded s.queue × PopsSignalled s.queue × PushesSignalled s.queue × InOrder s

Step-Sound : {T : Type 0} {s t : Shared T} → Step s t → Sound s → Sound t
Step-Sound {T} {s} (pushes task) (b, p, f, e) =
    let (b', p', f') = push_keeps 0 task s.queue (omega arith) b p (ground arith) in
    (b', p', f', push_order task s e)
Step-Sound {T} {s} (pushes_again task n h) (b, p, f, e) =
    let q : TaskQueue T = (resume_pusher n s).queue in
    let (b', p', f') = push_keeps 1 task q (omega arith) b p (ground arith) in
    (b', p', f', push_order task (resume_pusher n s) e)
Step-Sound {T} {s} pops (b, p, f, e) =
    let (b', p', f') = pop_keeps 0 s.queue (omega arith) b (ground arith) f in
    (b', p', f', pop_order s e)
Step-Sound {T} {s} (pops_again n h) (b, p, f, e) =
    let q : TaskQueue T = (resume_popper n s).queue in
    let (b', p', f') = pop_keeps 1 q (omega arith) b (ground arith) f in
    (b', p', f', pop_order (resume_popper n s) e)
Step-Sound rouses_pusher (b, p, f, e) = unfold notify_one in (b, p, ground arith, e)
Step-Sound rouses_popper (b, p, f, e) = unfold notify_one in (b, ground arith, f, e)
Step-Sound clears_flag (b, p, f, e) = unfold clear_flag in (b, inl refl, f, e)
Step-Sound wakes_all (b, p, f, e) = unfold wakeup_all notify_all in (b, ground arith, f, e)

Reach-Sound : {T : Type 0} {s t : Shared T} → Sound s → Reach s t → Sound t
Reach-Sound h here = h
Reach-Sound h (next r step) = Step-Sound step (Reach-Sound h r)

fresh-Sound : {T : Type 0} (capacity : ℕ) → Sound (fresh {T = T} capacity)
unfolding create
fresh-Sound capacity = (omega arith, inr (inl refl), inl refl, refl)

Step-capacity : {T : Type 0} {s t : Shared T} → Step s t → t.queue.capacity ≡ s.queue.capacity
unfolding push full pop clear_flag wakeup_all
Step-capacity (pushes task) = ground arith
Step-capacity (pushes_again task n h) = ground arith
Step-capacity pops = ground arith
Step-capacity (pops_again n h) = ground arith
Step-capacity rouses_pusher = refl
Step-capacity rouses_popper = refl
Step-capacity clears_flag = refl
Step-capacity wakes_all = refl

Reach-capacity : {T : Type 0} {s t : Shared T} → Reach s t → t.queue.capacity ≡ s.queue.capacity
Reach-capacity here = refl
Reach-capacity (next r step) = Step-capacity step ∙ Reach-capacity r

-- In every order in which threads get the mutex, with notifications that come without a cause,
-- the queue of a new `TaskQueue` never holds more tasks than its capacity, and the tasks that
-- were taken and then those in the queue are those that were pushed, in order.
pub queue_in_order :
    {T : Type 0} (capacity : ℕ) (s : Shared T)
    → Reach (fresh capacity) s
    → (length s.queue.que ≤ capacity) × (s.popped ++ s.queue.que ≡ s.pushed)
unfolding create
queue_in_order capacity s r =
    let (b, p, f, e) = Reach-Sound (fresh-Sound capacity) r in (omega (arith, Reach-capacity r), e)

-- In every order in which threads get the mutex of a new `TaskQueue`, before `wakeup`: where a
-- consumer waits beside a task in the queue, another was notified and has not yet looked.
pub consumer_not_forgotten :
    {T : Type 0} (capacity : ℕ) (s : Shared T)
    → Reach (fresh capacity) s
    → s.queue.flag ≡ true
    → 0 < s.queue.not_empty.waiting
    → 0 < length s.queue.que
    → 0 < s.queue.not_empty.notified
consumer_not_forgotten capacity s r up w some =
    let (b, p, f, e) = Reach-Sound (fresh-Sound capacity) r in ground arith

-- In every order in which threads get the mutex of a new `TaskQueue`: where a producer waits
-- beside a free place in the queue, another was notified and has not yet looked.
pub producer_not_forgotten :
    {T : Type 0} (capacity : ℕ) (s : Shared T)
    → Reach (fresh capacity) s
    → 0 < s.queue.not_full.waiting
    → length s.queue.que < capacity
    → 0 < s.queue.not_full.notified
unfolding create
producer_not_forgotten capacity s r w room =
    let (b, p, f, e) = Reach-Sound (fresh-Sound capacity) r in ground (arith, Reach-capacity r)
