-- ===== src/Connection/Posting.antt =====
-- What other threads ask of a connection: the tasks that `send` and `shutdown` post to its loop, and
-- what the loop makes of them.
use mathlib.Core.Path.{subst}
use echoserver.Prelude.{
  ℕ, ◌+◌, ◌≤◌, ◌≡◌, refl, sym, ap, ◌∙◌, false, List, [], ◌∷◌, ◌++◌, append-nil, arith, length,
  length-append,
}
use echoserver.Prelude.Syscall.{Syscall}
use echoserver.Buffer.Invariant.{contents, max_size}
use echoserver.Connection.{
  Connection, connected, Task, establishes, destroys, sends_in_loop, shuts_down_in_loop,
  force_closes_in_loop, Effect, posts, M, after, effects,
}
use echoserver.Connection.Operations.{
  send, send_in_loop, shutdown_in_loop, force_close_in_loop, destroy_in_loop, establish_in_loop,
}
use echoserver.Connection.Output.{sent-append, chain, send_in_loop-Transfers}
use echoserver.Connection.Transfers.{sent, Sound, Transfers, Accepts}

-- The tasks that are posted, in order.
abbrev pub posted : List Effect → List Task
posted [] = []
posted (posts task ∷ es) = task ∷ posted es
posted (_ ∷ es) = posted es

module _ (w : M (Unit {0})) where
  -- The lambda of a task; the answer is that of the socket to `send`.
  unfoldable pub run_task : Task → Syscall ℕ → M (Unit {0})
  unfolding establish_in_loop destroy_in_loop send_in_loop shutdown_in_loop force_close_in_loop
  run_task establishes answer = establish_in_loop
  run_task destroys answer = destroy_in_loop
  run_task (sends_in_loop bytes) answer = send_in_loop w bytes answer
  run_task shuts_down_in_loop answer = shutdown_in_loop
  run_task force_closes_in_loop answer = force_close_in_loop

  -- The loop runs its tasks in order, with an answer for each.
  unfoldable pub run_posted : List Task → List (Syscall ℕ) → M (Unit {0})
  unfolding run_task
  run_posted [] answers c = (tt, c, [])
  run_posted (task ∷ tasks) [] c = (tt, c, [])
  run_posted (task ∷ tasks) (answer ∷ answers) c =
      let (u, d, before) = run_task task answer c in
      let (v, d', later) = run_posted tasks answers d in (v, d', before ++ later)

  -- Calls of `send` in another thread than the loop's.
  unfoldable pub send_all : List (List ℕ × Syscall ℕ) → M (Unit {0})
  unfolding send
  send_all [] c = (tt, c, [])
  send_all ((bytes, answer) ∷ rest) c =
      let (u, d, before) = send w false bytes answer c in
      let (v, d', later) = send_all rest d in (v, d', before ++ later)

abbrev pub messages : List (List ℕ × Syscall ℕ) → List ℕ
messages [] = []
messages ((bytes, answer) ∷ rest) = bytes ++ messages rest

abbrev pub answers_to : List (List ℕ × Syscall ℕ) → List (Syscall ℕ)
answers_to [] = []
answers_to ((bytes, answer) ∷ rest) = answer ∷ answers_to rest

abbrev pub tasks_of : List (List ℕ × Syscall ℕ) → List Task
tasks_of [] = []
tasks_of ((bytes, answer) ∷ rest) = sends_in_loop bytes ∷ tasks_of rest

-- The kernel takes some of each message, or fails without EPIPE and ECONNRESET.
abbrev pub AllAccepted : List (List ℕ × Syscall ℕ) → Type 0
AllAccepted [] = Unit {0}
AllAccepted ((bytes, answer) ∷ rest) = Accepts (length bytes) answer × AllAccepted rest

send_posts :
    (w : M (Unit {0})) (bytes : List ℕ) (answer : Syscall ℕ) (c : Connection)
    → c.state ≡ connected
    → send w false bytes answer c ≡ (tt, c, posts (sends_in_loop bytes) ∷ [])
unfolding send
send_posts w bytes answer c up = rw up refl

pub send_all_posts :
    (w : M (Unit {0})) (ms : List (List ℕ × Syscall ℕ)) (c : Connection)
    → c.state ≡ connected
    → (after (send_all w ms) c ≡ c) × (posted (effects (send_all w ms) c) ≡ tasks_of ms)
unfolding send_all
send_all_posts w [] c up = (refl, refl)
send_all_posts w ((bytes, answer) ∷ rest) c up =
    let (same, tasks) = send_all_posts w rest c up in
    rw (send_posts w bytes answer c up) (same, ap (λ ts. sends_in_loop bytes ∷ ts) tasks)

-- Running the tasks of some messages passes them on in order.
run_posted-Transfers :
    (w : M (Unit {0})) (ms : List (List ℕ × Syscall ℕ)) (c : Connection)
    → Sound c
    → c.state ≡ connected
    → c.write_complete_callback ≡ false
    → AllAccepted ms
    → length c.output_buffer.buffer + length (messages ms) ≤ max_size
    → let m = run_posted w (tasks_of ms) (answers_to ms) in
      (sent (effects m c) ++ contents (after m c).output_buffer
        ≡ contents c.output_buffer ++ messages ms)
      × Sound (after m c)
unfolding run_posted run_task
run_posted-Transfers w [] c s up plain ok k = (sym (append-nil _), s)
run_posted-Transfers w ((bytes, answer) ∷ rest) c s up plain (ok, oks) k =
    let d : Connection = after (send_in_loop w bytes answer) c in
    let size : length (bytes ++ messages rest) ≡ length bytes + length (messages rest) =
      length-append bytes (messages rest) in
    let t : Transfers c bytes (length c.output_buffer.buffer + length bytes) d
        (effects (send_in_loop w bytes answer) c) =
      send_in_loop-Transfers w bytes answer c s up plain ok (omega arith) in
    let (order, sound) =
      run_posted-Transfers w rest d t.sound (ap (λ (x : Connection). x.state) t.framed ∙ up)
        (ap (λ (x : Connection). x.write_complete_callback) t.framed ∙ plain) oks
        (omega (arith, t.bounded)) in
    (
      rw (sent-append (effects (send_in_loop w bytes answer) c)) (
          chain (sent (effects (send_in_loop w bytes answer) c))
            (sent (effects (run_posted w (tasks_of rest) (answers_to rest)) d))
            (contents (after (run_posted w (tasks_of rest) (answers_to rest)) d).output_buffer)
            (contents d.output_buffer) bytes (messages rest) (contents c.output_buffer) order
            t.order),
      sound,
    )

-- What the loop does with the tasks that an action in another thread has posted.
abbrev pub then_runs : M (Unit {0}) → M (Unit {0}) → List (Syscall ℕ) → M (Unit {0})
then_runs w m answers c = run_posted w (posted (effects m c)) answers (after m c)

-- Messages that another thread sends arrive in order: for any calls of `send` on a connected
-- connection, from a thread that is not the loop's, once the loop has run the tasks that they
-- posted, what was waiting and then all the messages are what was sent and what waits. That holds
-- where the interest in EPOLLOUT told whether bytes are waiting, no write-complete callback is set,
-- the kernel takes any part of the messages without EPIPE and ECONNRESET, and the buffer stays
-- within its size limit.
pub posted_in_order :
    (w : M (Unit {0})) (ms : List (List ℕ × Syscall ℕ)) (c : Connection)
    → Sound c
    → c.state ≡ connected
    → c.write_complete_callback ≡ false
    → AllAccepted ms
    → length c.output_buffer.buffer + length (messages ms) ≤ max_size
    → let m = then_runs w (send_all w ms) (answers_to ms) in
      (sent (effects m c) ++ contents (after m c).output_buffer
        ≡ contents c.output_buffer ++ messages ms)
      × Sound (after m c)
posted_in_order w ms c s up plain ok k =
    let (same, tasks) = send_all_posts w ms c up in
    let runs : run_posted w (tasks_of ms) (answers_to ms) c
        ≡ then_runs w (send_all w ms) (answers_to ms) c =
      ap (λ ts. run_posted w ts (answers_to ms) c) (sym tasks)
      ∙ ap (λ d. run_posted w (posted (effects (send_all w ms) c)) (answers_to ms) d) (sym same) in
    subst
      (λ r.
        (sent r.2 ++ contents r.1.output_buffer ≡ contents c.output_buffer ++ messages ms)
        × Sound r.1)
      runs (run_posted-Transfers w ms c s up plain ok k)
