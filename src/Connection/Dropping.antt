-- ===== src/Connection/Dropping.antt =====
-- `shutdown` of a connection in another thread, behind `send`.
use echoserver.Prelude.{
  ℕ, ◌≡◌, refl, ap, ◌∙◌, false, not, Bool-cases, inl, inr, List, [], ◌∷◌, ◌++◌, if◌then◌else◌,
}
use echoserver.Prelude.Syscall.{Syscall}
use echoserver.Handler.{has, epollout}
use echoserver.Connection.{
  Connection, connected, disconnecting, shuts_down_in_loop, Effect, posts, sends, shuts_down_write,
  adds_handler, updates_handler, removes_handler, calls_close, calls_error, M, ◌>>◌, after, effects,
}
use echoserver.Connection.Operations.{send_in_loop, shutdown, shutdown_in_loop}
use echoserver.Connection.Posting.{
  posted, run_task, run_posted, send_all, answers_to, tasks_of, send_all_posts, then_runs,
}

given_up :
    (w : M (Unit {0})) (bytes : List ℕ) (answer : Syscall ℕ) (c : Connection)
    → c.state ≡ disconnecting
    → send_in_loop w bytes answer c ≡ (tt, c, [])
unfolding send_in_loop
given_up w bytes answer c e = rw e refl

posted-append : (xs ys : List Effect) → posted (xs ++ ys) ≡ posted xs ++ posted ys
posted-append [] ys = refl
posted-append (posts task ∷ xs) ys = ap (λ ts. task ∷ ts) (posted-append xs ys)
posted-append (sends bytes ∷ xs) ys = posted-append xs ys
posted-append (shuts_down_write ∷ xs) ys = posted-append xs ys
posted-append (adds_handler m ∷ xs) ys = posted-append xs ys
posted-append (updates_handler m ∷ xs) ys = posted-append xs ys
posted-append (removes_handler ∷ xs) ys = posted-append xs ys
posted-append (calls_close ∷ xs) ys = posted-append xs ys
posted-append (calls_error ∷ xs) ys = posted-append xs ys

-- All that a shutdown leaves to be done by the loop.
abbrev pub closing_effects : Connection → List Effect
closing_effects c = if not (has c.events epollout) then shuts_down_write ∷ [] else []

all_given_up :
    (w : M (Unit {0})) (ms : List (List ℕ × Syscall ℕ)) (last : Syscall ℕ) (c : Connection)
    → c.state ≡ disconnecting
    → run_posted w (tasks_of ms ++ (shuts_down_in_loop ∷ [])) (answers_to ms ++ (last ∷ [])) c
      ≡ (tt, c, closing_effects c)
unfolding run_posted run_task shutdown_in_loop
all_given_up w [] last c e = elim (Bool-cases (has c.events epollout)) [
  | inl writes ↦ rw writes refl
  | inr idle ↦ rw idle refl
]
all_given_up w ((bytes, answer) ∷ rest) last c e =
    rw (given_up w bytes answer c e) (all_given_up w rest last c e)

shutdown_posts :
    (c : Connection)
    → c.state ≡ connected
    → shutdown false c ≡ (tt, record c { state = disconnecting }, posts shuts_down_in_loop ∷ [])
unfolding shutdown
shutdown_posts c up = rw up refl

-- A shutdown drops what was sent before it. For any calls of `send` on a connected connection from a
-- thread that is not the loop's, and then `shutdown` from that thread before the loop has run their
-- tasks: the loop sends none of the messages and puts none into the output buffer; it only shuts
-- the write side down, if it does not write already.
pub shutdown_drops_sends :
    (w : M (Unit {0})) (ms : List (List ℕ × Syscall ℕ)) (last : Syscall ℕ) (c : Connection)
    → c.state ≡ connected
    → then_runs w (send_all w ms >> shutdown false) (answers_to ms ++ (last ∷ [])) c
      ≡ (tt, record c { state = disconnecting }, closing_effects c)
shutdown_drops_sends w ms last c up =
    let d : Connection = after (send_all w ms) c in
    let (same, tasks) = send_all_posts w ms c up in
    let shut : shutdown false d
        ≡ (tt, record c { state = disconnecting }, posts shuts_down_in_loop ∷ []) =
      ap (shutdown false) same ∙ shutdown_posts c up in
    let all_tasks : posted (effects (send_all w ms) c ++ effects (shutdown false) d)
        ≡ tasks_of ms ++ (shuts_down_in_loop ∷ []) =
      posted-append (effects (send_all w ms) c) (effects (shutdown false) d)
      ∙ ap (λ ts. ts ++ posted (effects (shutdown false) d)) tasks
      ∙ ap (λ (r : Unit {0} × Connection × List Effect). tasks_of ms ++ posted r.2) shut in
    ap (λ ts. run_posted w ts (answers_to ms ++ (last ∷ [])) (after (shutdown false) d)) all_tasks
    ∙ ap
        (λ (r : Unit {0} × Connection × List Effect).
          run_posted w (tasks_of ms ++ (shuts_down_in_loop ∷ [])) (answers_to ms ++ (last ∷ []))
            r.1)
        shut
    ∙ all_given_up w ms last (record c { state = disconnecting }) refl
