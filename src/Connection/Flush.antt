-- ===== src/Connection/Flush.antt =====
-- A connection that is shut down while bytes are waiting: they go out first.
use mathlib.Core.Path.{subst}
use echoserver.Prelude.{
  ℕ, zero, suc, ◌≤◌, ◌≡◌, refl, sym, ap, ◌∙◌, inl, inr, Bool, true, false, ◌&&◌, ◌||◌, List, [],
  ◌∷◌, ◌++◌, append-nil, append_assoc, arith, length, length-append, ◌==◌, Bool-cases,
}
use echoserver.Prelude.Syscall.{Syscall, done, failed}
use echoserver.Buffer.{Buffer, readable_bytes, retrieve}
use echoserver.Buffer.Invariant.{IsValid, contents}
use echoserver.Handler.{has, epollout}
use echoserver.Connection.{
  connected, disconnecting, Connection, Effect, sends, shuts_down_write, adds_handler,
  updates_handler, removes_handler, calls_close, calls_error, posts, M, after, effects,
  is_disconnecting,
}
use echoserver.Connection.Operations.{handle_write, shutdown}
use echoserver.Connection.Output.{sent-append}
use echoserver.Connection.Transfers.{sent, Sound, Transfers, Accepts, readable-length}
use echoserver.Connection.Writing.{
  handle_write-Transfers, handle_write_drains, handle_write_partly, handle_write_idle,
  handle_write_failed, finish_writing_lem, written, front,
}

-- Whether the write side of the socket is shut down among the effects.
abbrev pub closes_side : List Effect → Bool
closes_side [] = false
closes_side (shuts_down_write ∷ es) = true
closes_side (_ ∷ es) = closes_side es

closes_side-append :
    (xs ys : List Effect) → closes_side (xs ++ ys) ≡ (closes_side xs || closes_side ys)
closes_side-append [] ys = refl
closes_side-append (shuts_down_write ∷ xs) ys = refl
closes_side-append (sends b ∷ xs) ys = closes_side-append xs ys
closes_side-append (adds_handler m ∷ xs) ys = closes_side-append xs ys
closes_side-append (updates_handler m ∷ xs) ys = closes_side-append xs ys
closes_side-append (removes_handler ∷ xs) ys = closes_side-append xs ys
closes_side-append (calls_close ∷ xs) ys = closes_side-append xs ys
closes_side-append (calls_error ∷ xs) ys = closes_side-append xs ys
closes_side-append (posts t ∷ xs) ys = closes_side-append xs ys

abbrev Run : Type 0
Run = Unit {0} × Connection × List Effect

-- The side is shut down exactly if this write empties the buffer.
abbrev ClosesWhenEmpty : Connection → Run → Type 0
ClosesWhenEmpty c r =
    closes_side r.2 ≡ (has c.events epollout && (readable_bytes r.1.output_buffer == 0))

write-closes :
    (w : M (Unit {0})) (answer : Syscall ℕ) (c : Connection)
    → Sound c
    → c.state ≡ disconnecting
    → c.write_complete_callback ≡ false
    → ClosesWhenEmpty c (handle_write w answer c)
write-closes w (failed e) c s d plain =
    subst (ClosesWhenEmpty c) (sym (handle_write_failed w e c)) (ground (arith, s.waiting))
write-closes w (done zero) c s d plain =
    subst (ClosesWhenEmpty c) (sym (handle_write_idle w 0 c (inr refl))) (ground (arith, s.waiting))
write-closes w (done (suc n)) c s d plain = elim (Bool-cases (has c.events epollout)) [
  | inr off ↦
      subst (ClosesWhenEmpty c) (sym (handle_write_idle w (suc n) c (inl off))) (rw off refl)
  | inl on ↦ elim (Bool-cases (readable_bytes (retrieve c.output_buffer (suc n)) == 0)) [
    | inr e ↦
        subst (ClosesWhenEmpty c) (sym (handle_write_partly w (suc n) c on (omega arith) e))
          (rw (on, e) refl)
    | inl e ↦
        subst (ClosesWhenEmpty c)
          (sym (
            handle_write_drains w (suc n) c on (omega arith) e
            ∙ ap (λ (r : Run). (tt, r.1, sends (front w (suc n) c on (omega arith)) ∷ r.2))
                (finish_writing_lem w (written w (suc n) c on (omega arith)) s.interest plain)))
          (rw (on, e, ap is_disconnecting d) refl)
  ]
]

-- The answers of `send` to one `handleWrite` after the other.
unfoldable pub drain : M (Unit {0}) → List (Syscall ℕ) → M (Unit {0})
drain w [] c = (tt, c, [])
drain w (answer ∷ answers) c =
    let (u, d, before) = handle_write w answer c in
    let (v, d', later) = drain w answers d in (v, d', before ++ later)

abbrev pub AllAccept : M (Unit {0}) → Connection → List (Syscall ℕ) → Type 0
AllAccept w c [] = Unit {0}
AllAccept w c (answer ∷ answers) =
    Accepts (readable_bytes c.output_buffer) answer
    × AllAccept w (after (handle_write w answer) c) answers

-- What is sent from the front is no longer waiting.
waits_less :
    (out : List ℕ) {b b' : Buffer}
    → IsValid b
    → IsValid b'
    → out ++ contents b' ≡ contents b
    → readable_bytes b' ≤ readable_bytes b
waits_less out {b} {b'} v v' e =
    omega
      (arith, readable-length v, readable-length v', length-append out (contents b'), ap length e)

-- On a connected connection whose interest in EPOLLOUT tells whether bytes are waiting, `shutdown`
-- in the loop's thread shuts the write side down at once exactly if nothing is waiting.
pub shutdown_lem :
    (c : Connection)
    → Sound c
    → c.state ≡ connected
    → closes_side (effects (shutdown true) c) ≡ (readable_bytes c.output_buffer == 0)
unfolding shutdown
shutdown_lem c s up = ground (arith, s.waiting)

-- On a disconnecting connection, whose interest in EPOLLOUT tells whether bytes are waiting and which
-- has no write-complete callback, any number of `handleWrite` calls send the waiting bytes in order,
-- as far as the kernel accepts them (never more than it is offered), and the write side of the
-- socket is shut down exactly if bytes were waiting and none is left. The interest in EPOLLOUT keeps
-- telling whether bytes are waiting.
pub drain_lem :
    (w : M (Unit {0})) (answers : List (Syscall ℕ)) (c : Connection)
    → Sound c
    → c.state ≡ disconnecting
    → c.write_complete_callback ≡ false
    → AllAccept w c answers
    → let d = after (drain w answers) c in
      (sent (effects (drain w answers) c) ++ contents d.output_buffer ≡ contents c.output_buffer)
      × (closes_side (effects (drain w answers) c)
          ≡ (has c.events epollout && (readable_bytes d.output_buffer == 0)))
      × Sound d
unfolding drain
drain_lem w [] c s down plain ok = (refl, ground (arith, s.waiting), s)
drain_lem w (answer ∷ answers) c s down plain ok =
    let d : Connection = after (handle_write w answer) c in
    let t : Transfers c [] _ d (effects (handle_write w answer) c) =
      handle_write-Transfers w answer c s plain ok.0 in
    let (order, closes, sound) =
      drain_lem w answers d t.sound (ap (λ (x : Connection). x.state) t.framed ∙ down)
        (ap (λ (x : Connection). x.write_complete_callback) t.framed ∙ plain) ok.1 in
    let first : List Effect = effects (handle_write w answer) c in
    let later : List Effect = effects (drain w answers) d in
    let left : readable_bytes d.output_buffer ≤ readable_bytes c.output_buffer =
      waits_less (sent first) s.valid t.sound.valid (t.order ∙ append-nil _) in
    let left' : readable_bytes (after (drain w answers) d).output_buffer
        ≤ readable_bytes d.output_buffer =
      waits_less (sent later) t.sound.valid sound.valid order in
    (
      rw (sent-append first later) (
          append_assoc (sent first) (sent later) _
          ∙ ap (◌++◌ (sent first)) order
          ∙ t.order
          ∙ append-nil _),
      rw (closes_side-append first later, write-closes w answer c s down plain, closes)
          (ground (arith, s.waiting, t.sound.waiting)),
      sound,
    )
