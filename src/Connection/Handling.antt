-- ===== src/Connection/Handling.antt =====
-- The handlers of a connection and the tasks of its server pass bytes on, whatever the kernel
-- answers.
use echoserver.Prelude.{
  ℕ, zero, suc, ◌≤◌, ◌≡◌, refl, ◌∙◌, inl, inr, false, List, [], ◌++◌, append-nil, arith, ◌==◌,
  Bool-cases, length,
}
use echoserver.Prelude.Syscall.{Syscall, done, failed}
use echoserver.Buffer.{readable_bytes, retrieve}
use echoserver.Buffer.Invariant.{contents}
use echoserver.Buffer.Queueing.{Holds, retrieve-Holds}
use echoserver.Handler.{has, epollout}
use echoserver.Connection.{Connection, Effect, M, after, effects}
use echoserver.Connection.Operations.{
  handle_write, handle_close, handle_error, establish_in_loop, destroy_in_loop, finish_writing,
}
use echoserver.Connection.Writing.{
  front, written, handle_write_drains, handle_write_partly, handle_write_idle, handle_write_failed,
  front_and_rest,
}
use echoserver.Connection.Transfers.{sent}
use echoserver.Connection.Passing.{Sane, Passes, Fits, sublist_of_eq, equal-Passes, dropped-Passes}

-- What holds of the two tasks that the server posts, of the close callback and of the error
-- callback, which touch no buffer.
record Quiet (c : Connection) (r : Unit {0} × Connection × List Effect) : Type 0 where
  input : r.1.input_buffer ≡ c.input_buffer
  output : r.1.output_buffer ≡ c.output_buffer
  message : r.1.message_callback ≡ c.message_callback
  complete : r.1.write_complete_callback ≡ c.write_complete_callback
  silent : sent r.2 ≡ []

Quiet-Passes :
    (c : Connection) (r : Unit {0} × Connection × List Effect)
    → Sane c
    → Quiet c r
    → Passes c [] r.1 r.2
Quiet-Passes c r s q = dropped-Passes c r.1 [] r.2 s q.input q.output q.message q.complete q.silent

close-Quiet : (c : Connection) → Quiet c (handle_close c)
unfolding handle_close
close-Quiet c = ground arith

error-Quiet : (c : Connection) → Quiet c (handle_error c)
unfolding handle_error
error-Quiet c = ground arith

establish-Quiet : (c : Connection) → Quiet c (establish_in_loop c)
unfolding establish_in_loop
establish-Quiet c = ground arith

destroy-Quiet : (c : Connection) → Quiet c (destroy_in_loop c)
unfolding destroy_in_loop
destroy-Quiet c = ground arith

finish-Quiet :
    (w : M (Unit {0})) (c : Connection)
    → c.write_complete_callback ≡ false
    → Quiet c (finish_writing w c)
unfolding finish_writing
finish-Quiet w c plain = ground arith

pub handle_close-Passes :
    (c : Connection) → Sane c → Passes c [] (after handle_close c) (effects handle_close c)
handle_close-Passes c s = Quiet-Passes c (handle_close c) s (close-Quiet c)

pub handle_error-Passes :
    (c : Connection) → Sane c → Passes c [] (after handle_error c) (effects handle_error c)
handle_error-Passes c s = Quiet-Passes c (handle_error c) s (error-Quiet c)

pub establish-Passes :
    (c : Connection)
    → Sane c
    → Passes c [] (after establish_in_loop c) (effects establish_in_loop c)
establish-Passes c s = Quiet-Passes c (establish_in_loop c) s (establish-Quiet c)

pub destroy-Passes :
    (c : Connection) → Sane c → Passes c [] (after destroy_in_loop c) (effects destroy_in_loop c)
destroy-Passes c s = Quiet-Passes c (destroy_in_loop c) s (destroy-Quiet c)

-- Sending from the front, of which `d` keeps the rest.
front-Passes :
    (c d : Connection) (n : ℕ) (bytes : List ℕ) (es : List Effect)
    → Sane c
    → n ≤ readable_bytes c.output_buffer
    → d.input_buffer ≡ c.input_buffer
    → d.output_buffer ≡ retrieve c.output_buffer n
    → d.message_callback ≡ c.message_callback
    → d.write_complete_callback ≡ c.write_complete_callback
    → bytes ++ contents (retrieve c.output_buffer n) ≡ contents c.output_buffer
    → sent es ≡ bytes
    → Passes c [] d es
front-Passes c d n bytes es s fits i o m w front_sent took =
    let r : Holds (retrieve c.output_buffer n) _ (length c.output_buffer.buffer) =
      retrieve-Holds c.output_buffer n s.output in
    record {
      sane = record {
        input = rw i s.input;
        output = rw o r.valid;
        handled = rw i s.handled;
        echoing = m ∙ s.echoing;
        plain = w ∙ s.plain;
      };
      order = sublist_of_eq (rw (took, o, append-nil) front_sent);
      input_bounded = rw i (omega arith);
      output_bounded = rw o (omega (arith, r.bounded));
    }

pub handle_write-Passes :
    (w : M (Unit {0})) (answer : Syscall ℕ) (c : Connection)
    → Sane c
    → Fits (readable_bytes c.output_buffer) answer
    → Passes c [] (after (handle_write w answer) c) (effects (handle_write w answer) c)
handle_write-Passes w (failed e) c s ok =
    equal-Passes c [] (handle_write_failed w e c)
      (dropped-Passes c c [] [] s refl refl refl refl refl)
handle_write-Passes w (done zero) c s ok =
    equal-Passes c [] (handle_write_idle w 0 c (inr refl))
      (dropped-Passes c c [] [] s refl refl refl refl refl)
handle_write-Passes w (done (suc n)) c s ok = elim (Bool-cases (has c.events epollout)) [
  | inr off ↦
      equal-Passes c [] (handle_write_idle w (suc n) c (inl off))
        (dropped-Passes c c [] [] s refl refl refl refl refl)
  | inl on ↦
      let rest : Connection = written w (suc n) c on (omega arith) in
      let together = front_and_rest c.output_buffer (suc n) s.output ok in
      elim (Bool-cases (readable_bytes (retrieve c.output_buffer (suc n)) == 0)) [
        | inl e ↦
            let q : Quiet rest (finish_writing w rest) = finish-Quiet w rest s.plain in
            equal-Passes c [] (handle_write_drains w (suc n) c on (omega arith) e) (
              front-Passes c (finish_writing w rest).1 (suc n) (front w (suc n) c on (omega arith))
                _ s ok q.input q.output q.message q.complete together
                (rw (q.silent, append-nil) refl))
        | inr e ↦ equal-Passes c [] (handle_write_partly w (suc n) c on (omega arith) e) (
            front-Passes c rest (suc n) _ _ s ok refl refl refl refl together
              (append-nil (front w (suc n) c on (omega arith))))
      ]
]
