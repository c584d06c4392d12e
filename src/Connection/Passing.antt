-- ===== src/Connection/Passing.antt =====
-- What every operation of a connection under the echo callback does to the bytes, whatever the
-- kernel answers: bytes may be dropped, and none is moved, repeated or made up.
use mathlib.Core.Path.{subst}
use mathlib.Core.List.{Sublist, sublist-append_left}
use mathlib.Core.List.Sublist
use echoserver.Prelude.{
  ℕ, ◌+◌, ◌-◌, ◌≤◌, ◌≡◌, refl, sym, ◌∙◌, ◌⊎◌, inl, inr, true, false, List, [], ◌∷◌, ◌++◌,
  append-nil, arith, ltb, ltb→lt, ◌==◌, Bool-cases, length, take, drop, sub_size, take_all,
  drop_all, length-drop,
}
use echoserver.Prelude.Syscall.{Errno, Syscall, done, failed}
use echoserver.Buffer.{readable_bytes, append}
use echoserver.Buffer.Invariant.{IsValid, contents, max_size}
use echoserver.Buffer.Queueing.{Holds, append-Holds}
use echoserver.Connection.{Connection, Effect, sends, is_connected, M, after, effects}
use echoserver.Connection.Operations.{Attempt, is_fault, try_send, queue_rest, send_in_loop}
use echoserver.Connection.Output.{
  sent-append, attempt_of, nothing_waits, sends_bytes, sends_nothing, sent_ahead, send_waiting,
}
use echoserver.Connection.Transfers.{
  sent, queue_effects, sent-queue_effects, queue_rest_some, queue_rest_none,
}

-- The buffers are valid, what was read has been handled, and the callbacks are those of the echo
-- server.
pub record Sane (c : Connection) : Type 0 where
  pub input : IsValid c.input_buffer
  pub output : IsValid c.output_buffer
  pub handled : contents c.input_buffer ≡ []
  pub echoing : c.message_callback ≡ true
  pub plain : c.write_complete_callback ≡ false

-- What `es` sends and what waits in `d` are, in order, some of what was waiting and of `bytes`.
pub record Passes (c : Connection) (bytes : List ℕ) (d : Connection) (es : List Effect)
    : Type 0 where
  pub sane : Sane d
  pub order : Sublist (sent es ++ contents d.output_buffer) (contents c.output_buffer ++ bytes)
  pub input_bounded : length d.input_buffer.buffer ≤ length c.input_buffer.buffer + length bytes
  pub output_bounded : length d.output_buffer.buffer ≤ length c.output_buffer.buffer + length bytes

-- The kernel takes no more than it is offered.
abbrev pub Fits : ℕ → Syscall ℕ → Type 0
Fits len (done n) = n ≤ len
Fits len (failed e) = Unit {0}

pub sublist_of_eq : {xs ys : List ℕ} → xs ≡ ys → Sublist xs ys
sublist_of_eq {xs} e = subst (Sublist xs) e (Sublist.refl xs)

pub equal-Passes :
    (c : Connection) (bytes : List ℕ) {r r' : Unit {0} × Connection × List Effect}
    → r ≡ r'
    → Passes c bytes r'.1 r'.2
    → Passes c bytes r.1 r.2
equal-Passes c bytes e t =
    subst (λ (r : Unit {0} × Connection × List Effect). Passes c bytes r.1 r.2) (sym e) t

-- Where buffers and callbacks stay and nothing is sent, new bytes are dropped.
pub dropped-Passes :
    (c d : Connection) (bytes : List ℕ) (es : List Effect)
    → Sane c
    → d.input_buffer ≡ c.input_buffer
    → d.output_buffer ≡ c.output_buffer
    → d.message_callback ≡ c.message_callback
    → d.write_complete_callback ≡ c.write_complete_callback
    → sent es ≡ []
    → Passes c bytes d es
dropped-Passes c d bytes es s i o m w none_sent = record {
  sane = record {
    input = rw i s.input;
    output = rw o s.output;
    handled = rw i s.handled;
    echoing = m ∙ s.echoing;
    plain = w ∙ s.plain;
  };
  order = rw (none_sent, o) (sublist-append_left (contents c.output_buffer) bytes);
  input_bounded = rw i (omega arith);
  output_bounded = rw o (omega arith);
}

-- What is left of `bytes` after the first `n` were sent is queued, if it is anything.
rest-Passes :
    (w : M (Unit {0})) (bytes : List ℕ) (n m : ℕ) (c : Connection) (es : List Effect)
    → Sane c
    → n ≤ length bytes
    → m ≡ length bytes - n
    → length c.output_buffer.buffer + length bytes ≤ max_size
    → sent es ≡ take n bytes
    → (n ≡ 0) ⊎ (contents c.output_buffer ≡ [])
    → Passes c bytes
        (queue_rest w bytes (attempt_of n m) c).1
        (es ++ (queue_rest w bytes (attempt_of n m) c).2)
rest-Passes w bytes n m c es s h e k took ahead =
    let left : length (drop n bytes) ≡ m = length-drop n bytes ∙ sym e in
    let whole : take m (drop n bytes) ≡ drop n bytes = take_all m (drop n bytes) (omega arith) in
    let order : take n bytes ++ (contents c.output_buffer ++ drop n bytes)
        ≡ contents c.output_buffer ++ bytes =
      sent_ahead n bytes (contents c.output_buffer) ahead in
    elim (Bool-cases (ltb 0 m)) [
      | inl more ↦
          let a : Holds (append c.output_buffer (drop n bytes))
              (contents c.output_buffer ++ drop n bytes) _ =
            append-Holds c.output_buffer (drop n bytes) s.output (omega arith) in
          rw (queue_rest_some w bytes (attempt_of n m) c refl (ltb→lt 0 m more), whole)
            (record {
              sane = record {
                input = s.input;
                output = a.valid;
                handled = s.handled;
                echoing = s.echoing;
                plain = s.plain;
              };
              order = sublist_of_eq (
                  rw
                    (
                      sent-append es (queue_effects c),
                      took,
                      sent-queue_effects c,
                      append-nil,
                      a.bytes,
                    )
                    order);
              input_bounded = omega arith;
              output_bounded = omega (arith, a.bounded);
            })
      | inr none_left ↦
          let no_more : m ≡ 0 = ground arith in
          let empty : drop n bytes ≡ [] = drop_all n bytes (omega arith) in
          rw (queue_rest_none w bytes (attempt_of n m) c no_more) (record {
            sane = s;
            order =
                sublist_of_eq
                  (rw (sent-append es [], took, append-nil) (rw (empty, append-nil) at order));
            input_bounded = omega arith;
            output_bounded = omega arith;
          })
    ]

attempt-Passes :
    (w : M (Unit {0})) (bytes : List ℕ) (n m : ℕ) (c : Connection) (es : List Effect)
    (r : Attempt × Connection × List Effect)
    → r ≡ (attempt_of n m, c, es)
    → Sane c
    → n ≤ length bytes
    → m ≡ length bytes - n
    → length c.output_buffer.buffer + length bytes ≤ max_size
    → sent es ≡ take n bytes
    → (n ≡ 0) ⊎ (contents c.output_buffer ≡ [])
    → Passes c bytes (queue_rest w bytes r.0 r.1).1 (r.2 ++ (queue_rest w bytes r.0 r.1).2)
attempt-Passes w bytes n m c es r e s h k fits took ahead =
    rw e (rest-Passes w bytes n m c es s h k fits took ahead)

-- EPIPE and ECONNRESET: the bytes are dropped.
fault-Passes :
    (w : M (Unit {0})) (bytes : List ℕ) (e : Errno) (c : Connection)
    → Sane c
    → is_fault e ≡ true
    → (readable_bytes c.output_buffer == 0) ≡ true
    → let r = try_send w bytes (failed e) c in
      Passes c bytes (queue_rest w bytes r.0 r.1).1 (r.2 ++ (queue_rest w bytes r.0 r.1).2)
unfolding try_send queue_rest
fault-Passes w bytes e c s fault empty =
    rw (empty, fault) (dropped-Passes c c bytes [] s refl refl refl refl refl)

send_empty-Passes :
    (w : M (Unit {0})) (bytes : List ℕ) (answer : Syscall ℕ) (c : Connection)
    → Sane c
    → Fits (length bytes) answer
    → length c.output_buffer.buffer + length bytes ≤ max_size
    → (readable_bytes c.output_buffer == 0) ≡ true
    → let r = try_send w bytes answer c in
      Passes c bytes (queue_rest w bytes r.0 r.1).1 (r.2 ++ (queue_rest w bytes r.0 r.1).2)
send_empty-Passes w bytes (done n) c s ok k empty =
    attempt-Passes w bytes n (sub_size (length bytes) n) c (sends (take n bytes) ∷ []) _
      (sends_bytes w bytes n c s.plain empty) s ok (omega (arith, s.output.small)) k
      (append-nil (take n bytes)) (inr (nothing_waits c.output_buffer s.output empty))
send_empty-Passes w bytes (failed e) c s ok k empty = elim (Bool-cases (is_fault e)) [
  | inl fault ↦ fault-Passes w bytes e c s fault empty
  | inr harmless ↦
      attempt-Passes w bytes 0 (length bytes) c [] _ (sends_nothing w bytes e c harmless empty) s
        (omega arith) (omega arith) k refl (inl refl)
]

-- `sendInLoop` in any state and for any answer.
pub send_in_loop-Passes :
    (w : M (Unit {0})) (bytes : List ℕ) (answer : Syscall ℕ) (c : Connection)
    → Sane c
    → Fits (length bytes) answer
    → length c.output_buffer.buffer + length bytes ≤ max_size
    → Passes c bytes
        (after (send_in_loop w bytes answer) c)
        (effects (send_in_loop w bytes answer) c)
unfolding send_in_loop
send_in_loop-Passes w bytes answer c s ok k = elim (Bool-cases (is_connected c.state)) [
  | inr off ↦ rw off (dropped-Passes c c bytes [] s refl refl refl refl refl)
  | inl live ↦ elim (Bool-cases (readable_bytes c.output_buffer == 0)) [
    | inr waiting ↦
        rw (live, send_waiting w bytes answer c waiting)
          (rest-Passes w bytes 0 (length bytes) c [] s (omega arith) (omega arith) k refl
            (inl refl))
    | inl empty ↦ rw live (send_empty-Passes w bytes answer c s ok k empty)
  ]
]
