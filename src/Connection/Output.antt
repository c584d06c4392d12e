-- ===== src/Connection/Output.antt =====
-- The output side of a `Connection`: `sendInLoop` keeps the bytes in order, and the
-- interest in EPOLLOUT tells whether bytes are waiting.
use echoserver.Prelude.{
  ℕ, ◌+◌, ◌-◌, ◌≤◌, ◌≡◌, refl, sym, ap, ◌∙◌, ◌⊎◌, inl, inr, true, false, List, [], ◌∷◌, ◌++◌,
  append-nil, append_assoc, arith, ltb, ltb→lt, ◌==◌, ==_iff, Bool-cases, length, take, drop,
  sub_size, take-append-drop, take_all, drop_all, length-drop,
}
use echoserver.Prelude.Syscall.{Errno, Syscall, done, failed}
use echoserver.Buffer.{Buffer, readable_bytes}
use echoserver.Buffer.Invariant.{IsValid, contents, max_size}
use echoserver.Connection.{
  Connection, Effect, sends, shuts_down_write, adds_handler, updates_handler, removes_handler,
  calls_close, calls_error, posts, is_connected, M, after, effects, connected,
}
use echoserver.Connection.Operations.{Attempt, is_fault, try_send, queue_rest, send_in_loop}
use echoserver.Connection.Transfers.{
  sent, Sound, Transfers, Accepts, readable-length, queue_effects, sent-queue_effects,
  queue_rest_some, queue_rest_none, queued-Transfers, queued,
}

abbrev pub attempt_of : ℕ → ℕ → Attempt
attempt_of nwrote remaining = record { nwrote = nwrote; remaining = remaining; fault_error = false }

-- `sendInLoop` where bytes are waiting already: it only queues.
pub send_waiting :
    (w : M (Unit {0})) (bytes : List ℕ) (answer : Syscall ℕ) (c : Connection)
    → (readable_bytes c.output_buffer == 0) ≡ false
    → try_send w bytes answer c ≡ (attempt_of 0 (length bytes), c, [])
unfolding try_send
send_waiting w bytes answer c e = rw e

pub sends_bytes :
    (w : M (Unit {0})) (bytes : List ℕ) (n : ℕ) (c : Connection)
    → c.write_complete_callback ≡ false
    → (readable_bytes c.output_buffer == 0) ≡ true
    → try_send w bytes (done n) c
      ≡ (attempt_of n (sub_size (length bytes) n), c, sends (take n bytes) ∷ [])
unfolding try_send
sends_bytes w bytes n c plain e = ground arith

pub sends_nothing :
    (w : M (Unit {0})) (bytes : List ℕ) (e : Errno) (c : Connection)
    → is_fault e ≡ false
    → (readable_bytes c.output_buffer == 0) ≡ true
    → try_send w bytes (failed e) c ≡ (attempt_of 0 (length bytes), c, [])
unfolding try_send
sends_nothing w bytes e c harmless h = rw (h, harmless)

-- Two steps, the later one first, keep the order together.
pub chain :
    (a b x d r later c : List ℕ)
    → b ++ x ≡ d ++ later
    → a ++ d ≡ c ++ r
    → (a ++ b) ++ x ≡ c ++ (r ++ later)
chain a b x d r later c e h =
    append_assoc a b x
    ∙ ap (◌++◌ a) e
    ∙ sym (append_assoc a d later)
    ∙ ap (λ t. t ++ later) h
    ∙ append_assoc c r later

pub sent-append : (xs ys : List Effect) → sent (xs ++ ys) ≡ sent xs ++ sent ys
sent-append [] ys = refl
sent-append (sends bytes ∷ xs) ys =
    ap (◌++◌ bytes) (sent-append xs ys) ∙ sym (append_assoc bytes (sent xs) (sent ys))
sent-append (shuts_down_write ∷ xs) ys = sent-append xs ys
sent-append (adds_handler m ∷ xs) ys = sent-append xs ys
sent-append (updates_handler m ∷ xs) ys = sent-append xs ys
sent-append (removes_handler ∷ xs) ys = sent-append xs ys
sent-append (calls_close ∷ xs) ys = sent-append xs ys
sent-append (calls_error ∷ xs) ys = sent-append xs ys
sent-append (posts t ∷ xs) ys = sent-append xs ys

-- A part that is sent ahead of what is waiting keeps the order if nothing is waiting.
pub sent_ahead :
    (n : ℕ) (bytes xs : List ℕ)
    → (n ≡ 0) ⊎ (xs ≡ [])
    → take n bytes ++ (xs ++ drop n bytes) ≡ xs ++ bytes
sent_ahead n bytes xs (inl e) = rw e
sent_ahead n bytes xs (inr e) = rw e (take-append-drop n bytes)

-- What is left of `bytes` after the first `n` were sent is queued, if it is anything.
rest-Transfers :
    (w : M (Unit {0})) (bytes : List ℕ) (n m : ℕ) (c : Connection) (es : List Effect)
    → Sound c
    → n ≤ length bytes
    → m ≡ length bytes - n
    → length c.output_buffer.buffer + length bytes ≤ max_size
    → sent es ≡ take n bytes
    → (n ≡ 0) ⊎ (contents c.output_buffer ≡ [])
    → Transfers c bytes
        (length c.output_buffer.buffer + length bytes)
        (queue_rest w bytes (attempt_of n m) c).1
        (es ++ (queue_rest w bytes (attempt_of n m) c).2)
rest-Transfers w bytes n m c es s h e k took ahead =
    let left : length (drop n bytes) ≡ m = length-drop n bytes ∙ sym e in
    let whole : take m (drop n bytes) ≡ drop n bytes = take_all m (drop n bytes) (omega arith) in
    let order : take n bytes ++ (contents c.output_buffer ++ drop n bytes)
        ≡ contents c.output_buffer ++ bytes =
      sent_ahead n bytes (contents c.output_buffer) ahead in
    elim (Bool-cases (ltb 0 m)) [
      | inl more ↦
          let t : Transfers c (drop n bytes) _ (queued c (drop n bytes)) (queue_effects c) =
            queued-Transfers c (drop n bytes) (queue_effects c) s (ground arith) (omega arith)
              (sent-queue_effects c) in
          let waits : contents (queued c (drop n bytes)).output_buffer
              ≡ contents c.output_buffer ++ drop n bytes =
            rw (sent-queue_effects c) at t.order in
          rw (queue_rest_some w bytes (attempt_of n m) c refl (ltb→lt 0 m more), whole)
            (record {
              sound = t.sound;
              order =
                  rw
                    (
                      sent-append es (queue_effects c),
                      took,
                      sent-queue_effects c,
                      append-nil,
                      waits,
                    )
                    order;
              bounded = omega (arith, t.bounded);
              reading = t.reading;
              framed = t.framed;
            })
      | inr none_left ↦
          let no_more : m ≡ 0 = ground arith in
          let empty : drop n bytes ≡ [] = drop_all n bytes (omega arith) in
          rw (queue_rest_none w bytes (attempt_of n m) c no_more) (record {
            sound = s;
            order = rw (sent-append es [], took, append-nil) (rw (empty, append-nil) at order);
            bounded = omega arith;
            reading = refl;
            framed = refl;
          })
    ]

attempt-Transfers :
    (w : M (Unit {0})) (bytes : List ℕ) (n m : ℕ) (c : Connection) (es : List Effect)
    (r : Attempt × Connection × List Effect)
    → r ≡ (attempt_of n m, c, es)
    → Sound c
    → n ≤ length bytes
    → m ≡ length bytes - n
    → length c.output_buffer.buffer + length bytes ≤ max_size
    → sent es ≡ take n bytes
    → (n ≡ 0) ⊎ (contents c.output_buffer ≡ [])
    → Transfers c bytes
        (length c.output_buffer.buffer + length bytes)
        (queue_rest w bytes r.0 r.1).1
        (r.2 ++ (queue_rest w bytes r.0 r.1).2)
attempt-Transfers w bytes n m c es r e s h k fits took ahead =
    rw e (rest-Transfers w bytes n m c es s h k fits took ahead)

length_zero : {A : Type 0} (xs : List A) → length xs ≡ 0 → xs ≡ []
length_zero [] e = refl
length_zero (x ∷ xs) e = absurd (omega arith)

pub nothing_waits : (b : Buffer) → IsValid b → (readable_bytes b == 0) ≡ true → contents b ≡ []
nothing_waits b v e =
    length_zero (contents b) (sym (readable-length v) ∙ (==_iff (readable_bytes b) 0).0 e)

-- `sendInLoop` where nothing is waiting: what the kernel does not take is queued.
send_empty-Transfers :
    (w : M (Unit {0})) (bytes : List ℕ) (answer : Syscall ℕ) (c : Connection)
    → Sound c
    → c.write_complete_callback ≡ false
    → Accepts (length bytes) answer
    → length c.output_buffer.buffer + length bytes ≤ max_size
    → (readable_bytes c.output_buffer == 0) ≡ true
    → let r = try_send w bytes answer c in
      Transfers c bytes
        (length c.output_buffer.buffer + length bytes)
        (queue_rest w bytes r.0 r.1).1
        (r.2 ++ (queue_rest w bytes r.0 r.1).2)
send_empty-Transfers w bytes (done n) c s plain ok k empty =
    attempt-Transfers w bytes n (sub_size (length bytes) n) c (sends (take n bytes) ∷ []) _
      (sends_bytes w bytes n c plain empty) s ok (omega arith) k (append-nil (take n bytes))
      (inr (nothing_waits c.output_buffer s.valid empty))
send_empty-Transfers w bytes (failed e) c s plain ok k empty =
    attempt-Transfers w bytes 0 (length bytes) c [] _ (sends_nothing w bytes e c ok empty) s
      (omega arith) (omega arith) k refl (inl refl)

-- On a connected connection, whose interest in EPOLLOUT tells whether bytes are waiting, without a
-- write-complete callback and within the size limit of the buffer, `sendInLoop` keeps the order of the bytes: what was waiting and then
-- the new bytes are what is sent and what waits. That holds where `send` accepts any part of the
-- bytes and where it fails with another error than EPIPE and ECONNRESET.
pub send_in_loop-Transfers :
    (w : M (Unit {0})) (bytes : List ℕ) (answer : Syscall ℕ) (c : Connection)
    → Sound c
    → c.state ≡ connected
    → c.write_complete_callback ≡ false
    → Accepts (length bytes) answer
    → length c.output_buffer.buffer + length bytes ≤ max_size
    → Transfers c bytes
        (length c.output_buffer.buffer + length bytes)
        (after (send_in_loop w bytes answer) c)
        (effects (send_in_loop w bytes answer) c)
unfolding send_in_loop
send_in_loop-Transfers w bytes answer c s up plain ok k =
    let live : is_connected c.state ≡ true = ap is_connected up in
    elim (Bool-cases (readable_bytes c.output_buffer == 0)) [
      | inr waiting ↦
          rw (live, send_waiting w bytes answer c waiting)
            (rest-Transfers w bytes 0 (length bytes) c [] s (omega arith) (omega arith) k refl
              (inl refl))
      | inl empty ↦ rw live (send_empty-Transfers w bytes answer c s plain ok k empty)
    ]
