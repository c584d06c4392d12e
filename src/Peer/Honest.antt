-- ===== src/Peer/Honest.antt =====
-- What a callback of a connection does to the bytes of its client.
use mathlib.Core.Path.{subst}
use mathlib.Core.List.{Sublist}
use mathlib.Core.List.Sublist
use echoserver.Prelude.{
  ℕ, ◌+◌, ◌≤◌, ◌≡◌, refl, sym, ap, List, [], ◌∷◌, ◌++◌, arith, length, length-append, append_assoc,
}
use echoserver.Prelude.Syscall.{Syscall, done, failed}
use echoserver.Buffer.{readable_bytes}
use echoserver.Buffer.Invariant.{contents, max_size}
use echoserver.Handler.{Callback, on_close, on_error, on_read, on_write}
use echoserver.Connection.{Connection, Effect, M, after, effects}
use echoserver.Connection.Transfers.{sent, readable-length}
use echoserver.Connection.Passing.{Sane, Passes, Fits, sublist_of_eq}
use echoserver.Connection.Reading.{handle_read-Passes, failed_read-Passes}
use echoserver.Connection.Handling.{handle_write-Passes, handle_close-Passes, handle_error-Passes}
use echoserver.Connection.Lifecycle.{idle}
use echoserver.Peer.{
  Script, Peer, next, takes, bytes_read, faults_in, member_function, act_on, next_answers,
  handle_callback,
}

-- How many bytes the answers to `readv` have.
abbrev pub scripted : List (Syscall (List ℕ)) → ℕ
scripted [] = 0
scripted (done bytes ∷ rest) = length bytes + scripted rest
scripted (failed e ∷ rest) = scripted rest

-- All that a client sends.
abbrev pub total : Peer → ℕ
total p = length p.received + scripted p.script.reads

-- What was sent back and what waits are, in order, some of what was received.
pub record Honest (p : Peer) : Type 0 where
  pub sane : Sane p.conn
  pub own : Sublist (p.sent_back ++ contents p.conn.output_buffer) p.received
  pub input_small : length p.conn.input_buffer.buffer ≤ 1032 + length p.received
  pub output_small : length p.conn.output_buffer.buffer ≤ 1032 + length p.received

-- Within the size limit of the buffers.
abbrev pub Small : Peer → Type 0
Small p = total p + 1032 ≤ max_size

pub act_on-Honest :
    (m : M (Unit {0})) (bytes : List ℕ) (p : Peer)
    → Honest p
    → Passes p.conn bytes (after m p.conn) (effects m p.conn)
    → Honest (act_on m bytes p).0
unfolding act_on
act_on-Honest m bytes p h t =
    let es : List Effect = effects m p.conn in
    let d : Connection = after m p.conn in
    record {
      sane = t.sane;
      own =
          Sublist.trans
            (sublist_of_eq (append_assoc p.sent_back (sent es) (contents d.output_buffer)))
            (Sublist.trans (Sublist.append (Sublist.refl p.sent_back) t.order) (
              Sublist.trans
                (sublist_of_eq
                  (sym (append_assoc p.sent_back (contents p.conn.output_buffer) bytes)))
                (Sublist.append h.own (Sublist.refl bytes))));
      input_small = omega (arith, length-append p.received bytes, t.input_bounded, h.input_small);
      output_small =
          omega (arith, length-append p.received bytes, t.output_bounded, h.output_small);
    }

takes-Fits : (len : ℕ) (reply : Syscall ℕ) → Fits len (takes len reply)
takes-Fits len (done n) = omega arith
takes-Fits len (failed e) = tt

member_function-Passes :
    (callback : Callback) (answer : Syscall (List ℕ)) (reply : Syscall ℕ) (c : Connection)
    → Sane c
    → length c.input_buffer.buffer + length (bytes_read callback answer) ≤ max_size
    → length c.output_buffer.buffer + length (bytes_read callback answer) ≤ max_size
    → let m = member_function callback answer reply in
      Passes c (bytes_read callback answer) (after m c) (effects m c)
unfolding member_function
member_function-Passes on_read (done bytes) reply c s i o =
    let offered : readable_bytes c.input_buffer + length bytes ≡ length bytes =
      omega (arith, readable-length s.input, ap length s.handled) in
    handle_read-Passes idle bytes (takes (readable_bytes c.input_buffer + length bytes) reply) c s
      (subst (λ len. Fits (length bytes) (takes len reply)) (sym offered)
        (takes-Fits (length bytes) reply))
      i o
member_function-Passes on_read (failed e) reply c s i o = failed_read-Passes _ e c s
member_function-Passes on_write answer reply c s i o =
    handle_write-Passes idle (takes (readable_bytes c.output_buffer) reply) c s
      (takes-Fits (readable_bytes c.output_buffer) reply)
member_function-Passes on_close answer reply c s i o = handle_close-Passes c s
member_function-Passes on_error answer reply c s i o = handle_error-Passes c s

next-scripted :
    (reads : List (Syscall (List ℕ)))
    → length (bytes_read on_read (next reads).0) + scripted (next reads).1 ≡ scripted reads
next-scripted [] = omega arith
next-scripted (done bytes ∷ rest) = refl
next-scripted (failed e ∷ rest) = omega arith

pub next_answers-scripted :
    (callback : Callback) (script : Script)
    → let (answers, rest) = next_answers callback script in
      length (bytes_read callback answers.0) + scripted rest.reads ≡ scripted script.reads
next_answers-scripted on_read script = next-scripted script.reads
next_answers-scripted on_write script = omega arith
next_answers-scripted on_close script = omega arith
next_answers-scripted on_error script = omega arith

-- Every callback keeps the bytes that the client sends in all.
pub callback-total :
    (callback : Callback) (p : Peer) → total (handle_callback callback p).0 ≡ total p
unfolding handle_callback act_on
callback-total callback p =
    let (answers, rest) = next_answers callback p.script in
    omega (
      arith,
      next_answers-scripted callback p.script,
      length-append p.received (bytes_read callback answers.0),
    )

pub callback-Honest :
    (callback : Callback) (p : Peer) → Honest p → Small p → Honest (handle_callback callback p).0
unfolding handle_callback
callback-Honest callback p h small =
    let (answers, rest) = next_answers callback p.script in
    let q : Peer = record p { script = rest; faults = p.faults + faults_in answers.1 } in
    let count : length (bytes_read callback answers.0) + scripted rest.reads
        ≡ scripted p.script.reads =
      next_answers-scripted callback p.script in
    act_on-Honest (member_function callback answers.0 answers.1) (bytes_read callback answers.0) q
      (record {
        sane = h.sane;
        own = h.own;
        input_small = h.input_small;
        output_small = h.output_small;
      })
      (member_function-Passes callback answers.0 answers.1 q.conn h.sane
        (omega (arith, h.input_small)) (omega (arith, h.output_small)))
