-- ===== src/Connection/Transfers.antt =====
-- How bytes move through the output buffer of a connection: what it means, and the queueing.
use echoserver.Prelude.{
  ℕ, ◌+◌, ◌≤◌, ◌<◌, ◌≡◌, refl, sym, inl, inr, true, false, not, List, [], ◌∷◌, ◌++◌, arith, ◌==◌,
  Bool-cases, if◌then◌else◌, length, take, drop, length-append,
}
use echoserver.Prelude.Syscall.{Syscall, done, failed}
use echoserver.Buffer.{Buffer, readable_bytes, append}
use echoserver.Buffer.Invariant.{IsValid, contents, max_size}
use echoserver.Buffer.Queueing.{Holds, append-Holds, length-contents}
use echoserver.Handler.{has, epollin, epollout, enable_writing}
use echoserver.Handler.Masks.{IsInterest, Lawful, masks_lem}
use echoserver.Connection.{Connection, Effect, sends, updates_handler, M}
use echoserver.Connection.Operations.{Attempt, is_fault, queue_rest}

-- The bytes that a list of effects hands to the kernel.
abbrev pub sent : List Effect → List ℕ
sent [] = []
sent (sends bytes ∷ es) = bytes ++ sent es
sent (_ ∷ es) = sent es

-- The interest in EPOLLOUT is there exactly when bytes are waiting.
pub record Sound (c : Connection) : Type 0 where
  pub valid : IsValid c.output_buffer
  pub interest : IsInterest c.events
  pub waiting : has c.events epollout ≡ not (readable_bytes c.output_buffer == 0)

-- The bytes that were waiting, and then `bytes`, are what `es` sent and what waits in `d`; no more
-- than the mask and the output buffer has changed.
pub record Transfers (c : Connection) (bytes : List ℕ) (bound : ℕ) (d : Connection)
    (es : List Effect) : Type 0 where
  pub sound : Sound d
  pub order : sent es ++ contents d.output_buffer ≡ contents c.output_buffer ++ bytes
  pub bounded : length d.output_buffer.buffer ≤ bound
  pub reading : has d.events epollin ≡ has c.events epollin
  pub framed : d ≡ record c { events = d.events; output_buffer = d.output_buffer }

-- An answer of `send` for `len` bytes that is no EPIPE or ECONNRESET.
abbrev pub Accepts : ℕ → Syscall ℕ → Type 0
Accepts len (done n) = n ≤ len
Accepts len (failed e) = is_fault e ≡ false

pub readable-length : {b : Buffer} → IsValid b → readable_bytes b ≡ length (contents b)
readable-length {b} v = omega (arith, length-contents b)

pub not_zero : (n : ℕ) → 0 < n → not (n == 0) ≡ true
not_zero n h = ground arith

module _ (c : Connection) where
  -- An append of some bytes, with the interest set where it was not.
  abbrev pub queued : List ℕ → Connection
  queued bytes = record c {
    output_buffer = append c.output_buffer bytes;
    events = if not (has c.events epollout) then enable_writing c.events else c.events;
  }

  abbrev pub queue_effects : List Effect
  queue_effects =
      if not (has c.events epollout) then updates_handler (enable_writing c.events) ∷ [] else []

pub sent-queue_effects : (c : Connection) → sent (queue_effects c) ≡ []
sent-queue_effects c = ground arith

pub queue_rest_some :
    (w : M (Unit {0})) (bytes : List ℕ) (a : Attempt) (c : Connection)
    → a.fault_error ≡ false
    → 0 < a.remaining
    → queue_rest w bytes a c
      ≡ (tt, queued c (take a.remaining (drop a.nwrote bytes)), queue_effects c)
unfolding queue_rest
queue_rest_some w bytes a c e h = ground arith

pub queue_rest_none :
    (w : M (Unit {0})) (bytes : List ℕ) (a : Attempt) (c : Connection)
    → a.remaining ≡ 0
    → queue_rest w bytes a c ≡ (tt, c, [])
unfolding queue_rest
queue_rest_none w bytes a c h = ground arith

pub queued-Transfers :
    (c : Connection) (bytes : List ℕ) (es : List Effect)
    → Sound c
    → 0 < length bytes
    → length c.output_buffer.buffer + length bytes ≤ max_size
    → sent es ≡ []
    → Transfers c bytes (length c.output_buffer.buffer + length bytes) (queued c bytes) es
queued-Transfers c bytes es s some_bytes h none_sent =
    let a : Holds (append c.output_buffer bytes) (contents c.output_buffer ++ bytes) _ =
      append-Holds c.output_buffer bytes s.valid h in
    let l : Lawful c.events = masks_lem c.events s.interest in
    let full : 0 < readable_bytes (append c.output_buffer bytes) =
      rw (readable-length a.valid, a.bytes, length-append (contents c.output_buffer) bytes)
        (omega arith) in
    elim (Bool-cases (has c.events epollout)) [
      | inl on ↦ rw on (record {
        sound = record {
          valid = a.valid;
          interest = s.interest;
          waiting = rw on (sym (not_zero _ full));
        };
        order = rw none_sent a.bytes;
        bounded = a.bounded;
        reading = refl;
        framed = refl;
      })
      | inr off ↦ rw off (record {
        sound = record {
          valid = a.valid;
          interest = l.writing_interest;
          waiting = rw l.writing (sym (not_zero _ full));
        };
        order = rw none_sent a.bytes;
        bounded = a.bounded;
        reading = l.still_reading;
        framed = refl;
      })
    ]
