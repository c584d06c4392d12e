-- ===== src/Connection/Writing.antt =====
-- `handleWrite` of a `Connection`: it sends from the front of what is waiting.
use mathlib.Core.Path.{subst}
use echoserver.Prelude.{
  ℕ, zero, suc, ◌-◌, ◌≤◌, ◌<◌, ◌≡◌, refl, sym, ap, ◌∙◌, ◌⊎◌, inl, inr, Bool, true, false, List, [],
  ◌∷◌, ◌++◌, append-nil, arith, ◌==◌, Bool-cases, if◌then◌else◌, length, drop, take-append-drop,
}
use echoserver.Prelude.Bytes.{slice}
use echoserver.Prelude.Syscall.{Errno, Syscall, done, failed}
use echoserver.Buffer.{Buffer, readable_bytes, retrieve}
use echoserver.Buffer.Invariant.{IsValid, contents}
use echoserver.Buffer.Queueing.{Holds, retrieve-Holds, take-slice}
use echoserver.Handler.{has, epollout, disable_writing}
use echoserver.Handler.Masks.{IsInterest, Lawful, masks_lem}
use echoserver.Connection.{
  Connection, Effect, sends, shuts_down_write, updates_handler, is_disconnecting, M, after, effects,
}
use echoserver.Connection.Operations.{handle_write, finish_writing}
use echoserver.Connection.Transfers.{sent, Sound, Transfers, Accepts}

-- The buffer is drained by `handleWrite`: the interest goes, and a connection that is
-- disconnecting closes its side.
pub finish_writing_lem :
    (w : M (Unit {0})) (c : Connection)
    → IsInterest c.events
    → c.write_complete_callback ≡ false
    → finish_writing w c ≡ (
      tt,
      record c { events = disable_writing c.events },
      updates_handler (disable_writing c.events)
          ∷ (if is_disconnecting c.state then shuts_down_write ∷ [] else []),
    )
unfolding finish_writing
finish_writing_lem w c i plain = ground (arith, masks_lem c.events i)

nothing_written : (c : Connection) → Sound c → Transfers c [] (length c.output_buffer.buffer) c []
nothing_written c s = record {
  sound = s;
  order = sym (append-nil _);
  bounded = omega arith;
  reading = refl;
  framed = refl;
}

module _ (w : M (Unit {0})) (n : ℕ) (c : Connection) (on : has c.events epollout ≡ true)
    (pos : 0 < n) where
  abbrev pub written : Connection
  written = record c { output_buffer = retrieve c.output_buffer n }

  abbrev pub front : List ℕ
  front = slice c.output_buffer.buffer c.output_buffer.read_index n

  pub handle_write_drains :
      (readable_bytes written.output_buffer == 0) ≡ true
      → handle_write w (done n) c
        ≡ (tt, (finish_writing w written).1, sends front ∷ (finish_writing w written).2)
  unfolding handle_write
  handle_write_drains e = ground arith

  pub handle_write_partly :
      (readable_bytes written.output_buffer == 0) ≡ false
      → handle_write w (done n) c ≡ (tt, written, sends front ∷ [])
  unfolding handle_write
  handle_write_partly e = ground arith

pub handle_write_idle :
    (w : M (Unit {0})) (n : ℕ) (c : Connection)
    → (has c.events epollout ≡ false) ⊎ (n ≡ 0)
    → handle_write w (done n) c ≡ (tt, c, [])
unfolding handle_write
handle_write_idle w n c h = ground arith

pub handle_write_failed :
    (w : M (Unit {0})) (e : Errno) (c : Connection) → handle_write w (failed e) c ≡ (tt, c, [])
unfolding handle_write
handle_write_failed w e c = ground arith

pub front_and_rest :
    (b : Buffer) (n : ℕ)
    → IsValid b
    → n ≤ readable_bytes b
    → slice b.buffer b.read_index n ++ contents (retrieve b n) ≡ contents b
front_and_rest b n v h =
    let r : Holds (retrieve b n) (drop n (contents b)) (length b.buffer) = retrieve-Holds b n v in
    rw (r.bytes, ← take-slice b.buffer n b.read_index (b.write_index - b.read_index) (omega arith))
      (take-append-drop n (contents b))

abbrev Run : Type 0
Run = Unit {0} × Connection × List Effect

-- An action whose value is known transfers what its value says.
equal-Transfers :
    (c : Connection) (bytes : List ℕ) (bound : ℕ) {r r' : Run}
    → r ≡ r'
    → Transfers c bytes bound r'.1 r'.2
    → Transfers c bytes bound r.1 r.2
equal-Transfers c bytes bound e t = subst (λ (r : Run). Transfers c bytes bound r.1 r.2) (sym e) t

sent_closing : (d : Bool) → sent (if d then shuts_down_write ∷ [] else []) ≡ []
sent_closing d = ground arith

module _ (w : M (Unit {0})) (n : ℕ) (c : Connection) (s : Sound c)
    (plain : c.write_complete_callback ≡ false) (ok : n ≤ readable_bytes c.output_buffer)
    (on : has c.events epollout ≡ true) (pos : 0 < n) where
  drains-Transfers :
      (readable_bytes (retrieve c.output_buffer n) == 0) ≡ true
      → Transfers c []
          (length c.output_buffer.buffer)
          (after (handle_write w (done n)) c)
          (effects (handle_write w (done n)) c)
  drains-Transfers e =
      let r : Holds (retrieve c.output_buffer n) _ (length c.output_buffer.buffer) =
        retrieve-Holds c.output_buffer n s.valid in
      let l : Lawful c.events = masks_lem c.events s.interest in
      let order : slice c.output_buffer.buffer c.output_buffer.read_index n
            ++ contents (retrieve c.output_buffer n)
          ≡ contents c.output_buffer ++ [] =
        front_and_rest c.output_buffer n s.valid ok ∙ sym (append-nil _) in
      equal-Transfers c [] _ (handle_write_drains w n c on pos e) (
        equal-Transfers c [] _
          (ap (λ (r : Run). (tt, r.1, sends (front w n c on pos) ∷ r.2))
            (finish_writing_lem w (written w n c on pos) s.interest plain))
          (record {
            sound = record {
              valid = r.valid;
              interest = l.silent_interest;
              waiting = rw (l.silent, e) refl;
            };
            order = rw (sent_closing (is_disconnecting c.state), append-nil) order;
            bounded = r.bounded;
            reading = l.reading_kept;
            framed = refl;
          }))

  partly-Transfers :
      (readable_bytes (retrieve c.output_buffer n) == 0) ≡ false
      → Transfers c []
          (length c.output_buffer.buffer)
          (after (handle_write w (done n)) c)
          (effects (handle_write w (done n)) c)
  partly-Transfers e =
      let r : Holds (retrieve c.output_buffer n) _ (length c.output_buffer.buffer) =
        retrieve-Holds c.output_buffer n s.valid in
      let order : slice c.output_buffer.buffer c.output_buffer.read_index n
            ++ contents (retrieve c.output_buffer n)
          ≡ contents c.output_buffer ++ [] =
        front_and_rest c.output_buffer n s.valid ok ∙ sym (append-nil _) in
      equal-Transfers c [] _ (handle_write_partly w n c on pos e) (record {
        sound = record { valid = r.valid; interest = s.interest; waiting = rw (on, e) refl };
        order = rw append-nil order;
        bounded = r.bounded;
        reading = refl;
        framed = refl;
      })

-- `handleWrite` sends from the front of what is waiting, whatever part of it `send` accepts.
pub handle_write-Transfers :
    (w : M (Unit {0})) (answer : Syscall ℕ) (c : Connection)
    → Sound c
    → c.write_complete_callback ≡ false
    → Accepts (readable_bytes c.output_buffer) answer
    → Transfers c []
        (length c.output_buffer.buffer)
        (after (handle_write w answer) c)
        (effects (handle_write w answer) c)
handle_write-Transfers w (failed e) c s plain ok =
    equal-Transfers c [] _ (handle_write_failed w e c) (nothing_written c s)
handle_write-Transfers w (done zero) c s plain ok =
    equal-Transfers c [] _ (handle_write_idle w 0 c (inr refl)) (nothing_written c s)
handle_write-Transfers w (done (suc n)) c s plain ok = elim (Bool-cases (has c.events epollout)) [
  | inr off ↦ equal-Transfers c [] _ (handle_write_idle w (suc n) c (inl off)) (nothing_written c s)
  | inl on ↦ elim (Bool-cases (readable_bytes (retrieve c.output_buffer (suc n)) == 0)) [
    | inl e ↦ drains-Transfers w (suc n) c s plain ok on (omega arith) e
    | inr e ↦ partly-Transfers w (suc n) c s plain ok on (omega arith) e
  ]
]
