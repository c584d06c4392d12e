-- ===== src/Peer/Progress.antt =====
-- What one event of EPOLLOUT does for a client that waits for its bytes.
use echoserver.Prelude.{
  ℕ, suc, ◌+◌, ◌-◌, ◌≤◌, ◌<◌, min, ◌≡◌, refl, sym, ap, ◌∙◌, ◌⊎◌, inl, inr, Bool, true, false, not,
  List, [], ◌∷◌, arith, ◌==◌, ==_iff, length, length-append, append-nil, Bool-cases,
}
use echoserver.Prelude.Bytes.{length-slice}
use echoserver.Prelude.Syscall.{Syscall, done}
use echoserver.Buffer.{readable_bytes, retrieve}
use echoserver.Buffer.Invariant.{contents}
use echoserver.Handler.{has, epollout, on_write}
use echoserver.Connection.{
  Connection, connected, Effect, sends, shuts_down_write, updates_handler, after, effects,
}
use echoserver.Connection.Operations.{handle_write, finish_writing, shutdown_in_loop}
use echoserver.Connection.Lifecycle.{idle}
use echoserver.Connection.Transfers.{sent, readable-length}
use echoserver.Connection.Writing.{front, written, handle_write_drains, handle_write_partly}
use echoserver.Peer.{Peer, act_on, member_function, handle_callback}
use echoserver.Peer.Honest.{Small, callback-total}
use echoserver.Peer.Exact.{Faithful, callback-Exact}

-- Effects that change no loop and report nothing.
abbrev pub calm : List Effect → Bool
calm [] = true
calm (sends bytes ∷ es) = calm es
calm (shuts_down_write ∷ es) = calm es
calm (updates_handler mask ∷ es) = calm es
calm (_ ∷ es) = false

write_keeps_state :
    (reply : Syscall ℕ) (c : Connection) → (after (handle_write idle reply) c).state ≡ c.state
unfolding handle_write finish_writing shutdown_in_loop
write_keeps_state reply c = ground arith

write_is_calm :
    (reply : Syscall ℕ) (c : Connection) → calm (effects (handle_write idle reply) c) ≡ true
unfolding handle_write finish_writing shutdown_in_loop
write_is_calm reply c = ground arith

finish_sends_nothing : (c : Connection) → sent (effects (finish_writing idle) c) ≡ []
unfolding finish_writing shutdown_in_loop
finish_sends_nothing c = ground arith

write_sends :
    (n : ℕ) (c : Connection)
    → has c.events epollout ≡ true
    → 0 < n
    → length (sent (effects (handle_write idle (done n)) c)) ≡ n
unfolding handle_write
write_sends n c on pos =
    let size : length (front idle n c on pos) ≡ n =
      length-slice c.output_buffer.buffer c.output_buffer.read_index n in
    elim (Bool-cases (readable_bytes (retrieve c.output_buffer n) == 0)) [
      | inl e ↦
          rw
            (
              handle_write_drains idle n c on pos e,
              finish_sends_nothing (written idle n c on pos),
              append-nil,
            )
            size
      | inr e ↦ rw (handle_write_partly idle n c on pos e, append-nil) size
    ]

-- A client that is connected, has met no fault, and waits for the rest of its bytes.
pub record Draining (p : Peer) : Type 0 where
  pub up : p.conn.state ≡ connected
  pub whole : p.faults ≡ 0
  pub small : Small p
  pub faithful : Faithful p

-- How many bytes wait.
abbrev pub waits : Peer → ℕ
waits p = length (contents p.conn.output_buffer)

-- After an event of EPOLLOUT, for which `send` takes some bytes.
pub record Progresses (p q : Peer) (rest : List (Syscall ℕ)) : Type 0 where
  pub draining : Draining q
  pub same_received : q.received ≡ p.received
  pub replies : q.script.replies ≡ rest
  pub fewer : waits q ≤ waits p - 1

waits_fall :
    (p q : Peer) (n : ℕ)
    → Faithful p
    → Faithful q
    → q.received ≡ p.received
    → length q.sent_back ≡ length p.sent_back + n
    → (waits p ≡ 0) ⊎ (0 < n)
    → waits q ≤ waits p - 1
waits_fall p q n f g same more some_sent =
    let before : length p.sent_back + waits p ≡ length p.received =
      sym (length-append p.sent_back (contents p.conn.output_buffer)) ∙ ap length f.order in
    let now : length q.sent_back + waits q ≡ length p.received =
      sym (length-append q.sent_back (contents q.conn.output_buffer))
      ∙ ap length g.order
      ∙ ap length same in
    ground (arith, before, now)

-- What `handleWrite` makes of an answer.
abbrev wrote : Peer → ℕ → List (Syscall ℕ) → Peer × List Effect
wrote p n rest =
    act_on (handle_write idle (done (min (suc n) (readable_bytes p.conn.output_buffer)))) []
      (record p { script = record p.script { replies = rest }; faults = p.faults + 0 })

wrote_lem :
    (p : Peer) (n : ℕ) (rest : List (Syscall ℕ))
    → p.script.replies ≡ done (suc n) ∷ rest
    → handle_callback on_write p ≡ wrote p n rest
unfolding handle_callback member_function
wrote_lem p n rest replies = rw (replies, handle_callback) refl

-- Some byte is sent where one waits.
some_sent :
    (p : Peer) (n : ℕ)
    → Faithful p
    → let k = min (suc n) (readable_bytes p.conn.output_buffer) in
      (waits p ≡ 0) ⊎ (0 < length (sent (effects (handle_write idle (done k)) p.conn)))
some_sent p n f =
    let k : ℕ = min (suc n) (readable_bytes p.conn.output_buffer) in
    let size : readable_bytes p.conn.output_buffer ≡ waits p =
      readable-length f.serving.output.valid in
    elim (Bool-cases (readable_bytes p.conn.output_buffer == 0)) [
      | inl none_waits ↦
          inl (sym size ∙ (==_iff (readable_bytes p.conn.output_buffer) 0).0 none_waits)
      | inr more ↦
          let on : has p.conn.events epollout ≡ true = f.serving.output.waiting ∙ ap not more in
          let pos : 0 < k = ground arith in inr (omega (arith, write_sends k p.conn on pos))
    ]

pub write-Progresses :
    (p : Peer) (n : ℕ) (rest : List (Syscall ℕ))
    → Draining p
    → p.script.replies ≡ done (suc n) ∷ rest
    → Progresses p (handle_callback on_write p).0 rest
unfolding act_on
write-Progresses p n rest d replies =
    let q : Peer = (handle_callback on_write p).0 in
    let k : ℕ = min (suc n) (readable_bytes p.conn.output_buffer) in
    let bytes : List ℕ = sent (effects (handle_write idle (done k)) p.conn) in
    let e : q ≡ (wrote p n rest).0 =
      ap (λ (r : Peer × List Effect). r.0) (wrote_lem p n rest replies) in
    let up : q.conn.state ≡ connected =
      ap (λ (r : Peer). r.conn.state) e ∙ write_keeps_state (done k) p.conn ∙ d.up in
    let whole : q.faults ≡ 0 = ap (λ (r : Peer). r.faults) e ∙ omega (arith, d.whole) in
    let f : Faithful p = d.faithful in
    let g : Faithful q = callback-Exact on_write p d.small (λ u w. f) up whole in
    let same : q.received ≡ p.received = ap (λ (r : Peer). r.received) e ∙ append-nil p.received in
    record {
      draining = record {
        up = up;
        whole = whole;
        small = omega (arith, d.small, callback-total on_write p);
        faithful = g;
      };
      same_received = same;
      replies = ap (λ (r : Peer). r.script.replies) e;
      fewer =
          waits_fall p q (length bytes) f g same
            (ap (λ (r : Peer). length r.sent_back) e ∙ length-append p.sent_back bytes)
            (some_sent p n f);
    }

pub write-calm :
    (p : Peer) (n : ℕ) (rest : List (Syscall ℕ))
    → p.script.replies ≡ done (suc n) ∷ rest
    → calm (handle_callback on_write p).1 ≡ true
unfolding act_on
write-calm p n rest replies =
    ap (λ (r : Peer × List Effect). calm r.1) (wrote_lem p n rest replies)
    ∙ write_is_calm (done (min (suc n) (readable_bytes p.conn.output_buffer))) p.conn
