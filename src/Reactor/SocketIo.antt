-- ===== src/Reactor/SocketIo.antt =====
-- wd_reactor_server/Reactor_v4/SocketIO.cc: reading and writing whole messages.
-- The kernel's side is the list of the bytes that the peer sends before it closes, and a script
-- with one answer for each system call. A loop that meets the end of the script is still running.
pub mod Reading
pub mod Writing
pub mod FirstLine
pub mod Lines
pub mod Closing
mod Tests
use echoserver.Prelude.{
  ℕ, zero, suc, ◌+◌, ◌-◌, min, Bool, true, false, List, [], ◌∷◌, ◌++◌, ◌==◌, if◌then◌else◌, length,
  take, drop,
}

-- `recv` and `send` handle up to `n + 1` bytes, or return -1 with EINTR or with another error.
pub data Answer : Type 0 where
  handles : ℕ → Answer
  interrupts : Answer
  fails : Answer

-- How a loop ends: it returns, it is still running where the script ends, or it reads behind the
-- end of its buffer.
pub data Outcome : Type 0 where
  returns : Outcome
  runs_on : Outcome
  overruns : Outcome

-- The bytes that were moved, those that are left, and what is left of the script.
pub record Progress : Type 0 where
  pub moved : List ℕ
  pub left : List ℕ
  pub script : List Answer
  pub outcome : Outcome

-- What `recv` returns for a buffer of `len` bytes: nothing where the peer has closed.
abbrev pub chunk : ℕ → ℕ → List ℕ → List ℕ
chunk len n incoming = take (min len (suc n)) incoming

abbrev pub extend : List ℕ → Progress → Progress
extend before p = record p { moved = before ++ p.moved }

unfoldable pub readn : ℕ → List Answer → List ℕ → Progress
readn zero script incoming = record {
  moved = [];
  left = incoming;
  script = script;
  outcome = returns;
}
readn (suc len) [] incoming = record { moved = []; left = incoming; script = []; outcome = runs_on }
readn (suc len) (interrupts ∷ script) incoming = readn (suc len) script incoming
readn (suc len) (fails ∷ script) incoming = record {
  moved = [];
  left = incoming;
  script = script;
  outcome = returns;
}
readn (suc len) (handles n ∷ script) incoming =
    let got = chunk (suc len) n incoming in
    let rest = readn (suc len - length got) script (drop (length got) incoming) in
    if length got == 0
    then record { moved = []; left = incoming; script = script; outcome = returns }
    else extend got rest

-- `send` takes at least one byte where it does not fail.
unfoldable pub writen : List ℕ → List Answer → Progress
writen [] script = record { moved = []; left = []; script = script; outcome = returns }
writen (b ∷ bs) [] = record { moved = []; left = b ∷ bs; script = []; outcome = runs_on }
writen (b ∷ bs) (interrupts ∷ script) = writen (b ∷ bs) script
writen (b ∷ bs) (fails ∷ script) = record {
  moved = [];
  left = b ∷ bs;
  script = script;
  outcome = returns;
}
writen (b ∷ bs) (handles n ∷ script) =
    extend (take (suc n) (b ∷ bs)) (writen (drop (suc n) (b ∷ bs)) script)

-- What MSG_PEEK shows, or the error, behind the interrupted calls.
pub data Peeked : Type 0 where
  shows : List ℕ → List Answer → Peeked
  peek_fails : List Answer → Peeked
  peek_runs_on : Peeked

unfoldable pub recv_peek : ℕ → List Answer → List ℕ → Peeked
recv_peek len [] incoming = peek_runs_on
recv_peek len (interrupts ∷ script) incoming = recv_peek len script incoming
recv_peek len (fails ∷ script) incoming = peek_fails script
recv_peek len (handles n ∷ script) incoming = shows (chunk len n incoming) script

abbrev pub newline : ℕ
newline = 10

-- The bytes up to the first newline and whether there is one.
unfoldable pub first_line : List ℕ → List ℕ × Bool
first_line [] = ([], false)
first_line (b ∷ bs) =
    if b == newline then (b ∷ [], true) else (b ∷ (first_line bs).0, (first_line bs).1)

-- After `readn` the loop of `readline` returns or goes on. Its buffer keeps what was peeked.
abbrev pub after_readn : List ℕ → Progress → Progress → Progress
after_readn text taken next = elim taken.outcome [
  | returns ↦ extend text next
  | _ ↦ record taken { moved = text }
]

-- `left` is the room in the buffer. The fuel bounds the rounds of the loop. Where `recvPeek` fails
-- the search for a newline runs from 0 to -1.
unfoldable pub readline : ℕ → ℕ → List Answer → List ℕ → Progress
unfolding readn recv_peek first_line
readline zero zero script incoming = record {
  moved = [];
  left = incoming;
  script = script;
  outcome = returns;
}
readline zero (suc left) script incoming = record {
  moved = [];
  left = incoming;
  script = script;
  outcome = runs_on;
}
readline (suc fuel) zero script incoming = record {
  moved = [];
  left = incoming;
  script = script;
  outcome = returns;
}
readline (suc fuel) (suc left) script incoming = elim (recv_peek (suc left) script incoming) [
  | peek_runs_on ↦ record { moved = []; left = incoming; script = []; outcome = runs_on }
  | peek_fails rest ↦ record { moved = []; left = incoming; script = rest; outcome = overruns }
  | shows peeked rest ↦
      let (line, found) = first_line peeked in
      let taken = readn (length line) rest incoming in
      let next = readline fuel (suc left - length line) taken.script taken.left in
      after_readn line taken (
        if found
        then record { moved = []; left = taken.left; script = taken.script; outcome = returns }
        else next)
]
