-- ===== src/Client.antt =====
-- examples/client.cpp: the test client, with its interactive mode and its benchmark.
-- A message is a list of bytes. What the kernel answers is an argument, and in the two loops a
-- function from the number of a message and the message. What is printed is left out, but for the
-- mismatches of the benchmark, which are counted.
pub mod Options
pub mod Benchmark
mod Tests
use Prim.Native.String.{String}
use echoserver.Prelude.{
  ℕ, zero, suc, ◌+◌, ◌/◌, ◌%◌, Bool, true, false, not, ◌&&◌, ◌||◌, Option, none, some, List, [],
  ◌∷◌, ◌++◌, ltb, ◌==◌, if◌then◌else◌, take, length,
}
use echoserver.Prelude.Digits.{to_string}
use echoserver.Prelude.Bytes.{c_string}
use echoserver.Prelude.Syscall.{Syscall, done, failed}

-- `socket_fd_`, `none` where it is below 0.
pub record SimpleClient : Type 0 where
  pub socket_fd : Option ℕ

abbrev pub new_client : SimpleClient
new_client = record { socket_fd = none }

-- `socket`, `inet_pton` and `connect` answer in this order.
unfoldable pub connect : Syscall ℕ → Bool → Syscall (Unit {0}) → SimpleClient → Bool × SimpleClient
connect (failed e) address_ok answer c = (false, record { socket_fd = none })
connect (done fd) address_ok (failed e) c = (false, record { socket_fd = some fd })
connect (done fd) address_ok (done u) c = (address_ok, record { socket_fd = some fd })

-- The descriptor that is closed.
unfoldable pub disconnect : SimpleClient → Option ℕ × SimpleClient
disconnect c = (c.socket_fd, record { socket_fd = none })

unfoldable pub send_message : List ℕ → Syscall ℕ → SimpleClient → Bool
send_message message answer c = elim c.socket_fd [
  | none ↦ false
  | some fd ↦ elim answer [ done n ↦ true | failed e ↦ false ]
]

-- `sizeof(buffer) - 1`
abbrev pub room : ℕ
room = 1023

unfoldable pub receive_message : Syscall (List ℕ) → SimpleClient → List ℕ
receive_message answer c = elim c.socket_fd [
  | none ↦ []
  | some fd ↦ elim answer [ done bytes ↦ c_string (take room bytes) | failed e ↦ [] ]
]

-- "Benchmark message "
abbrev pub prefix : List ℕ
prefix =
    66 ∷ 101 ∷ 110 ∷ 99 ∷ 104 ∷ 109 ∷ 97 ∷ 114 ∷ 107 ∷ 32 ∷ 109 ∷ 101 ∷ 115 ∷ 115 ∷ 97 ∷ 103 ∷ 101
    ∷ 32 ∷ []

-- The number of a message is an `int`: ten digits are enough.
unfoldable pub benchmark_message : ℕ → List ℕ
benchmark_message i = prefix ++ to_string 9 (i + 1)

abbrev pub same : List ℕ → List ℕ → Bool
same [] [] = true
same (x ∷ xs) (y ∷ ys) = if x == y then same xs ys else false
same _ _ = false

-- "quit" or "exit"
abbrev pub is_quit : List ℕ → Bool
is_quit input = same input (113 ∷ 117 ∷ 105 ∷ 116 ∷ []) || same input (101 ∷ 120 ∷ 105 ∷ 116 ∷ [])

-- What the kernel answers to `send` and `recv` for the message with a number.
pub record Answers : Type 0 where
  pub to_send : ℕ → List ℕ → Syscall ℕ
  pub to_recv : ℕ → List ℕ → Syscall (List ℕ)

pub record Report : Type 0 where
  pub sent : List (List ℕ)
  pub mismatches : ℕ
  pub complete : Bool

abbrev pub empty_report : Report
empty_report = record { sent = []; mismatches = 0; complete = true }

module _ (answers : Answers) where
  -- The loop of `benchmarkMode` from message `i` on, `n` messages more.
  unfoldable pub benchmark_loop : ℕ → ℕ → SimpleClient → Report
  unfolding send_message receive_message benchmark_message
  benchmark_loop zero i c = empty_report
  benchmark_loop (suc n) i c =
      let message = benchmark_message i in
      let response = receive_message (answers.to_recv i message) c in
      let rest = benchmark_loop n (i + 1) c in
      if send_message message (answers.to_send i message) c
      then record {
        sent = message ∷ rest.sent;
        mismatches = (if same response message then 0 else 1) + rest.mismatches;
        complete = rest.complete;
      }
      else record { sent = []; mismatches = 0; complete = false }

  unfoldable pub benchmark_mode : Syscall ℕ → Bool → Syscall (Unit {0}) → ℕ → Report
  unfolding benchmark_loop connect
  benchmark_mode opened address_ok connected n =
      let (ok, c) = connect opened address_ok connected new_client in
      if ok then benchmark_loop n 0 c else record { sent = []; mismatches = 0; complete = false }

  -- The loop of `interactiveMode` on the lines of the input: the messages that are sent, and
  -- whether the loop has ended.
  unfoldable pub interactive_loop : List (List ℕ) → ℕ → SimpleClient → List (List ℕ) × Bool
  unfolding send_message
  interactive_loop [] i c = ([], false)
  interactive_loop (input ∷ inputs) i c =
      let (sent, ended) = interactive_loop inputs (i + 1) c in
      if is_quit input
      then ([], true)
      else (if length input == 0
          then (sent, ended)
          else (if send_message input (answers.to_send i input) c
              then (input ∷ sent, ended)
              else (sent, ended)))
