-- ===== src/Client/Tests.antt =====
-- Concrete runs of the test client, and the conditions of the theorems at them.
use Prim.Native.String.{String}
use text.Mathlib.Text.{◌==◌ as str_eq}
use echoserver.Prelude.{◌≡◌, refl, true, some, [], ◌∷◌, length, if◌then◌else◌}
use echoserver.Prelude.Int.{ℤ, pos}
use echoserver.Prelude.Syscall.{done}
use echoserver.Prelude.Digits.{to_string}
use echoserver.Client.{Answers, send_message, interactive_loop}
use echoserver.Client.Benchmark.{Echoing}
use echoserver.Client.Options.{starts, default_settings, client_parse, client_step, client_option}

abbrev echo : Answers
echo = record { to_send = λ i message. done (length message); to_recv = λ i message. done message }

echo-Echoing : Echoing echo
echo-Echoing = record { takes = λ i message. refl; echoes = λ i message. refl }

numbers_have_their_digits : to_string 9 2047 ≡ 50 ∷ 48 ∷ 52 ∷ 55 ∷ []
unfolding to_string
numbers_have_their_digits = refl

-- A message, an empty line, "quit", and a line that is not read.
quit_ends :
    interactive_loop echo
      ((7 ∷ []) ∷ [] ∷ (113 ∷ 117 ∷ 105 ∷ 116 ∷ []) ∷ (8 ∷ []) ∷ [])
      0
      (record { socket_fd = some 5 })
    ≡ ((7 ∷ []) ∷ [], true)
unfolding interactive_loop send_message
quit_ends = refl

abbrev atoi : String → ℤ
atoi s = if str_eq s "9999" then pos 9999 else pos 50

benchmark_is_read :
    client_parse atoi ("-b" ∷ "-p" ∷ "9999" ∷ "-b" ∷ "50" ∷ []) default_settings
    ≡ starts
        (record default_settings { server_port = 9999; benchmark_mode = true; num_messages = 50 })
unfolding client_parse client_step client_option
benchmark_is_read = refl
