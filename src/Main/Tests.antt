-- ===== src/Main/Tests.antt =====
-- Concrete command lines, and the conditions of the theorems at them.
use Prim.Native.String.{String}
use text.Mathlib.Text.{◌==◌ as str_eq}
use echoserver.Prelude.{◌≡◌, refl, Bool, true, false, some, length, [], ◌∷◌, if◌then◌else◌}
use echoserver.Prelude.Int.{ℤ, pos}
use echoserver.Main.{
  Config, defaults, fails, invalid_port, runs, parse, classify, take_option, valid_port, open_log,
}
use echoserver.Main.Options.{HasPort}
use echoserver.EchoServer.{Listening, create, start}
use echoserver.Main.Serve.{main, finish, serve_logged, serve, looping, runs_main, main-serves}

-- `atoi` at the texts that are used here.
abbrev atoi : String → ℤ
atoi s = if str_eq s "9000" then pos 9000 else (if str_eq s "70000" then pos 70000 else pos 0)

abbrev on_9000 : Config
on_9000 = record (defaults 4) { port = 9000 }

port_is_taken : parse atoi ("-p" ∷ "9000" ∷ []) (defaults 4) ≡ runs on_9000
unfolding parse take_option classify valid_port
port_is_taken = refl

too_large : parse atoi ("-p" ∷ "70000" ∷ []) (defaults 4) ≡ fails invalid_port
unfolding parse take_option classify valid_port
too_large = refl

-- The port is taken by another process.
abbrev in_use : Listening
in_use = record { created = true; bound = false; listens = true }

started_nothing :
    (main atoi 4 ("-p" ∷ "9000" ∷ []) true looping in_use).served
    ≡ some (on_9000, [], record (create 4) { started = true })
unfolding main finish serve_logged serve open_log parse take_option classify valid_port create start
started_nothing = refl

main-serves_example :
    HasPort on_9000
    × ((main atoi 4 ("-p" ∷ "9000" ∷ []) true looping in_use).code ≡ 0)
    × (◌≡◌ {A = Bool} true true)
    × (runs_main [] ≡ false)
    × (length (create 4).loops ≡ 0)
unfolding create
main-serves_example =
    main-serves atoi 4 ("-p" ∷ "9000" ∷ []) true looping in_use on_9000 []
      (record (create 4) { started = true }) started_nothing
