-- ===== src/Main/Serve.antt =====
-- src/main.cpp: `main` as a whole, from the command line to its exit code, and its signal handler.
-- Whether the log file can be opened, where the server throws, and the answers of the listening
-- socket are arguments.
use Prim.Native.String.{String}
use echoserver.Prelude.{
  ℕ, zero, suc, ◌+◌, ◌≡◌, refl, Bool, true, false, ◌&&◌, ◌||◌, Bool-cases, inl, inr,
  length-replicate, Option, none, some, List, [], ◌∷◌, ◌++◌, arith, min, replicate, ◌∙◌, length,
  if◌then◌else◌,
}
use text.Mathlib.Text.{◌==◌ as str_eq}
use echoserver.Prelude.Int.{ℤ}
use echoserver.Logger.{Logger, initial, set_log_level, set_log_file}
use mathlib.Core.Path.{subst, ap, sym}
use echoserver.EchoServer.{
  each, creates_loop, adds_acceptor, runs_main_loop, EchoServer, Action, Listening, create, start,
  stop,
}
use echoserver.Main.{Config, defaults, Outcome, shows_help, fails, runs, parse, open_log}
use echoserver.Main.Options.{HasPort, parse-HasPort, Ensures}

-- How the process ends: what the server was started with and what it did, if it was started.
pub record Exit : Type 0 where
  pub code : ℕ
  pub served : Option (Config × List Action × EchoServer)

-- The level and the file of the log.
unfoldable pub configure_log : Bool → Config → Logger
unfolding set_log_level set_log_file
configure_log opened c =
    let l = set_log_level c.log_level initial in
    if str_eq c.log_file "" then l else (set_log_file opened l).1

-- Where an exception comes from: from nowhere, from the constructor, from `start` when that many
-- workers are there, while it makes the next one or adds the acceptor, or from the main loop.
pub data Thrown : Type 0 where
  nowhere : Thrown
  creating : Thrown
  starting : ℕ → Thrown
  looping : Thrown

abbrev pub all_listen : Listening → Bool
all_listen answers = answers.created && (answers.bound && answers.listens)

-- `start` ends with an exception, `workers` of its threads being there.
unfoldable pub start_throws : ℕ → EchoServer → List Action × EchoServer
start_throws workers s = (
  each creates_loop (length s.loops) workers,
  record s { started = true; loops = s.loops ++ replicate workers true },
)

-- The `try` block: the server is created and started. It stays in `g_server` when `start` throws,
-- which it does only behind a listening socket.
unfoldable pub serve : Thrown → Listening → Config → Exit
unfolding create start start_throws
serve nowhere answers c =
    let (actions, s) = start answers (create c.thread_num) in
    record { code = 0; served = some (c, actions, s) }
serve creating answers c = record { code = 1; served = none }
serve (starting workers) answers c =
    let (actions, s) = start answers (create c.thread_num) in
    let (before, s') = start_throws (min workers c.thread_num) (create c.thread_num) in
    if all_listen answers
    then record { code = 1; served = some (c, before, s') }
    else record { code = 0; served = some (c, actions, s) }
serve looping answers c =
    let (actions, s) = start answers (create c.thread_num) in
    record { code = if all_listen answers then 1 else 0; served = some (c, actions, s) }

-- `main` behind the log: it ends where the log file cannot be opened.
unfoldable pub serve_logged : Thrown → Listening → Option Config → Exit
unfolding serve
serve_logged thrown answers none = record { code = 1; served = none }
serve_logged thrown answers (some c) = serve thrown answers c

-- `main` behind the loop over the arguments.
unfoldable pub finish : Bool → Thrown → Listening → Outcome → Exit
unfolding open_log serve_logged
finish opened thrown answers shows_help = record { code = 0; served = none }
finish opened thrown answers (fails f) = record { code = 1; served = none }
finish opened thrown answers (runs c) = serve_logged thrown answers (open_log opened (runs c))

unfoldable pub main : (String → ℤ) → ℕ → List String → Bool → Thrown → Listening → Exit
unfolding parse finish
main atoi processors args opened thrown answers =
    finish opened thrown answers (parse atoi args (defaults processors))

-- The server, where there is one, is stopped.
unfoldable pub signal_handler : Option EchoServer → List Action × Option EchoServer
unfolding stop
signal_handler none = ([], none)
signal_handler (some s) = let (actions, s') = stop s in (actions, some s')

-- How many workers there are where `start` comes to make them, and whether the main loop runs then.
abbrev pub workers_of : Thrown → ℕ → ℕ
workers_of (starting workers) n = min workers n
workers_of _ n = n

abbrev pub comes_to_run : Thrown → Bool
comes_to_run (starting workers) = false
comes_to_run _ = true

abbrev pub throws : Thrown → Bool
throws nowhere = false
throws _ = true

abbrev pub runs_main : List Action → Bool
runs_main [] = false
runs_main (runs_main_loop ∷ rest) = true
runs_main (_ ∷ rest) = runs_main rest

-- What is so where there is a server, with the exit code.
abbrev Started : Thrown → Listening → ℕ → Config × List Action × EchoServer → Type 0
Started thrown answers code (c, actions, s) =
    HasPort c
    × (code ≡ (if all_listen answers && throws thrown then 1 else 0))
    × (s.started ≡ true)
    × (runs_main actions ≡ (all_listen answers && comes_to_run thrown))
    × (length s.loops ≡ (if all_listen answers then workers_of thrown c.thread_num else 0))

runs_main-each :
    (i n : ℕ) (rest : List Action) → runs_main (each creates_loop i n ++ rest) ≡ runs_main rest
runs_main-each i zero rest = refl
runs_main-each i (suc n) rest = runs_main-each (i + 1) n rest

runs_main-creates : (i n : ℕ) → runs_main (each creates_loop i n) ≡ false
runs_main-creates i zero = refl
runs_main-creates i (suc n) = runs_main-creates (i + 1) n

-- Where `start` returns, or its main loop throws.
start-lem :
    (answers : Listening) (n : ℕ)
    → ((start answers (create n)).1.started ≡ true)
      × (runs_main (start answers (create n)).0 ≡ all_listen answers)
      × (length (start answers (create n)).1.loops ≡ (if all_listen answers then n else 0))
unfolding start create
start-lem answers n = (
  ground arith,
  ground (arith, runs_main-each 0 n (adds_acceptor ∷ runs_main_loop ∷ [])),
  ground (arith, length-replicate n true),
)

some_inj : {A : Type 0} {x y : A} → some x ≡ some y → x ≡ y
some_inj {x} e = ap (λ o. elim o [ none ↦ x | some a ↦ a ]) e

exits-Started :
    (thrown : Thrown) (answers : Listening) (exit : Exit) (code : ℕ)
    (x r : Config × List Action × EchoServer)
    → exit ≡ record { code = code; served = some x }
    → Started thrown answers code x
    → exit.served ≡ some r
    → Started thrown answers exit.code r
exits-Started thrown answers exit code x r is started e =
    subst (λ (n : ℕ). Started thrown answers n r) (sym (ap (λ (z : Exit). z.code) is))
      (subst (Started thrown answers code) (some_inj (sym (ap (λ (z : Exit). z.served) is) ∙ e))
        started)

thrown-Started :
    (answers : Listening) (workers : ℕ) (c : Config) (r : Config × List Action × EchoServer)
    → HasPort c
    → (serve (starting workers) answers c).served ≡ some r
    → Started (starting workers) answers (serve (starting workers) answers c).code r
unfolding serve start_throws create
thrown-Started answers workers c r h e =
    let (up, runs_now, loops) = start-lem answers c.thread_num in
    let made : ℕ = min workers c.thread_num in
    let exit : Exit = serve (starting workers) answers c in
    elim (Bool-cases (all_listen answers)) [
      | inl good ↦
          exits-Started (starting workers) answers exit 1
            (
              c,
              (start_throws made (create c.thread_num)).0,
              (start_throws made (create c.thread_num)).1,
            )
            r (rw (good, serve) refl)
            (
              h,
              rw good refl,
              refl,
              rw good (runs_main-creates 0 made),
              rw good (length-replicate made true),
            )
            e
      | inr bad ↦
          exits-Started (starting workers) answers exit 0
            (c, (start answers (create c.thread_num)).0, (start answers (create c.thread_num)).1) r
            (rw (bad, serve) refl) (h, rw bad refl, up, runs_now ∙ rw bad refl, loops ∙ rw bad refl)
            e
    ]

serve-Started :
    (thrown : Thrown) (answers : Listening) (c : Config) (r : Config × List Action × EchoServer)
    → HasPort c
    → (serve thrown answers c).served ≡ some r
    → Started thrown answers (serve thrown answers c).code r
unfolding serve
serve-Started nowhere answers c r h e =
    let (up, runs_now, loops) = start-lem answers c.thread_num in
    subst (Started nowhere answers 0) (some_inj e)
      (h, ground arith, up, runs_now ∙ ground arith, loops)
serve-Started creating answers c r h e = absurd (ground (arith, e))
serve-Started (starting workers) answers c r h e = thrown-Started answers workers c r h e
serve-Started looping answers c r h e =
    let (up, runs_now, loops) = start-lem answers c.thread_num in
    subst (Started looping answers (if all_listen answers then 1 else 0)) (some_inj e)
      (h, ground arith, up, runs_now ∙ ground arith, loops)

abbrev OnSome : (Config → Type 0) → Option Config → Type 0
OnSome P none = Unit {0}
OnSome P (some c) = P c

open_log-HasPort :
    (opened : Bool) (c : Config) → HasPort c → OnSome HasPort (open_log opened (runs c))
unfolding open_log
open_log-HasPort opened c h = elim (Bool-cases (str_eq c.log_file "" || opened)) [
  | inl logs ↦ rw logs h
  | inr stays_closed ↦ rw stays_closed tt
]

serve_logged-Started :
    (thrown : Thrown) (answers : Listening) (o : Option Config)
    (r : Config × List Action × EchoServer)
    → OnSome HasPort o
    → (serve_logged thrown answers o).served ≡ some r
    → Started thrown answers (serve_logged thrown answers o).code r
unfolding serve_logged
serve_logged-Started thrown answers none r h e = absurd (ground (arith, e))
serve_logged-Started thrown answers (some c) r h e = serve-Started thrown answers c r h e

finish-Started :
    (opened : Bool) (thrown : Thrown) (answers : Listening) (o : Outcome)
    (r : Config × List Action × EchoServer)
    → Ensures HasPort o
    → (finish opened thrown answers o).served ≡ some r
    → Started thrown answers (finish opened thrown answers o).code r
unfolding finish
finish-Started opened thrown answers shows_help r h e = absurd (ground (arith, e))
finish-Started opened thrown answers (fails f) r h e = absurd (ground (arith, e))
finish-Started opened thrown answers (runs c) r h e =
    serve_logged-Started thrown answers (open_log opened (runs c)) r (open_log-HasPort opened c h) e

-- Whatever the command line is and whatever `atoi` makes of it: where `main` gets as far as a server,
-- the port is from 1 to 65535 and the server is marked as started. Where `create`, `bind` or `listen`
-- of its socket fails, it has no worker loop, its main loop never runs, and the process exits with 0
-- all the same. Where they succeed, the process exits with 1 if `start` or its main loop throws and
-- with 0 if not; the main loop has run unless `start` threw before it; and there is one loop for each
-- worker thread, or for each of those that were there when `start` threw.
pub main-serves :
    (atoi : String → ℤ) (processors : ℕ) (args : List String) (opened : Bool) (thrown : Thrown)
    (answers : Listening) (c : Config) (actions : List Action) (s : EchoServer)
    → (main atoi processors args opened thrown answers).served ≡ some (c, actions, s)
    → HasPort c
      × ((main atoi processors args opened thrown answers).code
          ≡ (if all_listen answers && throws thrown then 1 else 0))
      × (s.started ≡ true)
      × (runs_main actions ≡ (all_listen answers && comes_to_run thrown))
      × (length s.loops ≡ (if all_listen answers then workers_of thrown c.thread_num else 0))
unfolding main
main-serves atoi processors args opened thrown answers c actions s h =
    finish-Started opened thrown answers (parse atoi args (defaults processors)) (c, actions, s)
      (parse-HasPort atoi args (defaults processors) (omega arith, omega arith)) h
