-- ===== src/Main.antt =====
-- src/main.cpp: the command line of the server.
-- `atoi` of the C library is an argument, and so is the number of processors. What is printed is
-- left out; an outcome says how `main` goes on.
pub mod Options
mod Serve
mod Tests
use Prim.Native.String.{String}
use text.Mathlib.Text.{◌==◌ as str_eq}
use echoserver.Prelude.{
  ℕ, Bool, true, false, ◌||◌, Option, none, some, List, [], ◌∷◌, ltb, ◌==◌, if◌then◌else◌,
}
use echoserver.Prelude.Int.{ℤ, is_negative, pos_part}
use echoserver.Logger.{LogLevel, info, parse_log_level}

pub record Config : Type 0 where
  pub address : String
  pub port : ℕ
  pub thread_num : ℕ
  pub log_level : LogLevel
  pub log_file : String

abbrev pub defaults : ℕ → Config
defaults processors = record {
  address = "0.0.0.0";
  port = 8080;
  thread_num = processors;
  log_level = info;
  log_file = "";
}

pub data Failure : Type 0 where
  invalid_port : Failure
  invalid_thread_number : Failure
  missing_value : Failure
  unknown_option : Failure

pub data Outcome : Type 0 where
  shows_help : Outcome
  fails : Failure → Outcome
  runs : Config → Outcome

-- What an argument in the place of an option asks for.
pub data Kind : Type 0 where
  help : Kind
  port_option : Kind
  address_option : Kind
  threads_option : Kind
  level_option : Kind
  file_option : Kind
  unknown : Kind

abbrev is_option : String → String → String → Bool
is_option arg short long = str_eq arg short || str_eq arg long

-- The conditions of the chain of `if`s.
unfoldable pub classify : String → Kind
classify arg =
    if is_option arg "-h" "--help"
    then help
    else (if is_option arg "-p" "--port"
        then port_option
        else (if is_option arg "-a" "--address"
            then address_option
            else (if is_option arg "-t" "--threads"
                then threads_option
                else (if is_option arg "-l" "--log-level"
                    then level_option
                    else (if is_option arg "-f" "--log-file" then file_option else unknown)))))

-- The loop goes on, or `main` returns.
pub data Next : Type 0 where
  goes_on : Config → Next
  returns : Outcome → Next

-- An option where the arguments end.
unfoldable pub last_option : Kind → Outcome
last_option help = shows_help
last_option unknown = fails unknown_option
last_option _ = fails missing_value

abbrev pub continue : (Config → Outcome) → Next → Outcome
continue loop (goes_on c) = loop c
continue loop (returns o) = o

module _ (atoi : String → ℤ) where
  -- `port > 0 && port <= 65535`
  unfoldable pub valid_port : ℤ → Bool
  valid_port n = if pos_part n == 0 then false else (if ltb 65535 (pos_part n) then false else true)

  -- An option with the argument behind it.
  unfoldable pub take_option : Kind → String → Config → Next
  unfolding valid_port
  take_option help v c = returns shows_help
  take_option port_option v c =
      if valid_port (atoi v)
      then goes_on (record c { port = pos_part (atoi v) })
      else returns (fails invalid_port)
  take_option address_option v c = goes_on (record c { address = v })
  take_option threads_option v c =
      if is_negative (atoi v)
      then returns (fails invalid_thread_number)
      else goes_on (record c { thread_num = pos_part (atoi v) })
  take_option level_option v c = goes_on (record c { log_level = parse_log_level v })
  take_option file_option v c = goes_on (record c { log_file = v })
  take_option unknown v c = returns (fails unknown_option)

  -- The loop over `argv` from `i` on.
  unfoldable pub parse : List String → Config → Outcome
  unfolding take_option last_option
  parse [] c = runs c
  parse (arg ∷ []) c = last_option (classify arg)
  parse (arg ∷ v ∷ rest) c = continue (parse rest) (take_option (classify arg) v c)

-- `main` up to the server: a log file that cannot be opened ends it.
unfoldable pub open_log : Bool → Outcome → Option Config
open_log opened (runs c) = if str_eq c.log_file "" || opened then some c else none
open_log opened _ = none
