-- ===== src/Logger.antt =====
-- include/logger.h and src/logger.cpp: the level, the log file, and what a message writes.
-- A line is the record of its parts; the time and the thread's id are arguments, and so is whether
-- the file could be opened. The mutex makes each operation one step.
pub mod Lines
mod Tests
use Prim.Native.String.{String}
use text.Mathlib.Text.{◌==◌ as str_eq}
use echoserver.Prelude.{ℕ, Bool, true, false, Option, none, some, List, [], ◌∷◌, ltb, if◌then◌else◌}

pub data LogLevel : Type 0 where
  debug : LogLevel
  info : LogLevel
  warn : LogLevel
  error : LogLevel
  fatal : LogLevel

-- The enumeration's values.
abbrev pub value : LogLevel → ℕ
value debug = 0
value info = 1
value warn = 2
value error = 3
value fatal = 4

unfoldable pub get_level_string : LogLevel → String
get_level_string debug = "DEBUG"
get_level_string info = "INFO "
get_level_string warn = "WARN "
get_level_string error = "ERROR"
get_level_string fatal = "FATAL"

-- `log_file_` is `none` before a file was set, and otherwise says whether it is open.
pub record Logger : Type 0 where
  pub current_level : LogLevel
  pub log_file : Option Bool

abbrev pub initial : Logger
initial = record { current_level = info; log_file = none }

pub record Line : Type 0 where
  pub timestamp : ℕ
  pub level : String
  pub thread_id : ℕ
  pub message : String

pub record Output : Type 0 where
  pub console : List Line
  pub file : List Line

unfoldable pub set_log_level : LogLevel → Logger → Logger
set_log_level level l = record l { current_level = level }

-- An open file is closed first.
unfoldable pub set_log_file : Bool → Logger → Bool × Logger
set_log_file opened l = (opened, record l { log_file = some opened })

abbrev pub is_open : Option Bool → Bool
is_open none = false
is_open (some opened) = opened

unfoldable pub log : LogLevel → String → ℕ → ℕ → Logger → Output
unfolding get_level_string
log level message time thread l =
    let line : Line = record {
      timestamp = time;
      level = get_level_string level;
      thread_id = thread;
      message = message;
    } in
    if ltb (value level) (value l.current_level)
    then record { console = []; file = [] }
    else record { console = line ∷ []; file = if is_open l.log_file then line ∷ [] else [] }

-- `debug`, `info`, `warn`, `error` and `fatal` in the order of the levels.
unfoldable pub log_debug : String → ℕ → ℕ → Logger → Output
unfolding log
log_debug message time thread l = log debug message time thread l

unfoldable pub log_info : String → ℕ → ℕ → Logger → Output
unfolding log
log_info message time thread l = log info message time thread l

unfoldable pub log_warn : String → ℕ → ℕ → Logger → Output
unfolding log
log_warn message time thread l = log warn message time thread l

unfoldable pub log_error : String → ℕ → ℕ → Logger → Output
unfolding log
log_error message time thread l = log error message time thread l

unfoldable pub log_fatal : String → ℕ → ℕ → Logger → Output
unfolding log
log_fatal message time thread l = log fatal message time thread l

-- The destructor: whether a file is closed.
unfoldable pub close_log : Logger → Bool
close_log l = is_open l.log_file

-- `parseLogLevel` of src/main.cpp.
unfoldable pub parse_log_level : String → LogLevel
parse_log_level level =
    if str_eq level "DEBUG"
    then debug
    else (if str_eq level "INFO"
        then info
        else (if str_eq level "WARN"
            then warn
            else (if str_eq level "ERROR"
                then error
                else (if str_eq level "FATAL" then fatal else info))))
