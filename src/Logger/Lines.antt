-- ===== src/Logger/Lines.antt =====
-- Which messages are written, and where.
use Prim.Native.String.{String}
use text.Mathlib.TextEquality.{eq_iff}
use echoserver.Prelude.{ℕ, ◌≡◌, ◌≢◌, refl, List, [], ◌∷◌, ◌++◌, arith, leb, if◌then◌else◌}
use echoserver.Logger.{
  is_open, LogLevel, info, value, Logger, Line, Output, log, get_level_string, parse_log_level,
}

-- One call of `log`, with its time and thread.
pub record Call : Type 0 where
  pub level : LogLevel
  pub message : String
  pub time : ℕ
  pub thread : ℕ

abbrev pub line_of : Call → Line
line_of c = record {
  timestamp = c.time;
  level = get_level_string c.level;
  thread_id = c.thread;
  message = c.message;
}

-- What a sequence of calls writes.
unfoldable pub log_all : List Call → Logger → Output
log_all [] l = record { console = []; file = [] }
log_all (c ∷ cs) l =
    let first = log c.level c.message c.time c.thread l in
    let rest = log_all cs l in
    record { console = first.console ++ rest.console; file = first.file ++ rest.file }

-- The lines of the calls at a level or above.
abbrev pub at_least : LogLevel → List Call → List Line
at_least level [] = []
at_least level (c ∷ cs) =
    if leb (value level) (value c.level) then line_of c ∷ at_least level cs else at_least level cs

-- The console gets the lines of the calls at the current level or above, in order, and a log file
-- that is open gets the same lines, any other none.
pub log_all_lem :
    (cs : List Call) (l : Logger)
    → ((log_all cs l).console ≡ at_least l.current_level cs)
      × ((log_all cs l).file ≡ (if is_open l.log_file then at_least l.current_level cs else []))
unfolding log_all log
log_all_lem [] l = (refl, ground arith)
log_all_lem (c ∷ cs) l =
    (ground (arith, (log_all_lem cs l).0), ground (arith, (log_all_lem cs l).1))

-- The names that `parseLogLevel` knows, and INFO for any other text.
pub parse_log_level_default :
    (s : String) → s ≢ "DEBUG" → s ≢ "WARN" → s ≢ "ERROR" → s ≢ "FATAL" → parse_log_level s ≡ info
unfolding parse_log_level
parse_log_level_default s d w e f =
    ground (arith, eq_iff s "DEBUG", eq_iff s "WARN", eq_iff s "ERROR", eq_iff s "FATAL")
