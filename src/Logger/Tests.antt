-- ===== src/Logger/Tests.antt =====
-- Concrete runs of the logger, and the conditions of its theorem at them.
use echoserver.Prelude.{◌≡◌, refl, true, [], ◌∷◌, some}
use echoserver.Logger.{debug, info, warn, error, Logger, log, parse_log_level}
use echoserver.Logger.Lines.{Call, log_all, line_of}

abbrev greeting : Call
greeting = record { level = info; message = "hello"; time = 10; thread = 1 }

abbrev detail : Call
detail = record { level = debug; message = "bytes"; time = 11; thread = 2 }

abbrev alarm : Call
alarm = record { level = error; message = "lost"; time = 12; thread = 1 }

abbrev with_file : Logger
with_file = record { current_level = info; log_file = some true }

written : (log_all (detail ∷ greeting ∷ []) with_file).file ≡ line_of greeting ∷ []
unfolding log_all log
written = refl

warn_is_read : parse_log_level "WARN" ≡ warn
unfolding parse_log_level
warn_is_read = refl
