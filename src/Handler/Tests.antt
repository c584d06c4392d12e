-- ===== src/Handler/Tests.antt =====
-- Concrete events of a handler, and the conditions of the theorems at them.
use echoserver.Prelude.{◌≡◌, refl, true, [], ◌∷◌}
use echoserver.Handler.{EventHandler, on_close, on_read, has, handle_events}

-- A connection's handler, interested in reading and writing.
abbrev handler : EventHandler
handler = record {
  fd = 7;
  events = 5;
  read_callback = true;
  write_callback = true;
  error_callback = true;
  close_callback = true;
}

hang_up_closes : handle_events handler 0x10 ≡ on_close ∷ []
unfolding handle_events has
hang_up_closes = refl

hang_up_reads_first : handle_events handler 0x11 ≡ on_read ∷ []
unfolding handle_events has
hang_up_reads_first = refl
