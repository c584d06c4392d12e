-- ===== src/Handler.antt =====
-- include/event_loop.h and src/event_loop.cpp, the class `EventHandler`: a file descriptor, the
-- events it is interested in, and the callbacks that an event reaches.
-- The masks have the values of <sys/epoll.h>. A callback is represented by whether it is set; what
-- it does belongs to the component that sets it. The result of `handle_events` is the list of the
-- callbacks that are called, in order.
pub mod Masks
pub mod Dispatch
mod Tests
use Prim.Native.Nat.{bit_and, bit_or}
use echoserver.Prelude.{
  ℕ, ◌+◌, ◌-◌, ◌^◌, Bool, true, false, not, ◌&&◌, List, [], ◌∷◌, ◌++◌, ◌==◌, if◌then◌else◌,
}

abbrev pub epollin : ℕ
epollin = 0x1

abbrev pub epollpri : ℕ
epollpri = 0x2

abbrev pub epollout : ℕ
epollout = 0x4

abbrev pub epollerr : ℕ
epollerr = 0x8

abbrev pub epollhup : ℕ
epollhup = 0x10

abbrev pub epollrdhup : ℕ
epollrdhup = 0x2000

pub data Callback : Type 0 where
  on_close : Callback
  on_error : Callback
  on_read : Callback
  on_write : Callback

pub record EventHandler : Type 0 where
  pub fd : ℕ
  pub events : ℕ
  pub read_callback : Bool
  pub write_callback : Bool
  pub error_callback : Bool
  pub close_callback : Bool

pub create : ℕ → EventHandler
create fd = record {
  fd = fd;
  events = 0;
  read_callback = false;
  write_callback = false;
  error_callback = false;
  close_callback = false;
}

unfoldable pub set_read_callback : Bool → EventHandler → EventHandler
set_read_callback callback h = record h { read_callback = callback }

unfoldable pub set_write_callback : Bool → EventHandler → EventHandler
set_write_callback callback h = record h { write_callback = callback }

unfoldable pub set_error_callback : Bool → EventHandler → EventHandler
set_error_callback callback h = record h { error_callback = callback }

unfoldable pub set_close_callback : Bool → EventHandler → EventHandler
set_close_callback callback h = record h { close_callback = callback }

-- `events & mask`, as a condition.
unfoldable pub has : ℕ → ℕ → Bool
has events mask = not (bit_and events mask == 0)

unfoldable pub enable_reading : ℕ → ℕ
enable_reading events = bit_or events epollin

unfoldable pub enable_writing : ℕ → ℕ
enable_writing events = bit_or events epollout

-- `events & ~EPOLLOUT`, over 32 bits
unfoldable pub disable_writing : ℕ → ℕ
disable_writing events = bit_and events (2 ^ 32 - 1 - epollout)

abbrev pub disable_all : ℕ
disable_all = 0

abbrev pub is_none_event : EventHandler → Bool
is_none_event h = h.events == 0

-- A callback is called if it is set.
abbrev call : Bool → Callback → List Callback
call set c = if set then c ∷ [] else []

unfoldable pub handle_events : EventHandler → ℕ → List Callback
handle_events h events =
    if has events epollhup && not (has events epollin)
    then call h.close_callback on_close
    else ((if has events epollerr then call h.error_callback on_error else [])
        ++ ((if has events 0x2003 then call h.read_callback on_read else [])
            ++ (if has events epollout then call h.write_callback on_write else [])))
