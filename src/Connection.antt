-- ===== src/Connection.antt =====
-- include/connection.h: the state of a `Connection`, and how its member functions act.
-- A member function is an action of the monad `M`: it changes the connection and leaves a list of
-- effects, in order, which the event loop, the kernel or the server carry out. Callbacks that the
-- code calls last (close, error) are effects; those after which it goes on are arguments. What a
-- system call returns is an argument too. `name_` is the number in it.
pub mod Operations
pub mod Transfers
pub mod Output
pub mod Writing
pub mod Receiving
pub mod Echo
pub mod Lifecycle
pub mod Flush
pub mod Posting
pub mod Dropping
pub mod Passing
pub mod Handling
pub mod Reading
mod Tests
use echoserver.Prelude.{ℕ, Bool, true, false, ◌&&◌, List, [], ◌∷◌, ◌++◌, if◌then◌else◌}
use echoserver.Buffer.{Buffer}
use echoserver.Handler.{EventHandler}

pub data ConnectionState : Type 0 where
  connecting : ConnectionState
  connected : ConnectionState
  disconnecting : ConnectionState
  disconnected : ConnectionState

pub record Connection : Type 0 where
  pub name : ℕ
  pub fd : ℕ
  pub events : ℕ
  pub state : ConnectionState
  pub input_buffer : Buffer
  pub output_buffer : Buffer
  pub message_callback : Bool
  pub close_callback : Bool
  pub error_callback : Bool
  pub write_complete_callback : Bool

unfoldable pub set_message_callback : Bool → Connection → Connection
set_message_callback callback c = record c { message_callback = callback }

unfoldable pub set_close_callback : Bool → Connection → Connection
set_close_callback callback c = record c { close_callback = callback }

unfoldable pub set_error_callback : Bool → Connection → Connection
set_error_callback callback c = record c { error_callback = callback }

unfoldable pub set_write_complete_callback : Bool → Connection → Connection
set_write_complete_callback callback c = record c { write_complete_callback = callback }

-- The lambdas that the code hands to `runInLoop`.
pub data Task : Type 0 where
  establishes : Task
  destroys : Task
  sends_in_loop : List ℕ → Task
  shuts_down_in_loop : Task
  force_closes_in_loop : Task

pub data Effect : Type 0 where
  -- The kernel accepted these bytes for the peer.
  sends : List ℕ → Effect
  -- `shutdown(fd, SHUT_WR)`
  shuts_down_write : Effect
  -- Calls of the event loop, with the mask of the handler.
  adds_handler : ℕ → Effect
  updates_handler : ℕ → Effect
  removes_handler : Effect
  calls_close : Effect
  calls_error : Effect
  -- `runInLoop` from another thread
  posts : Task → Effect

abbrev pub M : Type 0 → Type 0
M A = Connection → A × Connection × List Effect

infixl 5 ◌>>=◌
abbrev pub ◌>>=◌ : {A C : Type 0} → M A → (A → M C) → M C
◌>>=◌ m f c = let (a, c', before) = m c in let (b, c'', after) = f a c' in (b, c'', before ++ after)

abbrev pub pure : {A : Type 0} → A → M A
pure a c = (a, c, [])

infixl 5 ◌>>◌
abbrev pub ◌>>◌ : {A : Type 0} → M (Unit {0}) → M A → M A
first >> next = first >>= λ _. next

abbrev pub this : M Connection
this c = (c, c, [])

abbrev pub emit : Effect → M (Unit {0})
emit e c = (tt, c, e ∷ [])

abbrev pub set_state : ConnectionState → M (Unit {0})
set_state s c = (tt, record c { state = s }, [])

abbrev pub set_events : ℕ → M (Unit {0})
set_events e c = (tt, record c { events = e }, [])

abbrev pub set_input : Buffer → M (Unit {0})
set_input b c = (tt, record c { input_buffer = b }, [])

abbrev pub set_output : Buffer → M (Unit {0})
set_output b c = (tt, record c { output_buffer = b }, [])

abbrev pub when : Bool → M (Unit {0}) → M (Unit {0})
when test m c = if test then m c else (tt, c, [])

abbrev pub is_connected : ConnectionState → Bool
is_connected connected = true
is_connected _ = false

abbrev pub is_disconnecting : ConnectionState → Bool
is_disconnecting disconnecting = true
is_disconnecting _ = false

-- Into the loop at once from its own thread, and as a task from any other.
abbrev pub run_in_loop : Bool → Task → M (Unit {0}) → M (Unit {0})
run_in_loop in_loop task body = if in_loop then body else emit (posts task)

-- The state and the effects that an action leaves.
abbrev pub after : M (Unit {0}) → Connection → Connection
after m c = (m c).1

abbrev pub effects : M (Unit {0}) → Connection → List Effect
effects m c = (m c).2
