-- ===== src/Socket.antt =====
-- include/socket.h and src/socket.cpp, the class `Socket`: a descriptor and the system calls on it.
-- A socket is its descriptor, `none` for -1. An operation takes the kernel's answers and returns
-- the system calls that it makes, in order. `inet_pton` is an argument. Log lines are left out.
pub mod Ownership
pub mod Guards
pub mod Address
mod Tests
use Prim.Native.String.{String}
use Prim.Native.Nat.{bit_and, bit_or}
use text.Mathlib.Text.{◌==◌ as str_eq}
use echoserver.Prelude.{
  ℕ, ◌-◌, ◌%◌, ◌^◌, Bool, true, false, not, ◌||◌, Option, none, some, List, [], ◌∷◌, ◌++◌,
  if◌then◌else◌,
}
use echoserver.Prelude.Syscall.{Errno, Syscall, done, failed}

abbrev pub Socket : Type 0
Socket = Option ℕ

pub data Request : Type 0 where
  opens : Request
  binds : ℕ → ℕ → ℕ → Request
  listens : ℕ → ℕ → Request
  accepts : ℕ → Request
  connects : ℕ → ℕ → ℕ → Request
  sends : ℕ → List ℕ → Request
  receives : ℕ → ℕ → Request
  gets_flags : ℕ → Request
  sets_flags : ℕ → ℕ → Request
  sets_option : ℕ → ℕ → ℕ → Request
  closes : ℕ → Request

abbrev pub is_valid : Socket → Bool
is_valid none = false
is_valid (some fd) = true

abbrev pub succeeded {ℓ} : {A : Type ℓ} → Syscall A → Bool
succeeded (done a) = true
succeeded (failed e) = false

unfoldable pub create : Syscall ℕ → Socket → Bool × Socket × List Request
create (done fd) s = (true, some fd, opens ∷ [])
create (failed e) s = (false, none, opens ∷ [])

-- `static_cast<uint16_t>(port)`
abbrev pub to_port : ℕ → ℕ
to_port port = port % 2 ^ 16

abbrev pub any_address : ℕ
any_address = 0

module _ (inet_pton : String → Option ℕ) where
  unfoldable pub bind_address : String → Option ℕ
  bind_address address =
      if str_eq address "" || str_eq address "0.0.0.0" then some any_address else inet_pton address

  unfoldable pub bind : String → ℕ → Syscall (Unit {0}) → Socket → Bool × List Request
  unfolding bind_address
  bind address port answer none = (false, [])
  bind address port answer (some fd) = elim (bind_address address) [
    | none ↦ (false, [])
    | some ip ↦ (succeeded answer, binds fd ip (to_port port) ∷ [])
  ]

  unfoldable pub connect : String → ℕ → Syscall (Unit {0}) → Socket → Bool × List Request
  connect address port answer none = (false, [])
  connect address port answer (some fd) = elim (inet_pton address) [
    | none ↦ (false, [])
    | some ip ↦ (succeeded answer, connects fd ip (to_port port) ∷ [])
  ]

unfoldable pub listen : ℕ → Syscall (Unit {0}) → Socket → Bool × List Request
listen backlog answer none = (false, [])
listen backlog answer (some fd) = (succeeded answer, listens fd backlog ∷ [])

-- The new socket, if there is one.
unfoldable pub accept : Syscall ℕ → Socket → Option Socket × List Request
accept answer none = (none, [])
accept (done client) (some fd) = (some (some client), accepts fd ∷ [])
accept (failed e) (some fd) = (none, accepts fd ∷ [])

-- `none` is -1.
unfoldable pub send : List ℕ → Syscall ℕ → Socket → Option ℕ × List Request
send bytes answer none = (none, [])
send bytes (done n) (some fd) = (some n, sends fd bytes ∷ [])
send bytes (failed e) (some fd) = (none, sends fd bytes ∷ [])

unfoldable pub receive : ℕ → Syscall (List ℕ) → Socket → Option (List ℕ) × List Request
receive size answer none = (none, [])
receive size (done bytes) (some fd) = (some bytes, receives fd size ∷ [])
receive size (failed e) (some fd) = (none, receives fd size ∷ [])

abbrev pub o_nonblock : ℕ
o_nonblock = 2048

abbrev pub with_non_blocking : Bool → ℕ → ℕ
with_non_blocking non_blocking flags =
    if non_blocking then bit_or flags o_nonblock else bit_and flags (2 ^ 32 - 1 - o_nonblock)

unfoldable pub set_non_blocking :
    Bool → Syscall ℕ → Syscall (Unit {0}) → Socket → Bool × List Request
set_non_blocking non_blocking got answer none = (false, [])
set_non_blocking non_blocking (failed e) answer (some fd) = (false, gets_flags fd ∷ [])
set_non_blocking non_blocking (done flags) answer (some fd) =
    (succeeded answer, gets_flags fd ∷ sets_flags fd (with_non_blocking non_blocking flags) ∷ [])

abbrev pub so_reuseaddr : ℕ
so_reuseaddr = 2

abbrev pub tcp_nodelay : ℕ
tcp_nodelay = 1

abbrev pub set_option : ℕ → Bool → Syscall (Unit {0}) → Socket → Bool × List Request
set_option option on answer none = (false, [])
set_option option on answer (some fd) =
    (succeeded answer, sets_option fd option (if on then 1 else 0) ∷ [])

unfoldable pub set_reuse_address : Bool → Syscall (Unit {0}) → Socket → Bool × List Request
set_reuse_address reuse answer s = set_option so_reuseaddr reuse answer s

unfoldable pub set_tcp_no_delay : Bool → Syscall (Unit {0}) → Socket → Bool × List Request
set_tcp_no_delay no_delay answer s = set_option tcp_nodelay no_delay answer s

unfoldable pub close : Socket → Socket × List Request
close none = (none, [])
close (some fd) = (none, closes fd ∷ [])

-- The move constructor: the new socket and what is left of the other.
unfoldable pub move_construct : Socket → Socket × Socket
move_construct other = (other, none)

-- The move assignment from another object, which closes what the target has.
unfoldable pub move_assign : Socket → Socket → Socket × Socket × List Request
unfolding close
move_assign this other = (other, none, (close this).1)
