-- ===== src/Socket/Guards.antt =====
-- An operation works on the socket's own descriptor, and refuses without one.
use Prim.Native.String.{String}
use echoserver.Prelude.{
  ℕ, ◌<◌, ◌≡◌, refl, Bool, true, false, Option, none, some, List, [], ◌∷◌, arith,
}
use echoserver.Prelude.Syscall.{Syscall, done, failed}
use echoserver.Socket.{
  Socket, Request, opens, binds, listens, accepts, connects, sends, receives, gets_flags,
  sets_flags, sets_option, closes, bind, connect, listen, accept, send, receive, set_non_blocking,
  set_reuse_address, set_tcp_no_delay, succeeded, to_port,
}

pub data Operation : Type 0 where
  binding : String → ℕ → Syscall (Unit {0}) → Operation
  connecting : String → ℕ → Syscall (Unit {0}) → Operation
  listening : ℕ → Syscall (Unit {0}) → Operation
  accepting : Syscall ℕ → Operation
  sending : List ℕ → Syscall ℕ → Operation
  receiving : ℕ → Syscall (List ℕ) → Operation
  setting_non_blocking : Bool → Syscall ℕ → Syscall (Unit {0}) → Operation
  setting_reuse_address : Bool → Syscall (Unit {0}) → Operation
  setting_no_delay : Bool → Syscall (Unit {0}) → Operation

abbrev pub is_some {ℓ} : {A : Type ℓ} → Option A → Bool
is_some none = false
is_some (some a) = true

-- Whether an operation reports success, and its system calls.
unfoldable pub perform : (String → Option ℕ) → Operation → Socket → Bool × List Request
perform inet_pton (binding address port answer) s = bind inet_pton address port answer s
perform inet_pton (connecting address port answer) s = connect inet_pton address port answer s
perform inet_pton (listening backlog answer) s = listen backlog answer s
perform inet_pton (accepting answer) s =
    let (client, calls) = accept answer s in (is_some client, calls)
perform inet_pton (sending bytes answer) s =
    let (n, calls) = send bytes answer s in (is_some n, calls)
perform inet_pton (receiving size answer) s =
    let (got, calls) = receive size answer s in (is_some got, calls)
perform inet_pton (setting_non_blocking on got answer) s = set_non_blocking on got answer s
perform inet_pton (setting_reuse_address on answer) s = set_reuse_address on answer s
perform inet_pton (setting_no_delay on answer) s = set_tcp_no_delay on answer s

-- A call on this descriptor; a port is one of 16 bits.
abbrev pub IsOn : ℕ → Request → Type 0
IsOn fd opens = ⊥
IsOn fd (binds d ip port) = (d ≡ fd) × (port < 65536)
IsOn fd (listens d backlog) = d ≡ fd
IsOn fd (accepts d) = d ≡ fd
IsOn fd (connects d ip port) = (d ≡ fd) × (port < 65536)
IsOn fd (sends d bytes) = d ≡ fd
IsOn fd (receives d size) = d ≡ fd
IsOn fd (gets_flags d) = d ≡ fd
IsOn fd (sets_flags d flags) = d ≡ fd
IsOn fd (sets_option d option value) = d ≡ fd
IsOn fd (closes d) = ⊥

abbrev pub AllOn : ℕ → List Request → Type 0
AllOn fd [] = Unit {0}
AllOn fd (request ∷ requests) = IsOn fd request × AllOn fd requests

binds_on :
    (fd port : ℕ) (answer : Syscall (Unit {0})) (address : Option ℕ)
    → AllOn fd
        (elim address as (λ _. Bool × List Request) [
          | none ↦ (false, [])
          | some ip ↦ (succeeded answer, binds fd ip (to_port port) ∷ [])
        ]).1
binds_on fd port answer none = tt
binds_on fd port answer (some ip) = ((refl, omega arith), tt)

connects_on :
    (fd port : ℕ) (answer : Syscall (Unit {0})) (address : Option ℕ)
    → AllOn fd
        (elim address as (λ _. Bool × List Request) [
          | none ↦ (false, [])
          | some ip ↦ (succeeded answer, connects fd ip (to_port port) ∷ [])
        ]).1
connects_on fd port answer none = tt
connects_on fd port answer (some ip) = ((refl, omega arith), tt)

-- Whatever the kernel answers and whatever `inet_pton` makes of an address, an operation on a socket
-- with a descriptor calls the kernel with that descriptor only, and with a port of 16 bits, and
-- opens and closes none. On a socket without one it reports a failure and makes no system call.
pub perform_lem :
    (inet_pton : String → Option ℕ) (op : Operation) (fd : ℕ)
    → AllOn fd (perform inet_pton op (some fd)).1 × (perform inet_pton op none ≡ (false, []))
unfolding perform
perform_lem inet_pton (binding address port answer) fd =
    unfold bind in (binds_on fd port answer _, refl)
perform_lem inet_pton (connecting address port answer) fd =
    unfold connect in (connects_on fd port answer (inet_pton address), refl)
perform_lem inet_pton (listening backlog answer) fd = unfold listen in ((refl, tt), refl)
perform_lem inet_pton (accepting (done client)) fd = unfold accept in ((refl, tt), refl)
perform_lem inet_pton (accepting (failed e)) fd = unfold accept in ((refl, tt), refl)
perform_lem inet_pton (sending bytes (done n)) fd = unfold send in ((refl, tt), refl)
perform_lem inet_pton (sending bytes (failed e)) fd = unfold send in ((refl, tt), refl)
perform_lem inet_pton (receiving size (done bytes)) fd = unfold receive in ((refl, tt), refl)
perform_lem inet_pton (receiving size (failed e)) fd = unfold receive in ((refl, tt), refl)
perform_lem inet_pton (setting_non_blocking on (done flags) answer) fd =
    unfold set_non_blocking in ((refl, (refl, tt)), refl)
perform_lem inet_pton (setting_non_blocking on (failed e) answer) fd =
    unfold set_non_blocking in ((refl, tt), refl)
perform_lem inet_pton (setting_reuse_address on answer) fd =
    unfold set_reuse_address in ((refl, tt), refl)
perform_lem inet_pton (setting_no_delay on answer) fd =
    unfold set_tcp_no_delay in ((refl, tt), refl)
