-- ===== src/Socket/Ownership.antt =====
-- Each descriptor has one owner until it is closed, once.
use echoserver.Prelude.{
  ℕ, zero, suc, ◌+◌, ◌<◌, ◌≡◌, ◌≢◌, refl, ap, inl, inr, Option, none, some, List, [], ◌∷◌, ◌++◌,
  arith, ◌==◌, Bool-cases, if◌then◌else◌, length, get_or, set, length-set, get_or-set_ne,
}
use echoserver.Prelude.Syscall.{Syscall, done, failed}
use echoserver.Socket.{Socket, Request, closes, create, accept, close, move_construct, move_assign}

-- The `Socket` objects of a program, by number, with the descriptors that the kernel has opened for
-- them and those that they have closed.
pub record Sockets : Type 0 where
  pub objects : List Socket
  pub opened : List ℕ
  pub closed : List ℕ

-- What a program does with them. `moves i j` assigns object `j` to object `i`.
pub data Use : Type 0 where
  declares : Use
  creates : ℕ → Syscall ℕ → Use
  accepts_from : ℕ → Syscall ℕ → Use
  moves_into_new : ℕ → Use
  moves : ℕ → ℕ → Use
  destroys : ℕ → Use

abbrev pub object : ℕ → Sockets → Socket
object i s = get_or s.objects i none

abbrev pub fds : Socket → List ℕ
fds none = []
fds (some fd) = fd ∷ []

abbrev pub closed_by : List Request → List ℕ
closed_by [] = []
closed_by (closes fd ∷ requests) = fd ∷ closed_by requests
closed_by (_ ∷ requests) = closed_by requests

-- The sockets that `accept` returns.
abbrev pub accepted : Option Socket → List Socket
accepted none = []
accepted (some s) = s ∷ []

abbrev pub all_fds : List Socket → List ℕ
all_fds [] = []
all_fds (s ∷ ss) = fds s ++ all_fds ss

unfoldable pub use_socket : Use → Sockets → Sockets
use_socket declares s = record s { objects = s.objects ++ (none ∷ []) }
use_socket (creates i answer) s =
    let (ok, made, requests) = create answer (object i s) in
    record s { objects = set s.objects i made; opened = s.opened ++ fds made }
use_socket (accepts_from i answer) s =
    let (client, requests) = accept answer (object i s) in
    record s {
      objects = s.objects ++ accepted client;
      opened = s.opened ++ all_fds (accepted client);
    }
use_socket (moves_into_new i) s =
    let (made, rest) = move_construct (object i s) in
    record s { objects = set s.objects i rest ++ (made ∷ []) }
use_socket (moves i j) s =
    let (to, from, requests) = move_assign (object i s) (object j s) in
    if i == j then s else record s {
      objects = set (set s.objects i to) j from;
      closed = s.closed ++ closed_by requests;
    }
use_socket (destroys i) s =
    let (gone, requests) = close (object i s) in
    record s { objects = set s.objects i gone; closed = s.closed ++ closed_by requests }

-- How often a descriptor is in a list.
abbrev pub count : ℕ → List ℕ → ℕ
count d [] = 0
count d (x ∷ xs) = (if d == x then 1 else 0) + count d xs

count-append : (d : ℕ) (xs ys : List ℕ) → count d (xs ++ ys) ≡ count d xs + count d ys
count-append d [] ys = omega arith
count-append d (x ∷ xs) ys = omega (arith, count-append d xs ys)

abbrev pub owned : ℕ → List Socket → ℕ
owned d ss = count d (all_fds ss)

owned-append : (d : ℕ) (ss ts : List Socket) → owned d (ss ++ ts) ≡ owned d ss + owned d ts
owned-append d [] ts = omega arith
owned-append d (s ∷ ss) ts = ground (
  arith,
  owned-append d ss ts,
  count-append d (fds s) (all_fds (ss ++ ts)),
  count-append d (fds s) (all_fds ss),
)

owned-set :
    (d : ℕ) (ss : List Socket) (i : ℕ) (v : Socket)
    → i < length ss
    → owned d (set ss i v) + count d (fds (get_or ss i none)) ≡ owned d ss + count d (fds v)
owned-set d [] i v h = absurd (omega arith)
owned-set d (s ∷ ss) zero v h =
    omega (arith, count-append d (fds s) (all_fds ss), count-append d (fds v) (all_fds ss))
owned-set d (s ∷ ss) (suc i) v h = omega (
  arith,
  owned-set d ss i v (omega arith),
  count-append d (fds s) (all_fds ss),
  count-append d (fds s) (all_fds (set ss i v)),
)

-- The objects that a use names are there, and `create` is called on a socket without descriptor.
abbrev pub Fits : Use → Sockets → Type 0
Fits declares s = Unit {0}
Fits (creates i answer) s = (i < length s.objects) × (object i s ≡ none)
Fits (accepts_from i answer) s = i < length s.objects
Fits (moves_into_new i) s = i < length s.objects
Fits (moves i j) s = (i < length s.objects) × (j < length s.objects)
Fits (destroys i) s = i < length s.objects

-- Every descriptor that was opened is in an object, or was closed.
abbrev pub Accounted : Sockets → Type 0
Accounted s = (d : ℕ) → count d s.opened ≡ owned d s.objects + count d s.closed

one_fd : (d : ℕ) (s : Socket) → owned d (s ∷ []) ≡ count d (fds s)
one_fd d s = omega (arith, count-append d (fds s) [])

close_lem :
    (d : ℕ) (s : Socket)
    → count d (closed_by (close s).1) + count d (fds (close s).0) ≡ count d (fds s)
unfolding close
close_lem d none = refl
close_lem d (some fd) = omega arith

moved_lem :
    (d i j : ℕ) (s : Sockets)
    → i ≢ j
    → i < length s.objects
    → j < length s.objects
    → count d s.opened ≡ owned d s.objects + count d s.closed
    → count d s.opened
      ≡ owned d (set (set s.objects i (object j s)) j none)
        + count d (s.closed ++ closed_by (close (object i s)).1)
unfolding close
moved_lem d i j s ne h k a =
    let first : List Socket = set s.objects i (object j s) in
    let there : j < length first = omega (arith, length-set s.objects i (object j s)) in
    let same : get_or first j none ≡ object j s =
      get_or-set_ne s.objects i j (object j s) none ne in
    let gone : count d (closed_by (close (object i s)).1) + count d (fds (close (object i s)).0)
        ≡ count d (fds (object i s)) =
      close_lem d (object i s) in
    let none_left : count d (fds (close (object i s)).0) ≡ 0 = ground arith in
    omega (
      arith,
      owned-set d s.objects i (object j s) h,
      owned-set d first j none there,
      ap (λ x. count d (fds x)) same,
      count-append d s.closed (closed_by (close (object i s)).1),
    )

use_socket-Accounted : (u : Use) (s : Sockets) → Fits u s → Accounted s → Accounted (use_socket u s)
unfolding use_socket
use_socket-Accounted declares s h a d = omega (arith, a d, owned-append d s.objects (none ∷ []))
use_socket-Accounted (creates i (done fd)) s h a d =
    unfold create in
    ground (arith, a d, owned-set d s.objects i (some fd) h.0, count-append d s.opened (fd ∷ []))
use_socket-Accounted (creates i (failed e)) s h a d =
    unfold create in
    ground (arith, a d, owned-set d s.objects i none h.0, count-append d s.opened [])
use_socket-Accounted (accepts_from i answer) s h a d =
    let client : List Socket = accepted (accept answer (object i s)).0 in
    omega (arith, a d, owned-append d s.objects client, count-append d s.opened (all_fds client))
use_socket-Accounted (moves_into_new i) s h a d =
    unfold move_construct in
    omega (
      arith,
      a d,
      owned-append d (set s.objects i none) (object i s ∷ []),
      owned-set d s.objects i none h,
      one_fd d (object i s),
    )
use_socket-Accounted (destroys i) s h a d = omega (
  arith,
  a d,
  owned-set d s.objects i (close (object i s)).0 h,
  close_lem d (object i s),
  count-append d s.closed (closed_by (close (object i s)).1),
)
use_socket-Accounted (moves i j) s h a d =
    unfold move_assign in
    elim (Bool-cases (i == j)) [
      | inl same ↦ rw same (a d)
      | inr other ↦ rw other (moved_lem d i j s (λ e. ground arith) h.0 h.1 (a d))
    ]

unfoldable pub use_all : List Use → Sockets → Sockets
use_all [] s = s
use_all (u ∷ us) s = use_all us (use_socket u s)

abbrev pub AllFit : List Use → Sockets → Type 0
AllFit [] s = Unit {0}
AllFit (u ∷ us) s = Fits u s × AllFit us (use_socket u s)

-- From objects whose descriptors are accounted for, whatever a program does with its `Socket` objects, where it
-- calls `create` only on those without a descriptor: for each descriptor, the times it was opened
-- are those it was closed and the objects that hold it now. None is closed twice, and none is
-- lost.
pub use_all-Accounted :
    (us : List Use) (s : Sockets) → AllFit us s → Accounted s → Accounted (use_all us s)
unfolding use_all
use_all-Accounted [] s h a = a
use_all-Accounted (u ∷ us) s h a =
    use_all-Accounted us (use_socket u s) h.1 (use_socket-Accounted u s h.0 a)
