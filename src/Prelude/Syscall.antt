-- ===== src/Prelude/Syscall.antt =====
-- What a system call returns to the code: a result, or -1 with `errno`.

-- The values of `errno` that the code tells apart. EAGAIN and EWOULDBLOCK are one value on Linux.
pub data Errno : Type 0 where
  eintr : Errno
  ewouldblock : Errno
  epipe : Errno
  econnreset : Errno
  other : Errno

pub data Syscall {ℓ} (A : Type ℓ) : Type ℓ where
  done : A → Syscall A
  failed : Errno → Syscall A
