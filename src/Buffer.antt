-- ===== src/Buffer.antt =====
-- include/buffer.h and src/buffer.cpp: the byte buffer of a connection.
-- The vector is the list of its bytes, a pointer into it is an index, and `size_t` wraps.
-- An allocation that fails (`std::length_error`, `std::bad_alloc`) is not modelled; log lines are
-- left out.
pub mod Invariant
pub mod Space
pub mod Queueing
pub mod Contents
pub mod Search
pub mod Refine
mod Tests
use echoserver.Prelude.{
  ℕ, zero, suc, ◌+◌, ◌-◌, Bool, ◌&&◌, ◌||◌, Option, none, some, List, [], ◌∷◌, ltb, leb, ◌==◌,
  if◌then◌else◌, length, get_or, take, drop, replicate, add_size, sub_size,
}
use echoserver.Prelude.Bytes.{slice, copy, move, resize}
use echoserver.Prelude.Syscall.{Syscall, done, failed}

pub record Buffer : Type 0 where
  pub buffer : List ℕ
  pub read_index : ℕ
  pub write_index : ℕ

abbrev pub cheap_prepend : ℕ
cheap_prepend = 8

abbrev pub initial_size : ℕ
initial_size = 1024

-- `sizeof(extrabuf)`
abbrev pub extra_size : ℕ
extra_size = 65536

unfoldable pub create : ℕ → Buffer
create size = record {
  buffer = replicate (add_size cheap_prepend size) 0;
  read_index = cheap_prepend;
  write_index = cheap_prepend;
}

abbrev pub readable_bytes : Buffer → ℕ
readable_bytes b = sub_size b.write_index b.read_index

abbrev pub writable_bytes : Buffer → ℕ
writable_bytes b = sub_size (length b.buffer) b.write_index

abbrev pub prependable_bytes : Buffer → ℕ
prependable_bytes b = b.read_index

-- The pointers `peek()` and `beginWrite()`.
abbrev pub peek : Buffer → ℕ
peek b = b.read_index

abbrev pub begin_write : Buffer → ℕ
begin_write b = b.write_index

-- `std::search` of "\r\n" in the `n` bytes from index `i` on: the end where there is none.
pub search : List ℕ → ℕ → ℕ → ℕ
search xs i zero = i
search xs i (suc n) =
    let rest = search xs (i + 1) n in
    if leb 1 n && (get_or xs i 0 == 13 && get_or xs (i + 1) 0 == 10) then i else rest

-- `memchr` in the `n` bytes from index `i` on.
pub memchr : List ℕ → ℕ → ℕ → ℕ → Option ℕ
memchr xs c i zero = none
memchr xs c i (suc n) =
    let rest = memchr xs c (i + 1) n in if get_or xs i 0 == c then some i else rest

unfoldable pub find_crlf : Buffer → Option ℕ
find_crlf b =
    let crlf = search b.buffer (peek b) (begin_write b - peek b) in
    if crlf == begin_write b then none else some crlf

unfoldable pub find_crlf_from : Buffer → ℕ → Option ℕ
find_crlf_from b start =
    let crlf = search b.buffer start (begin_write b - start) in
    if ltb start (peek b) || ltb (begin_write b) start
    then none
    else (if crlf == begin_write b then none else some crlf)

unfoldable pub find_eol : Buffer → Option ℕ
find_eol b = memchr b.buffer 10 (peek b) (readable_bytes b)

unfoldable pub find_eol_from : Buffer → ℕ → Option ℕ
find_eol_from b start =
    if ltb start (peek b) || ltb (begin_write b) start
    then none
    else memchr b.buffer 10 start (begin_write b - start)

unfoldable pub retrieve_all : Buffer → Buffer
retrieve_all b = record b { read_index = cheap_prepend; write_index = cheap_prepend }

unfoldable pub retrieve : Buffer → ℕ → Buffer
unfolding retrieve_all
retrieve b len =
    if ltb len (readable_bytes b)
    then record b { read_index = add_size b.read_index len }
    else retrieve_all b

unfoldable pub retrieve_until : Buffer → ℕ → Buffer
unfolding retrieve
retrieve_until b end =
    if leb (peek b) end && leb end (begin_write b) then retrieve b (end - peek b) else b

unfoldable pub retrieve_as_string : Buffer → ℕ → List ℕ × Buffer
retrieve_as_string b len =
    let n = if ltb (readable_bytes b) len then readable_bytes b else len in
    (slice b.buffer (peek b) n, retrieve b n)

unfoldable pub retrieve_all_as_string : Buffer → List ℕ × Buffer
unfolding retrieve_as_string
retrieve_all_as_string b = retrieve_as_string b (readable_bytes b)

unfoldable pub has_written : Buffer → ℕ → Buffer
has_written b len = record b { write_index = add_size b.write_index len }

unfoldable pub unwrite : Buffer → ℕ → Buffer
unwrite b len = record b { write_index = sub_size b.write_index len }

unfoldable pub make_space : Buffer → ℕ → Buffer
make_space b len =
    if ltb (add_size (writable_bytes b) (prependable_bytes b)) (add_size len cheap_prepend)
    then record b { buffer = resize b.buffer (add_size b.write_index len) }
    else record {
      buffer = move b.buffer b.read_index cheap_prepend (b.write_index - b.read_index);
      read_index = cheap_prepend;
      write_index = add_size cheap_prepend (readable_bytes b);
    }

unfoldable pub ensure_writable_bytes : Buffer → ℕ → Buffer
ensure_writable_bytes b len = if ltb (writable_bytes b) len then make_space b len else b

-- `std::copy(data, data + len, beginWrite())`
unfoldable pub copy_in : Buffer → List ℕ → Buffer
copy_in b bytes = record b { buffer = copy b.buffer (begin_write b) bytes }

unfoldable pub append : Buffer → List ℕ → Buffer
unfolding has_written copy_in
append b bytes = has_written (copy_in (ensure_writable_bytes b (length bytes)) bytes) (length bytes)

unfoldable pub prepend : Buffer → List ℕ → Buffer
prepend b bytes =
    let start = sub_size b.read_index (length bytes) in
    if ltb (prependable_bytes b) (length bytes)
    then b
    else record b { buffer = copy b.buffer start bytes; read_index = start }

unfoldable pub shrink : Buffer → ℕ → Buffer
shrink b reserve =
    let fresh = ensure_writable_bytes (create initial_size) (add_size (readable_bytes b) reserve) in
    append fresh (slice b.buffer (peek b) (readable_bytes b))

-- The bytes that `readv` may fill: the second vector counts only if the first is small.
abbrev pub read_capacity : Buffer → ℕ
read_capacity b =
    if ltb (writable_bytes b) extra_size then writable_bytes b + extra_size else writable_bytes b

-- `readFd`: the answer of `readv` is an argument. The kernel fills the writable part first and
-- `extrabuf` with the rest. The result is `n`, or the error that goes out by `saved_errno`.
unfoldable pub read_fd : Buffer → Syscall (List ℕ) → Buffer × Syscall ℕ
read_fd b (failed e) = (b, failed e)
read_fd b (done bytes) =
    let writable = writable_bytes b in
    let filled = copy_in b (take writable bytes) in
    let full = record filled { write_index = length filled.buffer } in
    (
      if leb (length bytes) writable
          then record filled { write_index = add_size b.write_index (length bytes) }
          else append full (drop writable bytes),
      done (length bytes),
    )
