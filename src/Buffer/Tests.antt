-- ===== src/Buffer/Tests.antt =====
-- `Buffer` at concrete inputs.
use echoserver.Prelude.{◌≡◌, refl, List, [], ◌∷◌, some, arith}
use echoserver.Prelude.Bytes.{copy, move}
use echoserver.Prelude.Syscall.{done, failed, ewouldblock}
use echoserver.Buffer.{
  Buffer, append, make_space, ensure_writable_bytes, find_eol, find_crlf, search, memchr,
}
use echoserver.Buffer.Invariant.{IsValid, contents}
use echoserver.Buffer.Search.{Finds, CrlfAt, find_crlf-Finds}
use echoserver.Buffer.Refine.{Op, appends, takes, reads, shrinks, spec, run, run_spec, run_refines}

-- "hi\r\n" from index 12 on, in 18 bytes.
abbrev line : Buffer
line = record {
  buffer = 0 ∷ 0 ∷ 0 ∷ 0 ∷ 0 ∷ 0 ∷ 0 ∷ 0 ∷ 0 ∷ 0 ∷ 0 ∷ 0 ∷ 104 ∷ 105 ∷ 13 ∷ 10 ∷ 0 ∷ 0 ∷ [];
  read_index = 12;
  write_index = 16;
}

line-IsValid : IsValid line
line-IsValid = omega arith

append_moves : append line (33 ∷ 33 ∷ 33 ∷ []) ≡ record {
  buffer = 0 ∷ 0 ∷ 0 ∷ 0 ∷ 0 ∷ 0 ∷ 0 ∷ 0 ∷ 104 ∷ 105 ∷ 13 ∷ 10 ∷ 33 ∷ 33 ∷ 33 ∷ 10 ∷ 0 ∷ 0 ∷ [];
  read_index = 8;
  write_index = 15;
}
unfolding append ensure_writable_bytes make_space copy move
append_moves = refl

crlf_found : (find_crlf line ≡ some 14) × (find_eol line ≡ some 15)
unfolding find_crlf find_eol search memchr
crlf_found = (refl, refl)

abbrev script : List Op
script =
    appends (1 ∷ 2 ∷ 3 ∷ [])
    ∷ takes 5
    ∷ reads (done (7 ∷ 8 ∷ []))
    ∷ reads (failed ewouldblock)
    ∷ shrinks 4
    ∷ takes 9
    ∷ []

run_refines_example :
    ((run line script).1 ≡ (run_spec (contents line) script).1)
    × (contents (run line script).0 ≡ (run_spec (contents line) script).0)
    × IsValid (run line script).0
run_refines_example = run_refines line script line-IsValid (omega arith)

run_spec_strings :
    (run_spec (contents line) script).1
    ≡ [] ∷ (104 ∷ 105 ∷ 13 ∷ 10 ∷ 1 ∷ []) ∷ [] ∷ [] ∷ [] ∷ (2 ∷ 3 ∷ 7 ∷ 8 ∷ []) ∷ []
unfolding run_spec spec
run_spec_strings = refl

find_crlf-Finds_example : Finds (CrlfAt line.buffer 16) 12 4 (find_crlf line)
find_crlf-Finds_example = find_crlf-Finds line line-IsValid
