-- ===== src/Buffer/Refine.antt =====
-- A buffer behaves as the queue of the bytes that it holds, under every sequence of operations.
use echoserver.Prelude.{ℕ, ◌+◌, ◌≤◌, ◌≡◌, refl, List, [], ◌∷◌, ◌++◌, arith, length, take, drop}
use echoserver.Prelude.Syscall.{Syscall, done, failed}
use echoserver.Buffer.{
  Buffer, retrieve, retrieve_all, retrieve_as_string, append, shrink, ensure_writable_bytes,
  read_fd,
}
use echoserver.Buffer.Invariant.{IsValid, contents, max_size}
use echoserver.Buffer.Space.{Spaced, ensure-Spaced}
use echoserver.Buffer.Contents.{shrink-Holds, read_fd-Holds}
use echoserver.Buffer.Queueing.{Holds, append-Holds, retrieve-Holds, retrieve_as_string-Holds}

-- What a client may ask of a buffer.
pub data Op : Type 0 where
  appends : List ℕ → Op
  retrieves : ℕ → Op
  takes : ℕ → Op
  clears : Op
  ensures : ℕ → Op
  shrinks : ℕ → Op
  reads : Syscall (List ℕ) → Op

-- The code's operations, each with the string that it returns, if it returns one.
unfoldable pub step : Buffer → Op → Buffer × List ℕ
step b (appends bytes) = (append b bytes, [])
step b (retrieves n) = (retrieve b n, [])
step b (takes n) = let (s, c) = retrieve_as_string b n in (c, s)
step b clears = (retrieve_all b, [])
step b (ensures n) = (ensure_writable_bytes b n, [])
step b (shrinks n) = (shrink b n, [])
step b (reads r) = ((read_fd b r).0, [])

-- The specification: a list of bytes.
unfoldable pub spec : List ℕ → Op → List ℕ × List ℕ
spec xs (appends bytes) = (xs ++ bytes, [])
spec xs (retrieves n) = (drop n xs, [])
spec xs (takes n) = (drop n xs, take n xs)
spec xs clears = ([], [])
spec xs (ensures n) = (xs, [])
spec xs (shrinks n) = (xs, [])
spec xs (reads (done bytes)) = (xs ++ bytes, [])
spec xs (reads (failed e)) = (xs, [])

-- By how much an operation may make the vector longer.
abbrev pub growth : Op → ℕ
growth (appends bytes) = length bytes
growth (ensures n) = n
growth (shrinks n) = n + 1032
growth (reads (done bytes)) = length bytes
growth _ = 0

abbrev pub total_growth : List Op → ℕ
total_growth [] = 0
total_growth (op ∷ ops) = growth op + total_growth ops

unfoldable pub run : Buffer → List Op → Buffer × List (List ℕ)
run b [] = (b, [])
run b (op ∷ ops) = let (c, s) = step b op in let (d, out) = run c ops in (d, s ∷ out)

unfoldable pub run_spec : List ℕ → List Op → List ℕ × List (List ℕ)
run_spec xs [] = (xs, [])
run_spec xs (op ∷ ops) =
    let (ys, s) = spec xs op in let (zs, out) = run_spec ys ops in (zs, s ∷ out)

step-Holds :
    (b : Buffer) (op : Op)
    → IsValid b
    → length b.buffer + growth op ≤ max_size
    → Holds (step b op).0 (spec (contents b) op).0 (length b.buffer + growth op)
      × ((step b op).1 ≡ (spec (contents b) op).1)
unfolding step spec retrieve_all
step-Holds b (appends bytes) v h = (append-Holds b bytes v h, refl)
step-Holds b (retrieves n) v h =
    let r : Holds (retrieve b n) (drop n (contents b)) (length b.buffer) = retrieve-Holds b n v in
    (record { valid = r.valid; bytes = r.bytes; bounded = omega (arith, r.bounded) }, refl)
step-Holds b (takes n) v h =
    let (e, r) = retrieve_as_string-Holds b n v in
    (record { valid = r.valid; bytes = r.bytes; bounded = omega (arith, r.bounded) }, e)
step-Holds b clears v h =
    (record { valid = omega arith; bytes = refl; bounded = omega arith }, refl)
step-Holds b (ensures n) v h =
    let s : Spaced n b (ensure_writable_bytes b n) = ensure-Spaced b n v h in
    (record { valid = s.valid; bytes = s.kept; bounded = s.grown }, refl)
step-Holds b (shrinks n) v h =
    let r : Holds (shrink b n) (contents b) (length b.buffer + n + 1032) =
      (shrink-Holds b n v (omega arith)).0 in
    (record { valid = r.valid; bytes = r.bytes; bounded = omega (arith, r.bounded) }, refl)
step-Holds b (reads (done bytes)) v h = (read_fd-Holds b bytes v h, refl)
step-Holds b (reads (failed e)) v h =
    unfold read_fd in (record { valid = v; bytes = refl; bounded = omega arith }, refl)

-- As long as the vector stays below `max_size`, any sequence of operations returns the strings
-- that the queue of bytes returns, and leaves a valid buffer that holds the queue's bytes.
pub run_refines :
    (b : Buffer) (ops : List Op)
    → IsValid b
    → length b.buffer + total_growth ops ≤ max_size
    → ((run b ops).1 ≡ (run_spec (contents b) ops).1)
      × (contents (run b ops).0 ≡ (run_spec (contents b) ops).0)
      × IsValid (run b ops).0
unfolding run run_spec
run_refines b [] v h = (refl, refl, v)
run_refines b (op ∷ ops) v h =
    let (s, e) = step-Holds b op v (omega arith) in
    let (out, bytes, valid) = run_refines (step b op).0 ops s.valid (omega (arith, s.bounded)) in
    rw (← e, ← s.bytes) (rw out refl, bytes, valid)
