-- ===== src/System/Births.antt =====
-- How often a connection is still to be established, and which loops have its handler: what the
-- operations of the system do to both.
use echoserver.Prelude.{
  ℕ, zero, suc, ◌+◌, ◌≤◌, ◌≡◌, refl, ap, ◌∙◌, Bool, true, false, ◌||◌, some, List, [], ◌∷◌, ◌++◌,
  arith, ◌==◌, if◌then◌else◌, get_or, set,
}
use echoserver.Prelude.Syscall.{done}
use echoserver.Connection.{
  Effect, sends, shuts_down_write, adds_handler, updates_handler, removes_handler, calls_close,
  calls_error, posts,
}
use echoserver.EventLoop.{EventLoop, lookup, erase, add_handler, remove_handler}
use echoserver.System.{
  Job, establishes, destroys, System, no_loop, loop_at, put_loop, report_removal, carry_out,
}
use echoserver.System.Dangling.{get_or-modify}

-- How often the connection of this name is still to be established.
abbrev pub births : ℕ → List Job → ℕ
births name [] = 0
births name (establishes other ∷ jobs) = (if other == name then 1 else 0) + births name jobs
births name (destroys other ∷ jobs) = births name jobs

abbrev pub all_births : ℕ → List (EventLoop Job) → ℕ
all_births name [] = 0
all_births name (l ∷ loops) = births name l.pending_tasks + all_births name loops

-- Whether a loop has the handler of the connection of this name.
abbrev pub holds : ℕ → List (ℕ × ℕ) → Bool
holds name [] = false
holds name ((fd, other) ∷ rest) = other == name || holds name rest

abbrev pub Absent : ℕ → System → Type 0
Absent name s = (i : ℕ) → holds name (loop_at i s).handlers ≡ false

pub births-append :
    (name : ℕ) (jobs more : List Job)
    → births name (jobs ++ more) ≡ births name jobs + births name more
births-append name [] more = omega arith
births-append name (establishes other ∷ jobs) more = omega (arith, births-append name jobs more)
births-append name (destroys other ∷ jobs) more = births-append name jobs more

-- A change of one loop that adds at most `more`.
pub all_births-modify :
    (name more : ℕ) (f : EventLoop Job → EventLoop Job)
    → ((l : EventLoop Job) → births name (f l).pending_tasks ≤ more + births name l.pending_tasks)
    → (loops : List (EventLoop Job)) (i : ℕ)
    → all_births name (set loops i (f (get_or loops i no_loop))) ≤ more + all_births name loops
all_births-modify name more f bound [] i = omega arith
all_births-modify name more f bound (l ∷ loops) zero = omega (arith, bound l)
all_births-modify name more f bound (l ∷ loops) (suc i) =
    omega (arith, all_births-modify name more f bound loops i)

-- A change of one loop that takes its tasks.
pub all_births-clear :
    (name : ℕ) (f : EventLoop Job → EventLoop Job)
    → ((l : EventLoop Job) → (f l).pending_tasks ≡ [])
    → (loops : List (EventLoop Job)) (i : ℕ)
    → births name (get_or loops i no_loop).pending_tasks
        + all_births name (set loops i (f (get_or loops i no_loop)))
      ≤ all_births name loops
all_births-clear name f cleared [] i = omega arith
all_births-clear name f cleared (l ∷ loops) zero = rw (cleared l) (omega arith)
all_births-clear name f cleared (l ∷ loops) (suc i) =
    omega (arith, all_births-clear name f cleared loops i)

holds-erase :
    (name fd : ℕ) (handlers : List (ℕ × ℕ))
    → holds name handlers ≡ false
    → holds name (erase fd handlers) ≡ false
holds-erase name fd [] h = refl
holds-erase name fd ((key, other) ∷ rest) h = ground (arith, holds-erase name fd rest)

pub lookup-holds :
    (name fd : ℕ) (handlers : List (ℕ × ℕ))
    → lookup fd handlers ≡ some name
    → holds name handlers ≡ true
lookup-holds name fd [] h = cc
lookup-holds name fd ((key, other) ∷ rest) h = ground (arith, lookup-holds name fd rest)

-- What stays for the connection of this name while another thing happens.
pub record Frame (name : ℕ) (s t : System) : Type 0 where
  pub peer : lookup name t.peers ≡ lookup name s.peers
  pub fewer : all_births name t.loops ≤ all_births name s.loops
  pub ids : s.server.next_conn_id ≤ t.server.next_conn_id

pub Frame-refl : (name : ℕ) (s : System) → Frame name s s
Frame-refl name s = record { peer = refl; fewer = omega arith; ids = omega arith }

pub Frame-trans : {name : ℕ} {s t u : System} → Frame name s t → Frame name t u → Frame name s u
Frame-trans a b = record {
  peer = b.peer ∙ a.peer;
  fewer = omega (arith, a.fewer, b.fewer);
  ids = omega (arith, a.ids, b.ids);
}

-- A change of a loop that leaves its tasks.
pub put-Frame :
    (name i : ℕ) (f : EventLoop Job → EventLoop Job) (s : System)
    → ((l : EventLoop Job) → (f l).pending_tasks ≡ l.pending_tasks)
    → Frame name s (put_loop i (f (loop_at i s)) s)
put-Frame name i f s kept = record {
  peer = refl;
  fewer =
      let same : (l : EventLoop Job)
          → births name (f l).pending_tasks ≤ 0 + births name l.pending_tasks =
        λ l. omega (arith, ap (births name) (kept l)) in
      omega (arith, all_births-modify name 0 f same s.loops i);
  ids = omega arith;
}

pub put-Absent :
    (name i : ℕ) (f : EventLoop Job → EventLoop Job) (s : System)
    → ((l : EventLoop Job) → holds name l.handlers ≡ false → holds name (f l).handlers ≡ false)
    → Absent name s
    → Absent name (put_loop i (f (loop_at i s)) s)
put-Absent name i f s keep absent = λ j.
    get_or-modify (λ (l : EventLoop Job). holds name l.handlers ≡ false) f no_loop keep s.loops i j
      (absent j)

-- What a loop does when a connection adds or removes its handler, in the loop's thread.
abbrev pub adds : ℕ → ℕ → EventLoop Job → EventLoop Job
adds name fd l = add_handler l.loop_thread_id (establishes name) fd name (done tt) l

abbrev pub drops : ℕ → ℕ → EventLoop Job → EventLoop Job
drops name fd l = remove_handler l.loop_thread_id (destroys name) fd (done tt) l

adds-tasks : (name fd : ℕ) (l : EventLoop Job) → (adds name fd l).pending_tasks ≡ l.pending_tasks
unfolding add_handler
adds-tasks name fd l = ground arith

drops-tasks : (name fd : ℕ) (l : EventLoop Job) → (drops name fd l).pending_tasks ≡ l.pending_tasks
unfolding remove_handler
drops-tasks name fd l = ground arith

adds-holds :
    (name other fd : ℕ) (l : EventLoop Job)
    → (other == name) ≡ false
    → holds name l.handlers ≡ false
    → holds name (adds other fd l).handlers ≡ false
unfolding add_handler
adds-holds name other fd l differs h = ground (arith, holds-erase name fd l.handlers)

drops-holds :
    (name other fd : ℕ) (l : EventLoop Job)
    → holds name l.handlers ≡ false
    → holds name (drops other fd l).handlers ≡ false
unfolding remove_handler
drops-holds name other fd l h = ground (arith, holds-erase name fd l.handlers)

report-Frame : (name other : ℕ) (s : System) → Frame name s (report_removal other s)
unfolding report_removal
report-Frame name other s = record { peer = refl; fewer = omega arith; ids = omega arith }

report-Absent : (name other : ℕ) (s : System) → Absent name s → Absent name (report_removal other s)
unfolding report_removal
report-Absent name other s absent = absent

-- No effect of a connection establishes another one again.
pub carry_out-Frame :
    (name i other fd : ℕ) (es : List Effect) (s : System) → Frame name s (carry_out i other fd es s)
unfolding carry_out
carry_out-Frame name i other fd [] s = Frame-refl name s
carry_out-Frame name i other fd (adds_handler mask ∷ es) s =
    Frame-trans (put-Frame name i (adds other fd) s (adds-tasks other fd))
      (carry_out-Frame name i other fd es (put_loop i (adds other fd (loop_at i s)) s))
carry_out-Frame name i other fd (removes_handler ∷ es) s =
    Frame-trans (put-Frame name i (drops other fd) s (drops-tasks other fd))
      (carry_out-Frame name i other fd es (put_loop i (drops other fd (loop_at i s)) s))
carry_out-Frame name i other fd (calls_close ∷ es) s =
    Frame-trans (report-Frame name other s)
      (carry_out-Frame name i other fd es (report_removal other s))
carry_out-Frame name i other fd (calls_error ∷ es) s =
    Frame-trans (report-Frame name other s)
      (carry_out-Frame name i other fd es (report_removal other s))
carry_out-Frame name i other fd (sends bytes ∷ es) s = carry_out-Frame name i other fd es s
carry_out-Frame name i other fd (shuts_down_write ∷ es) s = carry_out-Frame name i other fd es s
carry_out-Frame name i other fd (updates_handler m ∷ es) s = carry_out-Frame name i other fd es s
carry_out-Frame name i other fd (posts task ∷ es) s = carry_out-Frame name i other fd es s

-- The effects of another connection do not bring the handler in.
pub carry_out-Absent :
    (name i other fd : ℕ) (es : List Effect) (s : System)
    → (other == name) ≡ false
    → Absent name s
    → Absent name (carry_out i other fd es s)
unfolding carry_out
carry_out-Absent name i other fd [] s differs absent = absent
carry_out-Absent name i other fd (adds_handler mask ∷ es) s differs absent =
    carry_out-Absent name i other fd es _ differs
      (put-Absent name i (adds other fd) s (λ l. adds-holds name other fd l differs) absent)
carry_out-Absent name i other fd (removes_handler ∷ es) s differs absent =
    carry_out-Absent name i other fd es _ differs
      (put-Absent name i (drops other fd) s (drops-holds name other fd) absent)
carry_out-Absent name i other fd (calls_close ∷ es) s differs absent =
    carry_out-Absent name i other fd es _ differs (report-Absent name other s absent)
carry_out-Absent name i other fd (calls_error ∷ es) s differs absent =
    carry_out-Absent name i other fd es _ differs (report-Absent name other s absent)
carry_out-Absent name i other fd (sends bytes ∷ es) s differs absent =
    carry_out-Absent name i other fd es s differs absent
carry_out-Absent name i other fd (shuts_down_write ∷ es) s differs absent =
    carry_out-Absent name i other fd es s differs absent
carry_out-Absent name i other fd (updates_handler m ∷ es) s differs absent =
    carry_out-Absent name i other fd es s differs absent
carry_out-Absent name i other fd (posts task ∷ es) s differs absent =
    carry_out-Absent name i other fd es s differs absent
