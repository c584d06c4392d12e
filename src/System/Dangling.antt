-- ===== src/System/Dangling.antt =====
-- Who owns a `Connection`, and the task that outlives it. The map of the server and the tasks that
-- `removeConnection` posts hold a `shared_ptr`; the lambdas of `establishConnection` and
-- `destroyConnection` hold `this`.
use echoserver.Prelude.{
  ℕ, zero, suc, ◌<◌, ◌≡◌, refl, ◌∙◌, Bool, true, false, ◌||◌, none, some, List, [], ◌∷◌, ◌++◌,
  arith, ◌==◌, if◌then◌else◌, Bool-cases, ==_iff, Option-cases, inl, inr, length, get_or, set,
  get_or-set_self, length-set,
}
use echoserver.EventLoop.{EventLoop, lookup, is_in_loop_thread, push_task, wakeup}
use echoserver.EchoServer.{EchoServer, remove_connection_in_loop}
use echoserver.EchoServer
use echoserver.EchoServer.Connections.{contains, contains-erase}
use echoserver.System.Posts.{with_job, post_elsewhere}
use echoserver.Peer.{Peer}
use echoserver.System.{
  main_thread, Job, establishes, destroys, System, no_loop, loop_at, put_loop, post_to_owner,
  carry_action, carry_actions, remove, remove_all, run_removals,
}

-- A `shared_ptr` to the connection of this name is left, where the main loop is not running its
-- tasks: while it does, the tasks that it took hold theirs.
abbrev pub owned : ℕ → System → Bool
owned name s = contains name s.server.connections || contains name s.removals

abbrev pub destroy_pending : ℕ → List Job → Bool
destroy_pending name [] = false
destroy_pending name (destroys other ∷ jobs) = other == name || destroy_pending name jobs
destroy_pending name (establishes other ∷ jobs) = destroy_pending name jobs

-- Every worker loop runs in a thread of its own.
abbrev pub Elsewhere : System → Type 0
Elsewhere s = (i : ℕ) → is_in_loop_thread main_thread (loop_at i s) ≡ false

-- What an update keeps at the place where it is made holds everywhere after it.
pub get_or-modify {ℓ κ} :
    {A : Type ℓ} (P : A → Type κ) (f : A → A) (d : A)
    → ((a : A) → P a → P (f a))
    → (xs : List A) (i j : ℕ) → P (get_or xs j d)
    → P (get_or (set xs i (f (get_or xs i d))) j d)
get_or-modify P f d keep [] i j h = h
get_or-modify P f d keep (x ∷ xs) zero zero h = keep x h
get_or-modify P f d keep (x ∷ xs) zero (suc j) h = h
get_or-modify P f d keep (x ∷ xs) (suc i) zero h = h
get_or-modify P f d keep (x ∷ xs) (suc i) (suc j) h = get_or-modify P f d keep xs i j h

-- The server without the connection.
abbrev without : ℕ → System → System
without name s = record s {
  server = record s.server { connections = EchoServer.erase name s.server.connections };
}

remove_present :
    (name : ℕ) (p : Peer) (s : System)
    → Elsewhere s
    → lookup name s.peers ≡ some p
    → remove name s
      ≡ put_loop p.io_loop (with_job (destroys name) (loop_at p.io_loop s)) (without name s)
unfolding remove remove_connection_in_loop carry_actions carry_action post_to_owner
remove_present name p s away found =
    rw (found, post_to_owner)
      (post_elsewhere p.io_loop (destroys name) (without name s) (away p.io_loop))

remove_absent :
    (name : ℕ) (s : System) → lookup name s.peers ≡ none → remove name s ≡ without name s
unfolding remove remove_connection_in_loop carry_actions carry_action post_to_owner
remove_absent name s absent = rw (absent, post_to_owner) refl

destroy_pending-append :
    (name : ℕ) (jobs more : List Job)
    → destroy_pending name jobs ≡ true
    → destroy_pending name (jobs ++ more) ≡ true
destroy_pending-append name [] more h = cc
destroy_pending-append name (destroys other ∷ jobs) more h =
    ground (arith, destroy_pending-append name jobs more)
destroy_pending-append name (establishes other ∷ jobs) more h =
    destroy_pending-append name jobs more h

destroy_pending-last :
    (name : ℕ) (jobs : List Job) → destroy_pending name (jobs ++ (destroys name ∷ [])) ≡ true
destroy_pending-last name [] = ground arith
destroy_pending-last name (destroys other ∷ jobs) = ground (arith, destroy_pending-last name jobs)
destroy_pending-last name (establishes other ∷ jobs) = destroy_pending-last name jobs

-- What removing a connection does for the one named `name`, whose loop is `i`.
record Removes (name i : ℕ) (s t : System) : Type 0 where
  elsewhere : Elsewhere t
  same_peers : t.peers ≡ s.peers
  same_removals : t.removals ≡ s.removals
  same_length : length t.loops ≡ length s.loops
  still_gone :
      contains name s.server.connections ≡ false → contains name t.server.connections ≡ false
  still_pending :
      destroy_pending name (loop_at i s).pending_tasks ≡ true
      → destroy_pending name (loop_at i t).pending_tasks ≡ true

remove-Removes : (name i other : ℕ) (s : System) → Elsewhere s → Removes name i s (remove other s)
unfolding wakeup push_task
remove-Removes name i other s away =
    let erased : contains name (EchoServer.erase other s.server.connections)
        ≡ (if other == name then false else contains name s.server.connections) =
      contains-erase other name s.server.connections in
    elim (Option-cases (lookup other s.peers)) [
      | inl absent ↦ rw (remove_absent other s absent) (record {
        elsewhere = away;
        same_peers = refl;
        same_removals = refl;
        same_length = refl;
        still_gone = λ gone. ground (arith, erased);
        still_pending = λ h. h;
      })
      | inr (p, found) ↦ rw (remove_present other p s away found) (record {
        elsewhere = λ j.
            get_or-modify (λ (l : EventLoop Job). is_in_loop_thread main_thread l ≡ false)
              (with_job (destroys other)) no_loop (λ l h. h) s.loops p.io_loop j (away j);
        same_peers = refl;
        same_removals = refl;
        same_length = length-set s.loops p.io_loop _;
        still_gone = λ gone. ground (arith, erased);
        still_pending = λ h.
            get_or-modify (λ (l : EventLoop Job). destroy_pending name l.pending_tasks ≡ true)
              (with_job (destroys other)) no_loop
              (λ l k. destroy_pending-append name l.pending_tasks (destroys other ∷ []) k) s.loops
              p.io_loop i h;
      })
    ]

-- No longer in the map, and its task waits in its loop.
abbrev Dangles : ℕ → ℕ → System → Type 0
Dangles name i s =
    (contains name s.server.connections ≡ false)
    × (destroy_pending name (loop_at i s).pending_tasks ≡ true)

record Removed (name i : ℕ) (s t : System) : Type 0 where
  dangles : Dangles name i t
  same_removals : t.removals ≡ s.removals
  same_peers : t.peers ≡ s.peers

remove_self :
    (name : ℕ) (p : Peer) (s : System)
    → Elsewhere s
    → lookup name s.peers ≡ some p
    → p.io_loop < length s.loops
    → Dangles name p.io_loop (remove name s)
unfolding wakeup push_task
remove_self name p s away found inside = rw (remove_present name p s away found) (
  ground (arith, contains-erase name name s.server.connections),
  rw
      (get_or-set_self s.loops p.io_loop (with_job (destroys name) (loop_at p.io_loop s)) no_loop
        inside)
      (destroy_pending-last name (loop_at p.io_loop s).pending_tasks),
)

keeps_dangling :
    (names : List ℕ) (name i : ℕ) (s : System)
    → Elsewhere s
    → Dangles name i s
    → Removed name i s (remove_all names s)
unfolding remove_all
keeps_dangling [] name i s away d = record { dangles = d; same_removals = refl; same_peers = refl }
keeps_dangling (other ∷ names) name i s away d =
    let r : Removes name i s (remove other s) = remove-Removes name i other s away in
    let rest : Removed name i (remove other s) (remove_all names (remove other s)) =
      keeps_dangling names name i (remove other s) r.elsewhere
        (r.still_gone d.0, r.still_pending d.1) in
    record {
      dangles = rest.dangles;
      same_removals = rest.same_removals ∙ r.same_removals;
      same_peers = rest.same_peers ∙ r.same_peers;
    }

comes_to_dangle :
    (names : List ℕ) (name : ℕ) (p : Peer) (s : System)
    → Elsewhere s
    → lookup name s.peers ≡ some p
    → p.io_loop < length s.loops
    → contains name names ≡ true
    → Removed name p.io_loop s (remove_all names s)
unfolding remove_all
comes_to_dangle [] name p s away found inside listed = cc
comes_to_dangle (other ∷ names) name p s away found inside listed =
    let r : Removes name p.io_loop s (remove other s) =
      remove-Removes name p.io_loop other s away in
    let rest : Removed name p.io_loop (remove other s) (remove_all names (remove other s)) =
      elim (Bool-cases (other == name)) [
        | inl same ↦
            let equal : other ≡ name = (==_iff other name).0 same in
            keeps_dangling names name p.io_loop (remove other s) r.elsewhere
              (rw equal (remove_self name p s away found inside))
        | inr differs ↦
            comes_to_dangle names name p (remove other s) r.elsewhere (rw r.same_peers found)
              (rw r.same_length inside) (ground arith)
      ] in
    record {
      dangles = rest.dangles;
      same_removals = rest.same_removals ∙ r.same_removals;
      same_peers = rest.same_peers ∙ r.same_peers;
    }

-- A removal can leave a task with a dangling pointer. Where the workers run in threads of their own and
-- the removal of a connection waits for the main loop: when the main loop has run its tasks and let
-- go of them, and no worker has gone on meanwhile, no `shared_ptr` to the connection is left, so it
-- has been destroyed, and in the loop of its worker waits the task that `destroyConnection` posted,
-- which uses it.
pub removal_dangles :
    (name : ℕ) {p : Peer} (s : System)
    → Elsewhere s
    → lookup name s.peers ≡ some p
    → p.io_loop < length s.loops
    → contains name s.removals ≡ true
    → let t = run_removals s in
      (owned name t ≡ false) × (destroy_pending name (loop_at p.io_loop t).pending_tasks ≡ true)
unfolding run_removals
removal_dangles name {p} s away found inside waits =
    let start : System = record s { removals = [] } in
    let r : Removed name p.io_loop start (remove_all s.removals start) =
      comes_to_dangle s.removals name p start away found inside waits in
    (rw (r.dangles.0, r.same_removals) refl, r.dangles.1)
