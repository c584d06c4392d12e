-- ===== src/EchoServer.antt =====
-- include/echo_server.h and src/echo_server.cpp, the class `EchoServer`: starting, stopping, and
-- the map of the connections.
-- A connection is known by the number in its name. Each operation returns what it asks of the
-- sockets, loops and connections, in order; the answers of the listening socket are arguments. The
-- counter of the loops is an `int` kept as a 32-bit pattern. Log lines are left out.
pub mod Balance
pub mod Connections
pub mod Shutdown
mod Tests
use echoserver.Prelude.{
  ℕ, zero, suc, ◌+◌, ◌-◌, ◌%◌, ◌^◌, Bool, true, false, not, Option, none, some, List, [], ◌∷◌, ◌++◌,
  map, ltb, ◌==◌, if◌then◌else◌, length, replicate,
}

pub data Action : Type 0 where
  creates_loop : ℕ → Action
  adds_acceptor : Action
  runs_main_loop : Action
  stops_main_loop : Action
  stops_loop : ℕ → Action
  joins_thread : ℕ → Action
  force_closes : ℕ → Action
  -- A connection of this name, on this loop (`none` is the main loop).
  creates_connection : ℕ → Option ℕ → Action
  establishes : ℕ → Action
  calls_connection_callback : ℕ → Action
  posts_removal : ℕ → Action
  destroys : ℕ → Action

pub record EchoServer : Type 0 where
  pub started : Bool
  pub thread_num : ℕ
  -- An `int`: the code gives out fewer than 2 ^ 31 names, since it may not go beyond.
  pub next_conn_id : ℕ
  -- Each worker loop, with whether its thread is `joinable()`: it is until it has been joined.
  pub loops : List Bool
  pub next_loop_index : ℕ
  -- The names in `connections_`, newest first.
  pub connections : List ℕ
  pub connection_callback : Bool

unfoldable pub create : ℕ → EchoServer
create thread_num = record {
  started = false;
  thread_num = thread_num;
  next_conn_id = 1;
  loops = [];
  next_loop_index = 0;
  connections = [];
  connection_callback = true;
}

-- What `create`, `bind` and `listen` of the listening socket return.
pub record Listening : Type 0 where
  pub created : Bool
  pub bound : Bool
  pub listens : Bool

-- `creates_loop` for the indices from `i` on.
abbrev pub each : (ℕ → Action) → ℕ → ℕ → List Action
each f i zero = []
each f i (suc n) = f i ∷ each f (i + 1) n

unfoldable pub start : Listening → EchoServer → List Action × EchoServer
start answers s =
    let s' = record s { started = true } in
    if s.started
    then ([], s)
    else (if not answers.created
        then ([], s')
        else (if not answers.bound
            then ([], s')
            else (if not answers.listens then ([], s') else (
              each creates_loop (length s.loops) s.thread_num
                  ++ (adds_acceptor ∷ runs_main_loop ∷ []),
              record s' { loops = s.loops ++ replicate s.thread_num true },
            ))))

-- The threads that are still to be joined, of those from index `i` on.
abbrev pub join_threads : ℕ → List Bool → List Action
join_threads i [] = []
join_threads i (joinable ∷ loops) =
    let rest = join_threads (i + 1) loops in if joinable then joins_thread i ∷ rest else rest

unfoldable pub stop : EchoServer → List Action × EchoServer
stop s = if not s.started then ([], s) else (
  (stops_main_loop ∷ each stops_loop 0 (length s.loops))
      ++ (join_threads 0 s.loops ++ map force_closes s.connections),
  record s { started = false; loops = map (λ _. false) s.loops; connections = [] },
)

unfoldable pub set_thread_num : ℕ → EchoServer → EchoServer
set_thread_num n s = if s.started then s else record s { thread_num = n }

unfoldable pub set_connection_callback : Bool → EchoServer → EchoServer
set_connection_callback callback s = record s { connection_callback = callback }

abbrev pub is_running : EchoServer → Bool
is_running s = s.started

-- The destructor stops the server.
unfoldable pub destroy_server : EchoServer → List Action
unfolding stop
destroy_server s = (stop s).0

-- An `int` as a `size_t`.
abbrev pub to_size : ℕ → ℕ
to_size v = if ltb v (2 ^ 31) then v else v + (2 ^ 64 - 2 ^ 32)

unfoldable pub get_next_loop : EchoServer → Option ℕ × EchoServer
get_next_loop s = if length s.loops == 0 then (none, s) else (
  some (to_size s.next_loop_index % length s.loops),
  record s { next_loop_index = (s.next_loop_index + 1) % 2 ^ 32 },
)

abbrev pub erase : ℕ → List ℕ → List ℕ
erase name [] = []
erase name (x ∷ xs) = if x == name then erase name xs else x ∷ erase name xs

-- `accept` gives a socket or none.
unfoldable pub handle_new_connection : Bool → EchoServer → List Action × EchoServer
unfolding get_next_loop
handle_new_connection accepted s =
    let name = s.next_conn_id in
    let (io_loop, s') = get_next_loop (record s { next_conn_id = name + 1 }) in
    if not accepted then ([], s) else (
      creates_connection name io_loop
          ∷ establishes name
          ∷ (if s.connection_callback then calls_connection_callback name ∷ [] else []),
      record s' { connections = name ∷ erase name s.connections },
    )

unfoldable pub remove_connection_in_loop : ℕ → EchoServer → List Action × EchoServer
remove_connection_in_loop name s =
    (destroys name ∷ [], record s { connections = erase name s.connections })

-- In the main loop's thread at once, and from a worker's as a task.
unfoldable pub remove_connection : Bool → ℕ → EchoServer → List Action × EchoServer
unfolding remove_connection_in_loop
remove_connection in_main_loop name s =
    if in_main_loop then remove_connection_in_loop name s else (posts_removal name ∷ [], s)

abbrev pub get_connection_count : EchoServer → ℕ
get_connection_count s = length s.connections
