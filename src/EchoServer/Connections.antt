-- ===== src/EchoServer/Connections.antt =====
-- The map of the connections: names are not used twice, and each connection is in it from its
-- acceptance to its removal.
use echoserver.Prelude.{
  ℕ, ◌+◌, ◌^◌, ◌≤◌, ◌<◌, ◌≡◌, refl, Bool, true, false, ◌||◌, List, [], ◌∷◌, arith, length, ◌==◌,
  if◌then◌else◌,
}
use echoserver.EchoServer.{
  EchoServer, Listening, start, stop, set_thread_num, erase, handle_new_connection,
  remove_connection_in_loop, remove_connection, get_connection_count,
}

-- The names fall along the list and stay below the bound: none is in it twice.
abbrev pub Below : ℕ → List ℕ → Type 0
Below n [] = Unit {0}
Below n (x ∷ xs) = (x < n) × Below x xs

abbrev pub contains : ℕ → List ℕ → Bool
contains name [] = false
contains name (x ∷ xs) = x == name || contains name xs

Below-mono : (m n : ℕ) (xs : List ℕ) → m ≤ n → Below m xs → Below n xs
Below-mono m n [] h b = tt
Below-mono m n (x ∷ xs) h b = (omega arith, b.1)

erase-Below : (name n : ℕ) (xs : List ℕ) → Below n xs → Below n (erase name xs)
erase-Below name n [] b = tt
erase-Below name n (x ∷ xs) b =
    ground (arith, erase-Below name x xs b.1, Below-mono x n (erase name xs))

pub contains-erase :
    (name other : ℕ) (xs : List ℕ)
    → contains other (erase name xs) ≡ (if name == other then false else contains other xs)
contains-erase name other [] = ground arith
contains-erase name other (x ∷ xs) = ground (arith, contains-erase name other xs)

contains_above : (name n : ℕ) (xs : List ℕ) → Below n xs → n ≤ name → contains name xs ≡ false
contains_above name n [] b h = refl
contains_above name n (x ∷ xs) b h = ground (arith, contains_above name x xs b.1)

erase_absent : (name : ℕ) (xs : List ℕ) → contains name xs ≡ false → erase name xs ≡ xs
erase_absent name [] h = refl
erase_absent name (x ∷ xs) h = ground (arith, erase_absent name xs)

length-erase :
    (name n : ℕ) (xs : List ℕ)
    → Below n xs
    → length xs ≡ length (erase name xs) + (if contains name xs then 1 else 0)
length-erase name n [] b = refl
length-erase name n (x ∷ xs) b =
    ground (arith, length-erase name x xs b.1, contains_above name x xs b.1, erase_absent name xs)

-- Every name in the map was given out, and none is in it twice.
abbrev pub IsValid : EchoServer → Type 0
IsValid s = Below s.next_conn_id s.connections

-- The operations of the server that its callers and its callbacks make.
pub data Call : Type 0 where
  starts : Listening → Call
  stops : Call
  sets_thread_num : ℕ → Call
  accepts : Bool → Call
  removes : Bool → ℕ → Call

unfoldable pub step : Call → EchoServer → EchoServer
step (starts answers) s = (start answers s).1
step stops s = (stop s).1
step (sets_thread_num n) s = set_thread_num n s
step (accepts accepted) s = (handle_new_connection accepted s).1
step (removes in_main_loop name) s = (remove_connection in_main_loop name s).1

-- From a valid state every operation keeps the names in the map distinct and below the next one.
pub step-IsValid : (call : Call) (s : EchoServer) → IsValid s → IsValid (step call s)
unfolding step
step-IsValid (starts answers) s v = unfold start in ground arith
step-IsValid stops s v = unfold stop in ground arith
step-IsValid (sets_thread_num n) s v = unfold set_thread_num in ground arith
step-IsValid (accepts accepted) s v =
    unfold handle_new_connection in
    ground (arith, erase-Below s.next_conn_id s.next_conn_id s.connections v)
step-IsValid (removes in_main_loop name) s v =
    unfold remove_connection in ground (arith, erase-Below name s.next_conn_id s.connections v)

-- From a valid state whose counter of names is below 2 ^ 31 - 1, so that the `int` can go one up: an
-- accepted socket adds one connection under a new name, leaves a counter within the `int` range whose
-- name is new again, and keeps the others. A removal in the main loop takes the connection of its name
-- out, if it is there, and keeps the others.
pub connections_lem :
    (s : EchoServer) (name other : ℕ)
    → IsValid s
    → s.next_conn_id + 1 < 2 ^ 31
    → let added = (handle_new_connection true s).1 in
      let removed = (remove_connection_in_loop name s).1 in
      (get_connection_count added ≡ get_connection_count s + 1)
      × (added.next_conn_id < 2 ^ 31)
      × (contains added.next_conn_id added.connections ≡ false)
      × (contains s.next_conn_id s.connections ≡ false)
      × (contains other added.connections
          ≡ (s.next_conn_id == other || contains other s.connections))
      × (get_connection_count s
          ≡ get_connection_count removed + (if contains name s.connections then 1 else 0))
      × (contains other removed.connections
          ≡ (if name == other then false else contains other s.connections))
unfolding handle_new_connection remove_connection_in_loop step
connections_lem s name other v few =
    let fresh : contains s.next_conn_id s.connections ≡ false =
      contains_above s.next_conn_id s.next_conn_id s.connections v (omega arith) in
    let same : erase s.next_conn_id s.connections ≡ s.connections =
      erase_absent s.next_conn_id s.connections fresh in
    let added : EchoServer = (handle_new_connection true s).1 in
    let valid : IsValid added = step-IsValid (accepts true) s v in
    (
      ground (arith, same),
      ground arith,
      contains_above added.next_conn_id added.next_conn_id added.connections valid (omega arith),
      fresh,
      ground (arith, same),
      length-erase name s.next_conn_id s.connections v,
      contains-erase name other s.connections,
    )
