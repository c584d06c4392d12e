-- ===== src/EchoServer/Tests.antt =====
-- `EchoServer` at concrete inputs.
use echoserver.Prelude.{
  ◌<◌, ◌^◌, ◌+◌, ◌≡◌, refl, true, false, ◌||◌, some, [], ◌∷◌, arith, get_or, ◌==◌, if◌then◌else◌,
}
use echoserver.EchoServer.{
  EchoServer, Listening, start, stop, get_next_loop, handle_new_connection,
  remove_connection_in_loop, get_connection_count, stops_main_loop, stops_loop, joins_thread,
  force_closes,
}
use echoserver.EchoServer.Balance.{picks, picks-cycle}
use echoserver.EchoServer.Connections.{contains, connections_lem}
use echoserver.EchoServer.Shutdown.{closes_before, stop_closes_late, restart_keeps_ended}

abbrev good : Listening
good = record { created = true; bound = true; listens = true }

abbrev serving : EchoServer
serving = record {
  started = true;
  thread_num = 2;
  next_conn_id = 4;
  loops = true ∷ true ∷ [];
  next_loop_index = 3;
  connections = 3 ∷ 1 ∷ [];
  connection_callback = true;
}

stop_runs :
    (stop serving).0
    ≡ stops_main_loop
      ∷ stops_loop 0
      ∷ stops_loop 1
      ∷ joins_thread 0
      ∷ joins_thread 1
      ∷ force_closes 3
      ∷ force_closes 1
      ∷ []
unfolding stop
stop_runs = refl

connections_lem_example :
    let added = (handle_new_connection true serving).1 in
    let removed = (remove_connection_in_loop 3 serving).1 in
    (get_connection_count added ≡ 3)
    × (added.next_conn_id < 2 ^ 31)
    × (contains added.next_conn_id added.connections ≡ false)
    × (contains 4 (3 ∷ 1 ∷ []) ≡ false)
    × (contains 1 added.connections ≡ (4 == 1 || contains 1 (3 ∷ 1 ∷ [])))
    × (2 ≡ get_connection_count removed + (if contains 3 (3 ∷ 1 ∷ []) then 1 else 0))
    × (contains 1 removed.connections ≡ (if 3 == 1 then false else contains 1 (3 ∷ 1 ∷ [])))
connections_lem_example = connections_lem serving 3 1 (omega arith) (omega arith)

stop_closes_late_example : closes_before 1 (stop serving).0 ≡ 0
stop_closes_late_example = stop_closes_late serving 1 refl refl

abbrev unbound : Listening
unbound = record good { bound = false }

abbrev unused : EchoServer
unused = record serving { next_loop_index = 0 }

restart_keeps_ended_example :
    let s' = (start good (stop unused).1).1 in
    (s'.loops ≡ false ∷ false ∷ true ∷ true ∷ [])
    × ((get_next_loop s').0 ≡ some 0)
    × (get_or s'.loops 0 true ≡ false)
restart_keeps_ended_example = restart_keeps_ended unused good refl refl refl (omega arith)

picks-cycle_example : picks 3 serving ≡ some 1 ∷ some 0 ∷ some 1 ∷ []
picks-cycle_example = picks-cycle 3 serving (omega arith) (omega arith)
