-- ===== src/Net/Echo/Examples.antt =====
-- Runs of the echo servers, and their theorems at concrete inputs.
use mathlib.Core.List.Perm
use socket_programming_c.Prelude.{
  ℕ, ◌+◌, ◌≡◌, refl, true, false, List, [], ◌∷◌, some, none, Bytes, codes, length, ◌==◌,
}
use socket_programming_c.Calls.{hung_up, bytes}
use socket_programming_c.Exits.{done, undefined}
use socket_programming_c.Net.Setup.{
  Sockets, State, opened, closed, bound, listening, try_all, server_attempt, setup_server_socket,
  setup_server, Event,
}
use socket_programming_c.Net.Setup.Servers.{Listens}
use socket_programming_c.Net.Echo.{Peer, client_rounds, handle_client, echo}
use socket_programming_c.Net.Echo.Faithful.{echo-handle_client}
use socket_programming_c.Net.Echo.Servers.{
  Served, accepted, answered, Listening, accept_loop, main_3_2_2,
}
use socket_programming_c.Net.Echo.Servers.Conversations.{conversations, AllCame, main_3_2_2-done}
use socket_programming_c.Net.Echo.Select.{
  Selected, ready, timed_out, fd_set, accept_connection, serve_ports, select_loop, main_select,
}
use socket_programming_c.Net.Lookup.{found, get_addr_list}
use socket_programming_c.Net.Setup.Named.{setup_service}
use socket_programming_c.Net.Echo.Select.Ports.{
  setup_ports, main_select_ports, main_select_ports-undefined,
}
use socket_programming_c.Net.Echo.Select.Leak.{closed_fds, closed_by, main_select-closed}

-- A client that says "hi", then "you", and hangs up.
abbrev pub greeter : Peer
greeter = record {
  fd = 7;
  received = bytes 104 (105 ∷ []) ∷ bytes 121 (111 ∷ 117 ∷ []) ∷ hung_up ∷ [];
  send = λ n chunk. some (length chunk);
  reason = λ n. [];
}

abbrev hi_you : Bytes
hi_you = codes "hiyou"

greeted : handle_client greeter ≡ done hi_you
unfolding handle_client client_rounds
greeted = refl

echo-handle_client_example : echo greeter ≡ handle_client greeter
echo-handle_client_example = echo-handle_client greeter

abbrev pub set_up : Listening
set_up = record { socket = some 3; bind = true; listen = true; reason = [] }

abbrev sockets : Sockets ℕ
sockets = record {
  socket = λ n a. some (n + 3);
  bind = λ n fd a. a == 7;
  connect = λ n fd a. false;
  listen = λ n fd. true;
  getsockname = λ n fd. true;
  reason = λ n. [];
}

abbrev start : State
start = record { calls = 0; log = [] }

abbrev ready_state : State
ready_state = record {
  calls = 6;
  log = opened 3 ∷ closed 3 ∷ opened 6 ∷ bound 6 ∷ listening 6 ∷ [];
}

service_run :
    main_3_2_2 sockets 2 (5 ∷ 7 ∷ []) start [] (some greeter ∷ [])
    ≡ done (ready_state, conversations (some greeter ∷ []))
unfolding main_3_2_2 setup_server_socket try_all server_attempt accept_loop handle_client
    client_rounds
service_run = refl

main_3_2_2-done_example :
    (◌≡◌ {A = ℕ} 2 2)
    × ((fd : ℕ) × Listens fd ready_state.log)
    × AllCame (some greeter ∷ [])
    × (conversations (some greeter ∷ []) ≡ conversations (some greeter ∷ []))
main_3_2_2-done_example =
    main_3_2_2-done sockets 2 (5 ∷ 7 ∷ []) start [] (some greeter ∷ []) ready_state
      (conversations (some greeter ∷ [])) (Perm.refl []) service_run

abbrev select_rounds : List Selected
select_rounds =
    ready false (some (some greeter) ∷ none ∷ []) ∷ timed_out ∷ ready true (none ∷ none ∷ []) ∷ []

abbrev select_log : List Served
select_log = accepted 7 ∷ answered 7 hi_you ∷ Served.closed 3 ∷ Served.closed 4 ∷ []

select_run : main_select 4 [] (some 3 ∷ some 4 ∷ []) select_rounds ≡ done (true, select_log)
unfolding main_select select_loop fd_set serve_ports accept_connection handle_client client_rounds
select_run = refl

main_select-closed_example : closed_fds select_log ≡ closed_by true (some 3 ∷ some 4 ∷ [])
main_select-closed_example =
    main_select-closed 4 [] (some 3 ∷ some 4 ∷ []) select_rounds true select_log select_run

abbrev one_port : State
one_port = record {
  calls = 6;
  log = opened 3 ∷ bound 3 ∷ listening 3 ∷ opened 6 ∷ Event.closed 6 ∷ [];
}

-- Address 7 can be bound, and 5 cannot.
one_port_fails :
    setup_ports sockets (found (7 ∷ []) ∷ found (5 ∷ []) ∷ []) start
    ≡ done (some 3 ∷ none ∷ [], one_port)
unfolding setup_ports setup_service get_addr_list setup_server try_all server_attempt
one_port_fails = refl

main_select_ports-undefined_example :
    main_select_ports sockets 4 [] (found (7 ∷ []) ∷ found (5 ∷ []) ∷ []) start (timed_out ∷ [])
    ≡ undefined
main_select_ports-undefined_example =
    main_select_ports-undefined sockets 4 [] (found (7 ∷ []) ∷ found (5 ∷ []) ∷ []) start one_port
      (some 3 ∷ none ∷ []) timed_out [] refl one_port_fails tt
