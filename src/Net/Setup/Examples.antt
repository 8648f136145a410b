-- ===== src/Net/Setup/Examples.antt =====
-- Runs of the socket setup, and its theorems at concrete inputs.
use mathlib.Core.List.Perm
use socket_programming_c.Prelude.{ℕ, ◌+◌, ◌≡◌, refl, true, false, [], ◌∷◌, some, ◌==◌}
use socket_programming_c.Net.Setup.{
  Sockets, State, opened, closed, bound, listening, try_all, server_attempt, client_attempt,
  setup_server, setup_server_socket, setup_client,
}
use socket_programming_c.Net.Setup.Servers.{
  ServerSocket, Listens, setup_server-ServerSocket, setup_server_socket-usable,
}
use socket_programming_c.Net.Setup.Clients.{
  ClientSocket, Closed, setup_client-ClientSocket, setup_client-Closed,
}

-- Addresses are numbers; 7 can be bound, and none answers.
abbrev pub sockets : Sockets ℕ
sockets = record {
  socket = λ n a. some (n + 3);
  bind = λ n fd a. a == 7;
  connect = λ n fd a. false;
  listen = λ n fd. true;
  getsockname = λ n fd. true;
  reason = λ n. [];
}

abbrev pub start : State
start = record { calls = 0; log = [] }

-- The first address is not to be had, and its socket is closed.
second_address : setup_server sockets 5 (7 ∷ 9 ∷ []) start ≡ (
  some 6,
  record { calls = 6; log = opened 3 ∷ closed 3 ∷ opened 6 ∷ bound 6 ∷ listening 6 ∷ [] },
)
unfolding setup_server try_all server_attempt
second_address = refl

no_answer :
    setup_client sockets (5 ∷ 7 ∷ []) start
    ≡ (some 6, record { calls = 6; log = opened 3 ∷ closed 3 ∷ opened 6 ∷ closed 6 ∷ [] })
unfolding setup_client try_all client_attempt
no_answer = refl

setup_server-ServerSocket_example : ServerSocket (setup_server sockets 5 (7 ∷ 9 ∷ []) start)
setup_server-ServerSocket_example =
    setup_server-ServerSocket sockets 5 (7 ∷ 9 ∷ []) start (Perm.refl [])

setup_server_socket-usable_example :
    (fd : ℕ) × ((setup_server_socket sockets (5 ∷ 7 ∷ 9 ∷ []) start).0 ≡ some fd)
    × Listens fd (setup_server_socket sockets (5 ∷ 7 ∷ 9 ∷ []) start).1.log
setup_server_socket-usable_example =
    setup_server_socket-usable sockets (5 ∷ []) (9 ∷ []) 7 start
      (λ n. (n + 3, refl), λ n fd. refl, λ n fd. refl) (Perm.refl [])

setup_client-ClientSocket_example : ClientSocket (setup_client sockets (5 ∷ 7 ∷ []) start)
setup_client-ClientSocket_example =
    setup_client-ClientSocket sockets (5 ∷ 7 ∷ []) start (Perm.refl [])

setup_client-Closed_example : Closed (setup_client sockets (5 ∷ 7 ∷ []) start)
setup_client-Closed_example =
    setup_client-Closed sockets 5 (7 ∷ []) start (λ n a. (n + 3, refl), λ n fd a. refl)
