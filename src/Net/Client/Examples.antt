-- ===== src/Net/Client/Examples.antt =====
-- Runs of the echo clients, and their theorems at concrete inputs.
use socket_programming_c.Prelude.{
  ℕ, ◌+◌, ◌≡◌, refl, true, false, List, [], ◌∷◌, ◌++◌, some, arith, Bytes, codes, length, newline,
}
use socket_programming_c.Calls.{Received, bytes}
use socket_programming_c.Exits.{done, out_of_fuel}
use socket_programming_c.Net.Client.{
  text_of, receive, receive_unchecked, parsed, Calls, main_client,
}
use socket_programming_c.Net.Client.Printed.{receive-handle_client}
use socket_programming_c.Net.Client.Endless.{receive_unchecked-endless}
use socket_programming_c.Net.Setup.{Sockets, State}
use socket_programming_c.Net.Client.Variants.{
  receive_greetings, strn_eq, greeted_echo, main_ipv6_v2_client,
}
use socket_programming_c.Net.Echo.{Peer, client_rounds, handle_client}

-- "hi" comes to the server in one chunk and back in two.
abbrev in_one : List Received
in_one = bytes 104 (105 ∷ []) ∷ []

abbrev in_two : List Received
in_two = bytes 104 [] ∷ bytes 105 [] ∷ []

abbrev pub hi : Bytes
hi = 104 ∷ 105 ∷ []

abbrev server_side : Peer
server_side = record {
  fd = 7;
  received = in_one;
  send = λ n chunk. some (length chunk);
  reason = λ n. [];
}

abbrev pub calls : Calls
calls = record {
  socket = some 3;
  inet_pton = parsed;
  connect = true;
  send = λ s. some (length s);
  received = in_two;
  reason = [];
}

server_run : handle_client server_side ≡ done hi
unfolding handle_client client_rounds
server_run = refl

client_run : main_client 3 hi calls ≡ done (hi ++ newline ∷ [])
unfolding main_client receive text_of
client_run = refl

receive-handle_client_example : receive [] 2 0 [] in_two ≡ done hi
receive-handle_client_example =
    receive-handle_client [] hi server_side in_two (λ n chunk. refl) tt refl tt
      ((omega arith, (omega arith, tt)), ((omega arith, (omega arith, tt)), tt)) server_run

receive_unchecked-endless_example : receive_unchecked [] 3 1000 0 [] in_two ≡ out_of_fuel
receive_unchecked-endless_example =
    receive_unchecked-endless 1000 [] 3 0 [] in_two tt
      ((omega arith, (omega arith, tt)), ((omega arith, (omega arith, tt)), tt)) (omega arith)

-- The server greets in two chunks before it echoes.
abbrev greeting_calls : Calls
greeting_calls = record calls {
  received = bytes 104 (101 ∷ []) ∷ bytes 108 (108 ∷ 111 ∷ []) ∷ in_two;
}

greeted_run :
    main_ipv6_v2_client greeting_calls 9 hi 3 true true
    ≡ done (codes "hello" ++ newline ∷ hi ++ newline ∷ [])
unfolding main_ipv6_v2_client greeted_echo receive_greetings strn_eq receive_unchecked text_of
greeted_run = refl

abbrev sockets : Sockets ℕ
sockets = record {
  socket = λ n a. some (n + 3);
  bind = λ n fd a. true;
  connect = λ n fd a. false;
  listen = λ n fd. true;
  getsockname = λ n fd. true;
  reason = λ n. [];
}

abbrev start : State
start = record { calls = 0; log = [] }
