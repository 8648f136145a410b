-- ===== src/Net/Tcp/Examples.antt =====
-- Runs of TCP_Echo_Server and TCP_Echo_Client, and their theorems at concrete inputs.
use socket_programming_c.Prelude.{◌≡◌, refl, [], ◌∷◌, ◌++◌, some, none, codes, newline}
use socket_programming_c.Exits.{done}
use socket_programming_c.Net.Echo.Servers.{main_ipv4}
use socket_programming_c.Net.Echo.Examples.{greeter, set_up}
use socket_programming_c.Net.Client.{text_of}
use socket_programming_c.Net.Client.Examples.{calls, hi}
use socket_programming_c.Net.Tcp.{main_tcp_server, main_tcp_client, tcp_receive}
use socket_programming_c.Net.Tcp.Status.{as_failure, main_tcp_server-main_ipv4}

main_tcp_server-main_ipv4_example :
    as_failure (main_tcp_server 2 set_up (some greeter ∷ none ∷ []))
    ≡ main_ipv4 2 set_up (some greeter ∷ none ∷ [])
main_tcp_server-main_ipv4_example = main_tcp_server-main_ipv4 2 set_up (some greeter ∷ none ∷ [])

prints : main_tcp_client calls hi 3 ≡ done (codes "Received: hi" ++ newline ∷ [])
unfolding main_tcp_client tcp_receive text_of
prints = refl
