-- ===== src/Net/Echo/Servers.antt =====
-- The echo servers that take one connection after the other: main of
-- Sockets_in_C/ch02/IPv4_TCP/server, of ch03/3-2/server and of ch03/3-2-2/server.
pub mod Conversations
use socket_programming_c.Prelude.{
  ℕ, ◌+◌, Bool, true, false, List, [], ◌∷◌, ◌++◌, Option, none, some, Bytes, codes, ◌==◌,
  if◌then◌else◌,
}
use socket_programming_c.Exits.{Run, done, exit_with_system_msg, exit_with_user_msg, ◌>>=◌}
use socket_programming_c.Net.Setup.{Sockets, State, setup_tcp_server_socket, setup_server_socket}
use socket_programming_c.Net.Echo.{Peer, handle_client, echo, handle_client_wrong_name}

-- What happens to a connection.
pub data Served : Type 0 where
  accepted : ℕ → Served
  answered : ℕ → Bytes → Served
  closed : ℕ → Served

abbrev pub conversation : Peer → Bytes → List Served
conversation p out = accepted p.fd ∷ answered p.fd out ∷ closed p.fd ∷ []

-- while (true) { accept; handle; close }, over what `accept` brings: `none` is -1.
unfoldable pub accept_loop :
    (Peer → Run Bytes) → Bytes → List (Option Peer) → List Served → Run (List Served)
accept_loop handle reason [] log = done log
accept_loop handle reason (none ∷ clients) log =
    exit_with_system_msg (codes "accept() failed") reason
accept_loop handle reason (some p ∷ clients) log = do
  out ← handle p
  accept_loop handle reason clients (log ++ conversation p out)

-- The results of the calls that ch02/IPv4_TCP/server makes before it accepts.
pub record Listening : Type 0 where
  pub socket : Option ℕ
  pub bind : Bool
  pub listen : Bool
  pub reason : Bytes

abbrev pub listen_test : Listening → Run (List Served) → Run (List Served)
listen_test l next =
    if l.listen then next else exit_with_system_msg (codes "listen() failed") l.reason

abbrev pub bind_test : Listening → Run (List Served) → Run (List Served)
bind_test l next =
    if l.bind then listen_test l next else exit_with_system_msg (codes "bind() failed") l.reason

abbrev pub socket_test : Listening → Option ℕ → Run (List Served) → Run (List Served)
socket_test l none next = exit_with_system_msg (codes "socket() failed") l.reason
socket_test l (some fd) next = bind_test l next

-- main of ch02/IPv4_TCP/server.
unfoldable pub main_ipv4 : ℕ → Listening → List (Option Peer) → Run (List Served)
main_ipv4 argc l clients =
    if argc == 2
    then socket_test l l.socket (accept_loop echo l.reason clients [])
    else exit_with_user_msg (codes "Parameter(s)") (codes "<Server Port>")

abbrev pub listener_or_exit : Bytes → Bytes → Option ℕ × State → Run State
listener_or_exit msg detail (none, st) = exit_with_user_msg msg detail
listener_or_exit msg detail (some fd, st) = done st

module _ {A : Type 0} (sys : Sockets A) where
  -- main of ch03/3-2/server: what was done to set up, and what was done to the connections.
  unfoldable pub main_3_2 :
      ℕ → Bytes → List A → State → Bytes → List (Option Peer) → Run (State × List Served)
  main_3_2 argc service list st reason clients =
      if argc == 2
      then (do
        found ← setup_tcp_server_socket sys list st
        st' ← listener_or_exit (codes "socket setup failed") service found
        log ← accept_loop handle_client_wrong_name reason clients []
        done (st', log))
      else exit_with_user_msg (codes "Parameter(s)") (codes "<Server Port>")

  -- main of ch03/3-2-2/server.
  unfoldable pub main_3_2_2 :
      ℕ → List A → State → Bytes → List (Option Peer) → Run (State × List Served)
  main_3_2_2 argc list st reason clients =
      if argc == 2
      then (do
        st' ←
            listener_or_exit (codes "setup_server_socket()") (codes "fail to setup socket")
              (setup_server_socket sys list st)
        log ← accept_loop handle_client reason clients []
        done (st', log))
      else exit_with_user_msg (codes "Parameter(s)") (codes "<Service/Port>")
