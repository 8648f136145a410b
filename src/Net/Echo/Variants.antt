-- ===== src/Net/Echo/Variants.antt =====
-- The other one-by-one echo servers: main of Sockets_in_C/ch02/IPv6_TCP/server, of
-- ch02/IPv6_TCP_V2/server, which greets its clients, and the three of ch02-2.
pub mod Greeted
use socket_programming_c.Prelude.{
  ℕ, ◌+◌, Bool, true, false, List, [], ◌∷◌, ◌++◌, Option, none, some, Bytes, codes, length, ◌==◌,
  if◌then◌else◌,
}
use socket_programming_c.Calls.{Received, failed, hung_up, bytes}
use socket_programming_c.Exits.{Run, done, exit_with_system_msg, exit_with_user_msg, ◌>>=◌}
use socket_programming_c.Net.Echo.{Peer, echo_rounds, echo, first_round, handle_client_wrong_name}
use socket_programming_c.Net.Echo.Servers.{
  Served, conversation, accept_loop, Listening, listen_test, bind_test, socket_test,
}

-- main of ch02/IPv6_TCP/server.
unfoldable pub main_ipv6 : ℕ → Listening → List (Option Peer) → Run (List Served)
main_ipv6 argc l clients =
    if argc == 2
    then socket_test l l.socket (accept_loop echo l.reason clients [])
    else exit_with_user_msg (codes "Parameter(s)") (codes "<Server Port>")

-- main of ch02-2/IPv4/server: handle_client closes the socket at its end.
unfoldable pub main_2_2 : ℕ → Listening → List (Option Peer) → Run (List Served)
main_2_2 argc l clients =
    if argc == 2
    then socket_test l l.socket (accept_loop handle_client_wrong_name l.reason clients [])
    else exit_with_user_msg (codes "Parameter(s)") (codes "<Server Port>")

-- main of ch02-2/IPv6/server/src/main.c, which has the same text.
unfoldable pub main_2_2_ipv6 : ℕ → Listening → List (Option Peer) → Run (List Served)
main_2_2_ipv6 argc l clients =
    if argc == 2
    then socket_test l l.socket (accept_loop handle_client_wrong_name l.reason clients [])
    else exit_with_user_msg (codes "Parameter(s)") (codes "<Server Port>")

-- main of ch02-2/IPv6/server/src/main2.c: the result of `socket` is handed to `bind` untested.
unfoldable pub main2 : ℕ → Listening → List (Option Peer) → Run (List Served)
main2 argc l clients =
    if argc == 2
    then bind_test l (accept_loop echo l.reason clients [])
    else exit_with_user_msg (codes "Parameter(s)") (codes "<Server Port>")

abbrev pub greeting : Bytes
greeting = codes "hello"

-- The loop of `echo` begun behind a send that sent `out`.
abbrev pub echo_behind : Peer → Bytes → List Received → Run Bytes
echo_behind p out [] = done out
echo_behind p out (r ∷ more) = echo_rounds p (codes "send() failed") 1 out r more

abbrev pub greeting_test : Peer → Option ℕ → Run Bytes → Run Bytes
greeting_test p none next = exit_with_system_msg (codes "send() failed") (p.reason 0)
greeting_test p (some sent) next =
    if sent == length greeting
    then next
    else exit_with_user_msg (codes "send()") (codes "Unexpected number of bytes sent")

-- send_greetings, then echo.
unfoldable pub greet_and_echo : Peer → Run Bytes
greet_and_echo p = greeting_test p (p.send 0 greeting) (echo_behind p greeting p.received)

-- get_local_addr and get_remote_addr end the process when the name is not to be had.
abbrev pub named : Bytes → Bytes → Bool → Run (List Served) → Run (List Served)
named call reason ok next = if ok then next else exit_with_system_msg call reason

-- Whether the calls of getsockname and getpeername succeed, by the number of them before.
unfoldable pub greeting_loop :
    (ℕ → Bool) → Bytes → ℕ → List (Option Peer) → List Served → Run (List Served)
greeting_loop names reason n [] log = done log
greeting_loop names reason n (none ∷ clients) log =
    exit_with_system_msg (codes "accept() failed") reason
greeting_loop names reason n (some p ∷ clients) log =
    named (codes "getsockname() failed") reason (names n) (
      named (codes "getpeername() failed") reason (names (n + 1)) (do
        out ← greet_and_echo p
        greeting_loop names reason (n + 2) clients (log ++ conversation p out)))

abbrev pub named_bind_test : (ℕ → Bool) → Listening → Run (List Served) → Run (List Served)
named_bind_test names l next = named (codes "getsockname() failed") l.reason (names 0) (
    if l.bind
    then named (codes "getsockname() failed") l.reason (names 1) (listen_test l next)
    else exit_with_system_msg (codes "bind() failed") l.reason)

abbrev pub named_socket_test :
    (ℕ → Bool) → Listening → Option ℕ → Run (List Served) → Run (List Served)
named_socket_test names l none next = exit_with_system_msg (codes "socket() failed") l.reason
named_socket_test names l (some fd) next = named_bind_test names l next

-- main of ch02/IPv6_TCP_V2/server.
unfoldable pub main_ipv6_v2 : ℕ → (ℕ → Bool) → Listening → List (Option Peer) → Run (List Served)
main_ipv6_v2 argc names l clients =
    if argc == 2
    then named_socket_test names l l.socket (greeting_loop names l.reason 2 clients [])
    else exit_with_user_msg (codes "Parameter(s)") (codes "<Server Port>")
