-- ===== src/Net/Tcp.antt =====
-- Sockets_in_C/ch02/TCP_Echo_Server and TCP_Echo_Client, whose die_with_system_message exits with
-- EXIT_SUCCESS.
pub mod Status
pub mod ClientStatus
pub mod Examples
use socket_programming_c.Prelude.{
  ℕ, ◌+◌, Bool, true, false, List, [], ◌∷◌, ◌++◌, Option, none, some, Bytes, codes, newline, length,
  ltb, ◌==◌, ◌||◌, if◌then◌else◌,
}
use socket_programming_c.Calls.{Received, failed, hung_up, bytes}
use socket_programming_c.Exits.{Run, done, exit_failure, exit_success, undefined, ◌>>=◌}
use socket_programming_c.Net.Echo.{Peer}
use socket_programming_c.Net.Echo.Servers.{Served, conversation, Listening}
use socket_programming_c.Net.Client.{
  text_of, print_chunk, Parsed, invalid, unsupported, parsed, Calls,
}

unfoldable pub die_with_user_message {ℓ} : {A : Type ℓ} → Bytes → Bytes → Run A
die_with_user_message msg detail = exit_failure (msg ++ codes ": " ++ detail ++ newline ∷ [])

unfoldable pub die_with_system_message {ℓ} : {A : Type ℓ} → Bytes → Bytes → Run A
die_with_system_message msg reason = exit_success (msg ++ codes ": " ++ reason ++ newline ∷ [])

module _ (p : Peer) where
  -- The test of what `send` returned; `next` is what follows if everything was sent.
  abbrev pub sent_or_die : ℕ → Bytes → Option ℕ → Run Bytes → Run Bytes
  sent_or_die n chunk none next = die_with_system_message (codes "send() failed") (p.reason n)
  sent_or_die n chunk (some sent) next =
      if sent == length chunk
      then next
      else die_with_user_message (codes "send()") (codes "sent unexpected number of bytes")

  -- The loop of handle_tcp_client, with what `recv` brought last, behind `n` sends that sent
  -- `out`.
  unfoldable pub tcp_rounds : ℕ → Bytes → Received → List Received → Run Bytes
  tcp_rounds n out failed more = die_with_system_message (codes "recv() failed") (p.reason n)
  tcp_rounds n out hung_up more = done out
  tcp_rounds n out (bytes c buf) [] =
      sent_or_die n (c ∷ buf) (p.send n (c ∷ buf)) (done (out ++ c ∷ buf))
  tcp_rounds n out (bytes c buf) (r ∷ more) =
      let next = tcp_rounds (n + 1) (out ++ c ∷ buf) r more in
      sent_or_die n (c ∷ buf) (p.send n (c ∷ buf)) next

  abbrev pub first_tcp_round : List Received → Run Bytes
  first_tcp_round [] = done []
  first_tcp_round (r ∷ more) = tcp_rounds 0 [] r more

  unfoldable pub handle_tcp_client : Run Bytes
  handle_tcp_client = first_tcp_round p.received

-- while (true) over what `accept` brings: `none` is -1.
unfoldable pub accept_or_die : Bytes → List (Option Peer) → List Served → Run (List Served)
accept_or_die reason [] log = done log
accept_or_die reason (none ∷ clients) log = die_with_system_message (codes "accept() failed") reason
accept_or_die reason (some p ∷ clients) log = do
  out ← handle_tcp_client p
  accept_or_die reason clients (log ++ conversation p out)

abbrev pub listen_or_die : Listening → Run (List Served) → Run (List Served)
listen_or_die l next =
    if l.listen then next else die_with_system_message (codes "listen() failed") l.reason

abbrev pub bind_or_die : Listening → Run (List Served) → Run (List Served)
bind_or_die l next =
    if l.bind
    then listen_or_die l next
    else die_with_system_message (codes "bind() failed") l.reason

abbrev pub server_socket_or_die : Listening → Option ℕ → Run (List Served) → Run (List Served)
server_socket_or_die l none next = die_with_system_message (codes "socket() failed") l.reason
server_socket_or_die l (some fd) next = bind_or_die l next

-- main of TCP_Echo_Server.
unfoldable pub main_tcp_server : ℕ → Listening → List (Option Peer) → Run (List Served)
main_tcp_server ac l clients =
    if ac == 2
    then server_socket_or_die l l.socket (accept_or_die l.reason clients [])
    else die_with_user_message (codes "Parameter(s)") (codes "<Server Port>")

module _ (k : Calls) (echo_str : Bytes) where
  -- The loop that receives, behind `total` bytes of which `out` was printed.
  unfoldable pub tcp_receive : ℕ → Bytes → List Received → Run Bytes
  tcp_receive total out [] =
      if ltb total (length echo_str)
      then die_with_user_message (codes "recv()") (codes "connection closed prematurely")
      else done out
  tcp_receive total out (failed ∷ more) =
      if ltb total (length echo_str)
      then die_with_system_message (codes "recv() failed") k.reason
      else done out
  tcp_receive total out (hung_up ∷ more) =
      if ltb total (length echo_str)
      then die_with_user_message (codes "recv()") (codes "connection closed prematurely")
      else done out
  tcp_receive total out (bytes c buf ∷ more) =
      let next = tcp_receive (total + length (c ∷ buf)) (out ++ text_of (c ∷ buf)) more in
      if ltb total (length echo_str) then print_chunk (c ∷ buf) next else done out

  abbrev pub tcp_echo : Option ℕ → Run Bytes
  tcp_echo none = die_with_system_message (codes "send() failed") k.reason
  tcp_echo (some sent) =
      if sent == length echo_str
      then (do
        out ← tcp_receive 0 [] k.received
        done (codes "Received: " ++ (out ++ newline ∷ [])))
      else die_with_user_message (codes "send()") (codes "sent unexpected number of bytes")

  abbrev pub connect_or_die : Parsed → Run Bytes
  connect_or_die invalid =
      die_with_user_message (codes "inet_pton() failed") (codes "invalid address string")
  connect_or_die unsupported = die_with_system_message (codes "inet_pton() failed") k.reason
  connect_or_die parsed =
      if k.connect
      then tcp_echo (k.send echo_str)
      else die_with_system_message (codes "connect() failed") k.reason

  abbrev pub client_socket_or_die : Option ℕ → Run Bytes
  client_socket_or_die none = die_with_system_message (codes "socket() failed") k.reason
  client_socket_or_die (some fd) = connect_or_die k.inet_pton

  -- main of TCP_Echo_Client: what it prints.
  unfoldable pub main_tcp_client : ℕ → Run Bytes
  main_tcp_client ac =
      if ltb ac 3 || ltb 4 ac
      then die_with_user_message (codes "Parameter(s)")
          (codes "<Server Address> <Echo String> [<Server Port>]")
      else client_socket_or_die k.socket
