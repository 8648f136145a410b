-- ===== src/Net/Tcp/ClientStatus.antt =====
-- TCP_Echo_Client and the client of ch02-2 differ in the status with which they exit.
use socket_programming_c.Prelude.{
  ℕ, ◌+◌, ◌≡◌, refl, true, false, List, [], ◌∷◌, ◌++◌, Option, none, some, Bytes, codes, length,
  ltb, ◌==◌, ◌||◌,
}
use socket_programming_c.Calls.{Received, failed, hung_up, bytes}
use socket_programming_c.Exits.{Run}
use socket_programming_c.Net.Client.{
  text_of, print_chunk, receive, Parsed, invalid, unsupported, parsed, Calls,
}
use socket_programming_c.Net.Client.Variants.{
  main_2_2_client, checked_echo, address_or_exit, socket_or_exit, exercise9, print_connection_info,
}
use socket_programming_c.Net.Tcp.{
  tcp_receive, tcp_echo, connect_or_die, client_socket_or_die, main_tcp_client,
}
use socket_programming_c.Net.Tcp.Status.{
  as_failure, as_failure-bind, as_failure-if, system_status, user_status,
}

module _ (k : Calls) (echo_str : Bytes) where
  chunk_status :
      (chunk : Bytes) (next next' : Run Bytes)
      → as_failure next ≡ next'
      → as_failure (print_chunk chunk next) ≡ print_chunk chunk next'
  chunk_status chunk next next' e = as_failure-if (ltb (length chunk) 100) _ _ _ _ e refl

  receive_status :
      (total : ℕ) (out : Bytes) (l : List Received)
      → as_failure (tcp_receive k echo_str total out l)
        ≡ receive k.reason (length echo_str) total out l
  unfolding tcp_receive receive
  receive_status total out [] =
      as_failure-if (ltb total (length echo_str)) _ _ _ _
        (user_status (codes "recv()") (codes "connection closed prematurely")) refl
  receive_status total out (failed ∷ more) =
      as_failure-if (ltb total (length echo_str)) _ _ _ _
        (system_status (codes "recv() failed") k.reason) refl
  receive_status total out (hung_up ∷ more) =
      as_failure-if (ltb total (length echo_str)) _ _ _ _
        (user_status (codes "recv()") (codes "connection closed prematurely")) refl
  receive_status total out (bytes c buf ∷ more) =
      as_failure-if (ltb total (length echo_str)) _ _ _ _
        (chunk_status (c ∷ buf) _ _
          (receive_status (total + length (c ∷ buf)) (out ++ text_of (c ∷ buf)) more))
        refl

  echo_status : (o : Option ℕ) → as_failure (tcp_echo k echo_str o) ≡ checked_echo k echo_str o
  echo_status none = system_status (codes "send() failed") k.reason
  echo_status (some sent) =
      as_failure-if (sent == length echo_str) _ _ _ _
        (as_failure-bind (tcp_receive k echo_str 0 [] k.received) _ _ _
          (receive_status 0 [] k.received) (λ out. refl))
        (user_status (codes "send()") (codes "sent unexpected number of bytes"))

  connect_status :
      (o : Parsed)
      → as_failure (connect_or_die k echo_str o)
        ≡ address_or_exit k echo_str o (checked_echo k echo_str (k.send echo_str))
  connect_status invalid = user_status (codes "inet_pton() failed") (codes "invalid address string")
  connect_status unsupported = system_status (codes "inet_pton() failed") k.reason
  connect_status parsed =
      as_failure-if k.connect _ _ _ _ (echo_status (k.send echo_str))
        (system_status (codes "connect() failed") k.reason)

  client_status :
      (o : Option ℕ)
      → as_failure (client_socket_or_die k echo_str o)
        ≡ socket_or_exit k 0 echo_str o
            (address_or_exit k echo_str k.inet_pton (checked_echo k echo_str (k.send echo_str)))
  client_status none = system_status (codes "socket() failed") k.reason
  client_status (some fd) = connect_status k.inet_pton

  -- With the number of arguments that it wants, main of TCP_Echo_Client prints what main of
  -- ch02-2/IPv4/client prints if `bind`, `getpeername` and `getsockname` succeed there, and exits
  -- when that does, but for the status.
  pub main_tcp_client-main_2_2_client :
      (ac : ℕ)
      → (ltb ac 3 || ltb 4 ac) ≡ false
      → as_failure (main_tcp_client k echo_str ac) ≡ main_2_2_client k echo_str ac true true true
  unfolding main_tcp_client main_2_2_client exercise9 print_connection_info
  main_tcp_client-main_2_2_client ac e = rw e (client_status k.socket)
