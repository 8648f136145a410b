-- ===== src/Net/Address.antt =====
-- What the programs print of a socket address: PrintSocketAddress of
-- Sockets_in_C/ch05/VoteServer/src/Utils.c and of ch06/UDPEchoServer-SIGIO.c,
-- print_socket_address of ch03/3-1, and print_addr_info of Beej/ch07/poll_server2.c. The streams
-- and addresses that they assert or test for are not NULL where they are called.
pub mod Ports
pub mod Examples
use socket_programming_c.Prelude.{
  ℕ, ◌+◌, ◌*◌, ◌/◌, ◌%◌, Bool, true, false, [], ◌∷◌, ◌++◌, Option, none, some, Bytes, codes,
  newline, ltb, if◌then◌else◌,
}
use socket_programming_c.Exits.{Run, done, exit_failure, undefined}
use socket_programming_c.CLib.Numerals.{decimal}

-- An address by its family, with its bytes and the number of its port.
pub data SocketAddress : Type 0 where
  inet inet6 : Bytes → ℕ → SocketAddress
  unknown : SocketAddress

-- A number of two bytes with its bytes the other way round. `sin_port` has the port in network
-- byte order, so this is what a little-endian machine reads there; it is also what `ntohs` does.
unfoldable pub swapped : ℕ → ℕ
swapped n = n % 256 * 256 + n / 256 % 256

-- if (port != 0) fprintf(stream, "-%u", port);
unfoldable pub with_port : Bytes → ℕ → Bytes
with_port text port = text ++ (if ltb 0 port then b'-' ∷ decimal port else [])

-- The test of what `inet_ntop` brings (`none` for NULL); `invalid` is what follows NULL.
unfoldable pub shown : Run Bytes → ℕ → Option Bytes → Run Bytes
unfolding with_port
shown invalid port none = invalid
shown invalid port (some text) = done (with_port text port)

-- printf("%s:%d", buf, port), or an error.
unfoldable pub shown_info : ℕ → Option Bytes → Bytes
shown_info port none = codes "[address parse error]" ++ newline ∷ []
shown_info port (some text) = text ++ b':' ∷ decimal port

-- `inet_ntop` is that of AF_INET6 if the Boolean is true, of AF_INET otherwise.
module _ (inet_ntop : Bool → Bytes → Option Bytes) where
  -- PrintSocketAddress of ch05/VoteServer/src/Utils.c.
  unfoldable pub print_socket_address : SocketAddress → Run Bytes
  unfolding shown swapped
  print_socket_address (inet a port) =
      shown (done (codes "[invalid address]")) (swapped port) (inet_ntop false a)
  print_socket_address (inet6 a port) =
      shown (done (codes "[invalid address]")) (swapped port) (inet_ntop true a)
  print_socket_address unknown = done (codes "[unknown type]")

  -- That of ch06/UDPEchoServer-SIGIO.c exits on an invalid address.
  unfoldable pub print_or_exit : SocketAddress → Run Bytes
  unfolding shown swapped
  print_or_exit (inet a port) = shown (exit_failure []) (swapped port) (inet_ntop false a)
  print_or_exit (inet6 a port) = shown (exit_failure []) (swapped port) (inet_ntop true a)
  print_or_exit unknown = done (codes "[unknown type]")

  -- print_socket_address of ch03/3-1/src/PrintSocketAddress.c calls `ntohs`.
  unfoldable pub print_host_order : SocketAddress → Run Bytes
  unfolding shown swapped
  print_host_order (inet a port) =
      shown (done (codes "[invalid address]")) (swapped (swapped port)) (inet_ntop false a)
  print_host_order (inet6 a port) =
      shown (done (codes "[invalid address]")) (swapped (swapped port)) (inet_ntop true a)
  print_host_order unknown = done (codes "[unknown type]")

  -- print_addr_info: behind the default case it goes on with a pointer that was never set.
  unfoldable pub print_addr_info : SocketAddress → Run Bytes
  unfolding shown_info swapped
  print_addr_info (inet a port) = done (shown_info (swapped port) (inet_ntop false a))
  print_addr_info (inet6 a port) = done (shown_info (swapped port) (inet_ntop true a))
  print_addr_info unknown = undefined
