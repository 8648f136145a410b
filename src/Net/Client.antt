-- ===== src/Net/Client.antt =====
-- The echo clients: main of Sockets_in_C/ch02/IPv4_TCP/client, and the loop of the client of
-- ch02/IPv6_TCP_V2, which does not look for the end of the stream.
pub mod Printed
pub mod Endless
pub mod Variants
pub mod Examples
use socket_programming_c.Prelude.{
  ℕ, suc, zero, ◌+◌, Bool, true, false, List, [], ◌∷◌, ◌++◌, Option, none, some, Bytes, codes,
  length, ltb, ◌==◌, ◌||◌, if◌then◌else◌, newline,
}
use socket_programming_c.Calls.{Received, failed, hung_up, bytes}
use socket_programming_c.Exits.{
  Run, done, undefined, out_of_fuel, exit_with_system_msg, exit_with_user_msg, ◌>>=◌,
}

-- What `fputs` prints: the bytes before the first NUL.
unfoldable pub text_of : Bytes → Bytes
text_of [] = []
text_of (c ∷ rest) = if c == 0 then [] else c ∷ text_of rest

abbrev pub buf_size : ℕ
buf_size = 100

-- buf[n] = '\0'; fputs(buf, stdout): what was printed by then, and what follows.
abbrev pub print_chunk : Bytes → Run Bytes → Run Bytes
print_chunk chunk next = if ltb (length chunk) buf_size then next else undefined

module _ (reason : Bytes) (want : ℕ) where
  -- The loop that receives, behind `total` bytes of which `out` was printed.
  unfoldable pub receive : ℕ → Bytes → List Received → Run Bytes
  receive total out [] =
      if ltb total want
      then exit_with_user_msg (codes "recv()") (codes "connection closed prematurely")
      else done out
  receive total out (failed ∷ more) =
      if ltb total want then exit_with_system_msg (codes "recv() failed") reason else done out
  receive total out (hung_up ∷ more) =
      if ltb total want
      then exit_with_user_msg (codes "recv()") (codes "connection closed prematurely")
      else done out
  receive total out (bytes c buf ∷ more) =
      let next = receive (total + length (c ∷ buf)) (out ++ text_of (c ∷ buf)) more in
      if ltb total want then print_chunk (c ∷ buf) next else done out

  -- The loop of ch02/IPv6_TCP_V2: a result 0 of `recv` is added like any other.
  unfoldable pub receive_unchecked : ℕ → ℕ → Bytes → List Received → Run Bytes
  receive_unchecked zero total out l = out_of_fuel
  receive_unchecked (suc fuel) total out [] =
      let next = receive_unchecked fuel total out [] in if ltb total want then next else done out
  receive_unchecked (suc fuel) total out (failed ∷ more) =
      if ltb total want then exit_with_system_msg (codes "recv() failed") reason else done out
  receive_unchecked (suc fuel) total out (hung_up ∷ more) =
      let next = receive_unchecked fuel total out [] in if ltb total want then next else done out
  receive_unchecked (suc fuel) total out (bytes c buf ∷ more) =
      let next =
        receive_unchecked fuel (total + length (c ∷ buf)) (out ++ text_of (c ∷ buf)) more in
      if ltb total want then print_chunk (c ∷ buf) next else done out

-- What `inet_pton` makes of an address.
pub data Parsed : Type 0 where
  invalid unsupported parsed : Parsed

-- The results of the calls of main before it receives.
pub record Calls : Type 0 where
  pub socket : Option ℕ
  pub inet_pton : Parsed
  pub connect : Bool
  pub send : Bytes → Option ℕ
  pub received : List Received
  pub reason : Bytes

module _ (k : Calls) (echo_str : Bytes) where
  abbrev pub after_send : Option ℕ → Run Bytes
  after_send none = exit_with_system_msg (codes "send() failed") k.reason
  after_send (some sent) =
      if sent == length echo_str
      then (do out ← receive k.reason (length echo_str) 0 [] k.received; done (out ++ newline ∷ []))
      else exit_with_user_msg (codes "send()") (codes "Unexpected number of bytes sent")

  abbrev pub after_inet_pton : Parsed → Run Bytes
  after_inet_pton invalid =
      exit_with_user_msg (codes "inet_pton()") (codes "invalid server address string")
  after_inet_pton unsupported = exit_with_system_msg (codes "inet_pton() failed") k.reason
  after_inet_pton parsed =
      if k.connect
      then after_send (k.send echo_str)
      else exit_with_system_msg (codes "connect() failed") k.reason

  abbrev pub after_socket : Option ℕ → Run Bytes
  after_socket none = exit_with_system_msg (codes "sock() failed") k.reason
  after_socket (some fd) = after_inet_pton k.inet_pton

-- main of ch02/IPv4_TCP/client: what it prints.
unfoldable pub main_client : ℕ → Bytes → Calls → Run Bytes
main_client argc echo_str k =
    if (argc == 3) || (argc == 4)
    then after_socket k echo_str k.socket
    else exit_with_user_msg (codes "Parameter(s)")
        (codes "<Server Address> <Echo Word> [<Server Port>]")
