-- ===== src/Net/Client/Variants.antt =====
-- The other echo clients: main of Sockets_in_C/ch02/IPv6_TCP/client, of ch02/IPv6_TCP_V2/client,
-- which waits for a greeting, of ch02-2/IPv4/client and of ch03/3-2/client.
pub mod Outcomes
use socket_programming_c.Prelude.{
  ℕ, suc, zero, ◌+◌, Bool, true, false, List, [], ◌∷◌, ◌++◌, Option, none, some, Bytes, codes,
  length, ltb, leb, ◌==◌, ◌||◌, ◌&&◌, if◌then◌else◌, newline,
}
use socket_programming_c.Calls.{Received, failed, hung_up, bytes}
use socket_programming_c.Exits.{
  Run, done, undefined, out_of_fuel, exit_with_system_msg, exit_with_user_msg, ◌>>=◌,
}
use socket_programming_c.Net.Setup.{Sockets, State, setup_client}
use socket_programming_c.Net.Client.{
  text_of, receive, receive_unchecked, Parsed, invalid, unsupported, parsed, Calls,
}

abbrev pub head_or_nul : Bytes → ℕ
head_or_nul [] = 0
head_or_nul (c ∷ s) = c

abbrev pub tail_of : Bytes → Bytes
tail_of [] = []
tail_of (c ∷ s) = s

-- strncmp(a, b, n) == 0
unfoldable pub strn_eq : ℕ → Bytes → Bytes → Bool
strn_eq zero a b = true
strn_eq (suc n) a b =
    (head_or_nul a == head_or_nul b) && ((head_or_nul a == 0) || strn_eq n (tail_of a) (tail_of b))

abbrev pub greeting : Bytes
greeting = codes "hello"

module _ (k : Calls) where
  -- What follows the loop of receive_greetings, with `buf` the bytes received.
  abbrev pub greeting_test : Bytes → List Received → Run (Bytes × List Received)
  greeting_test buf l =
      if strn_eq (length buf) greeting buf
      then done (text_of buf ++ newline ∷ [], l)
      else exit_with_user_msg (codes "invalid greeting msg") (text_of buf)

  -- buf[total_bytes_rcvd] = '\0' lies in the buffer.
  abbrev pub stored : Bytes → Run (Bytes × List Received) → Run (Bytes × List Received)
  stored buf next = if ltb (length buf) 100 then next else undefined

  -- receive_greetings, with `buf` received so far: what it prints, and what is left to receive.
  unfoldable pub receive_greetings : ℕ → Bytes → List Received → Run (Bytes × List Received)
  receive_greetings zero buf l = out_of_fuel
  receive_greetings (suc fuel) buf [] =
      let next = receive_greetings fuel buf [] in
      if ltb (length buf) (length greeting) then next else greeting_test buf []
  receive_greetings (suc fuel) buf (failed ∷ more) =
      if ltb (length buf) (length greeting)
      then exit_with_system_msg (codes "recv() failed") k.reason
      else greeting_test buf (failed ∷ more)
  receive_greetings (suc fuel) buf (hung_up ∷ more) =
      let next = receive_greetings fuel buf [] in
      if ltb (length buf) (length greeting) then next else greeting_test buf (hung_up ∷ more)
  receive_greetings (suc fuel) buf (bytes c chunk ∷ more) =
      let next = receive_greetings fuel (buf ++ c ∷ chunk) more in
      if ltb (length buf) (length greeting)
      then stored (buf ++ c ∷ chunk) next
      else greeting_test buf (bytes c chunk ∷ more)

  module _ (fuel : ℕ) (echo_str : Bytes) where
    abbrev pub unchecked_echo : Option ℕ → List Received → Run Bytes
    unchecked_echo none l = exit_with_system_msg (codes "send() failed") k.reason
    unchecked_echo (some sent) l =
        if sent == length echo_str
        then (do
          out ← receive_unchecked k.reason (length echo_str) fuel 0 [] l
          done (out ++ newline ∷ []))
        else exit_with_user_msg (codes "send()") (codes "Unexpected number of bytes sent")

    -- The test of `inet_pton` and of `connect`.
    abbrev pub connected_or_exit : Parsed → Run Bytes → Run Bytes
    connected_or_exit invalid next =
        exit_with_user_msg (codes "inet_pton()") (codes "invalid server address string")
    connected_or_exit unsupported next = exit_with_system_msg (codes "inet_pton() failed") k.reason
    connected_or_exit parsed next =
        if k.connect then next else exit_with_system_msg (codes "connect() failed") k.reason

    abbrev pub socket_or_exit : Option ℕ → Run Bytes → Run Bytes
    socket_or_exit none next = exit_with_system_msg (codes "socket() failed") k.reason
    socket_or_exit (some fd) next = next

    -- main of ch02/IPv6_TCP/client.
    unfoldable pub main_ipv6_client : ℕ → Run Bytes
    main_ipv6_client argc =
        if (argc == 3) || (argc == 4)
        then socket_or_exit k.socket
            (connected_or_exit k.inet_pton (unchecked_echo (k.send echo_str) k.received))
        else exit_with_user_msg (codes "Parameter(s)")
            (codes "<Server Address> <Echo String> [<Server Port>]")

    abbrev pub name_or_exit : Bytes → Bool → Run Bytes → Run Bytes
    name_or_exit msg ok next = if ok then next else exit_with_system_msg msg k.reason

    -- main of ch02/IPv6_TCP_V2/client, from the greeting on.
    unfoldable pub greeted_echo : Run Bytes
    greeted_echo = do
      (shown, l) ← receive_greetings fuel [] k.received
      out ← unchecked_echo (k.send echo_str) l
      done (shown ++ out)

    -- main of ch02/IPv6_TCP_V2/client; `peer` and `local` say whether the names are to be had.
    unfoldable pub main_ipv6_v2_client : ℕ → Bool → Bool → Run Bytes
    main_ipv6_v2_client argc peer local =
        if (argc == 3) || (argc == 4)
        then socket_or_exit k.socket (
            connected_or_exit k.inet_pton (
              name_or_exit (codes "getpeername() failed") peer
                (name_or_exit (codes "getsockname() failed") local greeted_echo)))
        else exit_with_user_msg (codes "Parameter(s)")
            (codes "<Server Address> <Echo String> [<Server Port>]")

  module _ (echo_str : Bytes) where
    abbrev pub checked_echo : Option ℕ → Run Bytes
    checked_echo none = exit_with_system_msg (codes "send() failed") k.reason
    checked_echo (some sent) =
        if sent == length echo_str
        then (do
          out ← receive k.reason (length echo_str) 0 [] k.received
          done (codes "Received: " ++ (out ++ newline ∷ [])))
        else exit_with_user_msg (codes "send()") (codes "sent unexpected number of bytes")

    abbrev pub address_or_exit : Parsed → Run Bytes → Run Bytes
    address_or_exit invalid next =
        exit_with_user_msg (codes "inet_pton() failed") (codes "invalid address string")
    address_or_exit unsupported next = exit_with_system_msg (codes "inet_pton() failed") k.reason
    address_or_exit parsed next =
        if k.connect then next else exit_with_system_msg (codes "connect() failed") k.reason

    -- print_connection_info, without what it prints.
    unfoldable pub print_connection_info : Bool → Bool → Run Bytes → Run Bytes
    print_connection_info peer local next =
        if peer
        then (if local then next else exit_with_system_msg (codes "getsockname() failed") k.reason)
        else exit_with_system_msg (codes "getpeername() failed") k.reason

    -- exercise9
    unfoldable pub exercise9 : Bool → Run Bytes → Run Bytes
    exercise9 bind next =
        if bind then next else exit_with_system_msg (codes "bind() failed") k.reason

    -- main of ch02-2/IPv4/client.
    unfoldable pub main_2_2_client : ℕ → Bool → Bool → Bool → Run Bytes
    main_2_2_client argc bind peer local =
        if ltb argc 3 || ltb 4 argc
        then exit_with_user_msg (codes "Parameter(s)")
            (codes "<Server Address> <Echo Word> [<Server Port>]")
        else socket_or_exit 0 echo_str k.socket (
            address_or_exit k.inet_pton
              (exercise9 bind (print_connection_info peer local (checked_echo (k.send echo_str)))))

    abbrev pub behind_setup : Bool → Bool → Option ℕ → Run Bytes
    behind_setup peer local none =
        exit_with_user_msg (codes "socket setup failed") (codes "unable to connect")
    behind_setup peer local (some fd) =
        print_connection_info peer local (checked_echo (k.send echo_str))

    -- main of ch03/3-2/client; its setup_tcp_client_socket has the text of SetupClient.
    unfoldable pub main_3_2_client :
        {A : Type 0} → Sockets A → List A → State → ℕ → Bool → Bool → Run Bytes
    main_3_2_client sys list st argc peer local =
        if ltb argc 3 || ltb 4 argc
        then exit_with_user_msg (codes "Parameter(s)")
            (codes "<Server Address> <Echo Word> [<Server Port>]")
        else behind_setup peer local (setup_client sys list st).0
