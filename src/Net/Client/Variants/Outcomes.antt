-- ===== src/Net/Client/Variants/Outcomes.antt =====
-- What the other echo clients print, and how they fail.
use socket_programming_c.Prelude.{
  ℕ, suc, zero, ◌+◌, ◌<◌, ◌≡◌, refl, sym, ap, ◌∙◌, Bool, true, false, List, [], ◌∷◌, ◌++◌,
  append_assoc, append-nil, Option, some, arith, Bytes, codes, length, length-append, ltb, lt→ltb,
  ◌==◌, if◌then◌else◌, newline,
}
use socket_programming_c.Calls.{Received, failed, hung_up, bytes}
use socket_programming_c.Exits.{done, exit_with_system_msg}
use socket_programming_c.Net.Setup.{Sockets, State, setup_client}
use socket_programming_c.Net.Setup.Clients.{Unreachable, Closed, setup_client-Closed}
use socket_programming_c.Net.Echo.Faithful.{said, Intact}
use socket_programming_c.Net.Client.{receive, receive_unchecked, parsed, Calls}
use socket_programming_c.Net.Client.Printed.{Readable, text_of-id, receive-all}
use socket_programming_c.Net.Client.Variants.{
  main_ipv6_client, main_2_2_client, exercise9, print_connection_info, checked_echo,
  main_3_2_client, behind_setup,
}

receive_unchecked-all :
    (reason : Bytes) (want fuel total : ℕ) (out : Bytes) (l : List Received)
    → Intact l
    → Readable l
    → length l < fuel
    → total + length (said l) ≡ want
    → receive_unchecked reason want fuel total out l ≡ done (out ++ said l)
unfolding receive_unchecked
receive_unchecked-all reason want zero total out l i r f h = elim f [ ]
receive_unchecked-all reason want (suc fuel) total out [] i r f h =
    let over : ltb total want ≡ false = ground arith in rw over (ap done (sym (append-nil out)))
receive_unchecked-all reason want (suc fuel) total out (failed ∷ more) i r f h = absurd i
receive_unchecked-all reason want (suc fuel) total out (hung_up ∷ more) i r f h =
    let over : ltb total want ≡ false = ground arith in rw over (ap done (sym (append-nil out)))
receive_unchecked-all reason want (suc fuel) total out (bytes c buf ∷ more) i ((n, z), r) f h =
    let count : length ((c ∷ buf) ++ said more) ≡ length (c ∷ buf) + length (said more) =
      length-append (c ∷ buf) (said more) in
    let missing : ltb total want ≡ true = lt→ltb _ _ (omega arith) in
    let room : ltb (length (c ∷ buf)) 100 ≡ true = lt→ltb _ _ n in
    rw (missing, room, text_of-id (c ∷ buf) z)
      (receive_unchecked-all reason want fuel (total + length (c ∷ buf)) (out ++ c ∷ buf) more i r
          (omega arith) (omega arith)
        ∙ ap done (append_assoc out (c ∷ buf) (said more)))

-- The calls before the echo succeed.
abbrev pub Reached : Calls → Bytes → Type 0
Reached k echo_str =
    ((fd : ℕ) × (k.socket ≡ some fd))
    × (k.inet_pton ≡ parsed)
    × (k.connect ≡ true)
    × (k.send echo_str ≡ some (length echo_str))

-- What was sent comes back, in chunks below 100 bytes without NUL.
abbrev pub Returned : List Received → Bytes → Type 0
Returned l echo_str = Intact l × Readable l × (said l ≡ echo_str)

-- If the calls of main of ch02/IPv6_TCP/client succeed, and what it sent comes back in chunks
-- below 100 bytes without NUL, then one round more than there are chunks is enough, and it
-- prints that and a newline.
pub main_ipv6_client-all :
    (k : Calls) (fuel : ℕ) (echo_str : Bytes)
    → Reached k echo_str
    → Returned k.received echo_str
    → length k.received < fuel
    → main_ipv6_client k fuel echo_str 3 ≡ done (echo_str ++ newline ∷ [])
unfolding main_ipv6_client
main_ipv6_client-all k fuel echo_str ((fd, s), a, c, n) (i, r, e) f =
    let full : (length echo_str == length echo_str) ≡ true = ground arith in
    let back : receive_unchecked k.reason (length echo_str) fuel 0 [] k.received ≡ done echo_str =
      receive_unchecked-all k.reason (length echo_str) fuel 0 [] k.received i r f
        (ground (arith, e))
      ∙ ap done e in
    rw (s, a, c, n, full, back) refl

checked_echo-all :
    (k : Calls) (echo_str : Bytes)
    → k.send echo_str ≡ some (length echo_str)
    → Returned k.received echo_str
    → checked_echo k echo_str (k.send echo_str)
      ≡ done (codes "Received: " ++ (echo_str ++ newline ∷ []))
checked_echo-all k echo_str n (i, r, e) =
    let full : (length echo_str == length echo_str) ≡ true = ground arith in
    let back : receive k.reason (length echo_str) 0 [] k.received ≡ done echo_str =
      receive-all k.reason (length echo_str) 0 [] k.received i r (ground (arith, e)) ∙ ap done e in
    rw (n, full, back) refl

-- main of ch02-2/IPv4/client binds the socket once it is connected: if all else succeeds it
-- prints what it sent when `bind` succeeds, and exits when it does not.
pub main_2_2_client-all :
    (k : Calls) (echo_str : Bytes) (bind : Bool)
    → Reached k echo_str
    → Returned k.received echo_str
    → main_2_2_client k echo_str 3 bind true true ≡ (
        if bind
        then done (codes "Received: " ++ (echo_str ++ newline ∷ []))
        else exit_with_system_msg (codes "bind() failed") k.reason)
unfolding main_2_2_client exercise9 print_connection_info
main_2_2_client-all k echo_str true ((fd, s), a, c, n) back =
    simp (s, a, c) (checked_echo-all k echo_str n back)
main_2_2_client-all k echo_str false ((fd, s), a, c, n) back = simp (s, a, c) refl

behind_setup-some :
    (k : Calls) (echo_str : Bytes) (peer local : Bool) (o : Option ℕ) (fd : ℕ)
    → o ≡ some fd
    → behind_setup k echo_str peer local o
      ≡ print_connection_info k echo_str peer local (checked_echo k echo_str (k.send echo_str))
behind_setup-some k echo_str peer local o fd e = rw e refl

-- If every socket is created and no address answers, then main of ch03/3-2/client does not say
-- that it is unable to connect: it goes on with a descriptor that is closed.
pub main_3_2_client-Closed :
    {A : Type 0} (sys : Sockets A) (a : A) (list : List A) (st : State) (k : Calls)
    (echo_str : Bytes) (peer local : Bool)
    → Unreachable sys
    → Closed (setup_client sys (a ∷ list) st)
      × (main_3_2_client k echo_str sys (a ∷ list) st 3 peer local
          ≡ print_connection_info k echo_str peer local (checked_echo k echo_str (k.send echo_str)))
unfolding main_3_2_client
main_3_2_client-Closed sys a list st k echo_str peer local u =
    let shut = setup_client-Closed sys a list st u in
    let (fd, before, e, l) = shut in
    (shut, behind_setup-some k echo_str peer local (setup_client sys (a ∷ list) st).0 fd e)
