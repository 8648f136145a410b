-- ===== src/Net/Echo/Variants/Greeted.antt =====
-- What the other one-by-one echo servers have done when they come to wait for the next client.
use socket_programming_c.Prelude.{
  ℕ, ◌+◌, ◌≡◌, refl, sym, ap, ◌∙◌, Bool, true, List, [], ◌∷◌, ◌++◌, append_assoc, append-nil,
  Option, none, some, arith, Bytes, codes, length, ◌==◌,
}
use socket_programming_c.Calls.{Received, failed, hung_up, bytes}
use socket_programming_c.Exits.{done}
use socket_programming_c.Net.Echo.{Peer, echo_rounds, first_round, handle_client_wrong_name}
use socket_programming_c.Net.Echo.Faithful.{said, Intact, SendsAll}
use socket_programming_c.Net.Echo.Servers.{Served, conversation, accept_loop, Listening}
use socket_programming_c.Net.Echo.Servers.Conversations.{conversations, AllTalk}
use socket_programming_c.Net.Echo.Variants.{
  greeting, echo_behind, greet_and_echo, greeting_loop, main_ipv6_v2, main_2_2,
}

echo_rounds-all :
    (p : Peer) (msg : Bytes) (n : ℕ) (out : Bytes) (r : Received) (more : List Received)
    → SendsAll p
    → Intact (r ∷ more)
    → echo_rounds p msg n out r more ≡ done (out ++ said (r ∷ more))
unfolding echo_rounds
echo_rounds-all p msg n out failed more s i = absurd i
echo_rounds-all p msg n out hung_up more s i = ap done (sym (append-nil out))
echo_rounds-all p msg n out (bytes c buf) [] s i =
    let full : (length (c ∷ buf) == length (c ∷ buf)) ≡ true = ground arith in
    rw (s n (c ∷ buf), full) (ap (λ (t : Bytes). done (out ++ t)) (sym (append-nil (c ∷ buf))))
echo_rounds-all p msg n out (bytes c buf) (r ∷ more) s i =
    let full : (length (c ∷ buf) == length (c ∷ buf)) ≡ true = ground arith in
    rw (s n (c ∷ buf), full)
      (echo_rounds-all p msg (n + 1) (out ++ c ∷ buf) r more s i
        ∙ ap done (append_assoc out (c ∷ buf) (said (r ∷ more))))

first_round-all :
    (p : Peer) (msg : Bytes) (l : List Received)
    → SendsAll p
    → Intact l
    → first_round p msg l ≡ done (said l)
first_round-all p msg [] s i = refl
first_round-all p msg (r ∷ more) s i = echo_rounds-all p msg 0 [] r more s i

wrong_name_loop-all :
    (reason : Bytes) (clients : List (Option Peer)) (log : List Served)
    → AllTalk clients
    → accept_loop handle_client_wrong_name reason clients log ≡ done (log ++ conversations clients)
unfolding accept_loop handle_client_wrong_name
wrong_name_loop-all reason [] log t = ap done (sym (append-nil log))
wrong_name_loop-all reason (none ∷ clients) log t = absurd t
wrong_name_loop-all reason (some p ∷ clients) log ((s, i), t) =
    rw (first_round-all p (codes "accept() failed") p.received s i) (
      wrong_name_loop-all reason clients (log ++ conversation p (said p.received)) t
      ∙ ap done (append_assoc log (conversation p (said p.received)) (conversations clients)))

-- If main of ch02-2/IPv4/server has one argument, its socket can be set up, and no call on a
-- connection fails or sends less than everything, then it serves every client: it accepts it,
-- sends it what it has said, and closes it.
pub main_2_2-all :
    (l : Listening) (fd : ℕ) (clients : List (Option Peer))
    → l.socket ≡ some fd
    → l.bind ≡ true
    → l.listen ≡ true
    → AllTalk clients
    → main_2_2 2 l clients ≡ done (conversations clients)
unfolding main_2_2
main_2_2-all l fd clients s b n t = rw (s, b, n) (wrong_name_loop-all l.reason clients [] t)

-- Every client was greeted before it was answered.
abbrev pub greeted_all : List (Option Peer) → List Served
greeted_all [] = []
greeted_all (none ∷ clients) = []
greeted_all (some p ∷ clients) = conversation p (greeting ++ said p.received) ++ greeted_all clients

greet_and_echo-all :
    (p : Peer)
    → SendsAll p
    → Intact p.received
    → greet_and_echo p ≡ done (greeting ++ said p.received)
unfolding greet_and_echo
greet_and_echo-all p s i = rw (s 0 greeting) (behind p.received i)
  where
    behind : (l : List Received) → Intact l → echo_behind p greeting l ≡ done (greeting ++ said l)
    behind [] j = refl
    behind (r ∷ more) j = echo_rounds-all p (codes "send() failed") 1 greeting r more s j

greeting_loop-all :
    (names : ℕ → Bool) (reason : Bytes) (n : ℕ) (clients : List (Option Peer)) (log : List Served)
    → ((m : ℕ) → names m ≡ true)
    → AllTalk clients
    → greeting_loop names reason n clients log ≡ done (log ++ greeted_all clients)
unfolding greeting_loop
greeting_loop-all names reason n [] log ok t = ap done (sym (append-nil log))
greeting_loop-all names reason n (none ∷ clients) log ok t = absurd t
greeting_loop-all names reason n (some p ∷ clients) log ok ((s, i), t) =
    rw (ok n, ok (n + 1), greet_and_echo-all p s i)
      (greeting_loop-all names reason (n + 2) clients
          (log ++ conversation p (greeting ++ said p.received)) ok t
        ∙ ap done
            (append_assoc log (conversation p (greeting ++ said p.received)) (greeted_all clients)))

-- If main of ch02/IPv6_TCP_V2/server has one argument, its socket can be set up, the names of the
-- sockets are to be had, and no call on a connection fails or sends less than everything, then it
-- serves every client: it accepts it, sends it "hello" and what it has said, and closes it.
pub main_ipv6_v2-all :
    (names : ℕ → Bool) (l : Listening) (fd : ℕ) (clients : List (Option Peer))
    → ((m : ℕ) → names m ≡ true)
    → l.socket ≡ some fd
    → l.bind ≡ true
    → l.listen ≡ true
    → AllTalk clients
    → main_ipv6_v2 2 names l clients ≡ done (greeted_all clients)
unfolding main_ipv6_v2
main_ipv6_v2-all names l fd clients ok s b n t =
    rw (s, ok 0, b, ok 1, n) (greeting_loop-all names l.reason 2 clients [] ok t)
