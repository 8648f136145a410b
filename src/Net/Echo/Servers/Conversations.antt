-- ===== src/Net/Echo/Servers/Conversations.antt =====
-- What the one-by-one echo servers have done when they come to wait for the next client.
use socket_programming_c.Prelude.{
  ℕ, ◌≡◌, sym, ap, ◌∙◌, true, List, [], ◌∷◌, ◌++◌, append_assoc, append-nil, Option, none, some,
  arith, Bytes, codes, ◌==◌,
}
use mathlib.Core.Path.{subst}
use socket_programming_c.Exits.{
  Run, done, exit_with_system_msg, exit_with_user_msg, ◌>>=◌, >>=-eq-done, guard-eq-done,
}
use socket_programming_c.Net.Setup.{Sockets, State, setup_server_socket}
use socket_programming_c.Net.Setup.Ledger.{Open}
use socket_programming_c.Net.Setup.Servers.{Listens, ServerSocket, setup_server_socket-ServerSocket}
use socket_programming_c.Net.Echo.{Peer, handle_client, echo}
use socket_programming_c.Net.Echo.Faithful.{
  said, Intact, SendsAll, handle_client-done, handle_client-all, echo-handle_client,
}
use socket_programming_c.Net.Echo.Servers.{
  Served, conversation, accept_loop, Listening, main_ipv4, listener_or_exit, main_3_2_2,
}

-- Every client was accepted, was sent what it had said, and was closed, one after the other.
abbrev pub conversations : List (Option Peer) → List Served
conversations [] = []
conversations (none ∷ clients) = []
conversations (some p ∷ clients) = conversation p (said p.received) ++ conversations clients

-- `accept` never failed.
abbrev pub AllCame : List (Option Peer) → Type 0
AllCame [] = Unit
AllCame (none ∷ clients) = ⊥
AllCame (some p ∷ clients) = AllCame clients

accept_loop-done :
    (handle : Peer → Run Bytes) (reason : Bytes)
    → ((p : Peer) (out : Bytes) → handle p ≡ done out → out ≡ said p.received)
    → (clients : List (Option Peer)) (log all : List Served)
    → accept_loop handle reason clients log ≡ done all
    → AllCame clients × (all ≡ log ++ conversations clients)
unfolding accept_loop exit_with_system_msg
accept_loop-done handle reason faithful [] log all h = (tt, rw (append-nil log) (ground (arith, h)))
accept_loop-done handle reason faithful (none ∷ clients) log all h = absurd (cc)
accept_loop-done handle reason faithful (some p ∷ clients) log all h =
    let (out, e, h') =
      >>=-eq-done (handle p) (λ out. accept_loop handle reason clients (log ++ conversation p out))
        h in
    let (came, q) =
      accept_loop-done handle reason faithful clients (log ++ conversation p out) all h' in
    (
      came,
      q
          ∙ append_assoc log (conversation p out) (conversations clients)
          ∙ ap (λ (b : Bytes). log ++ (conversation p b ++ conversations clients))
              (faithful p out e),
    )

listener_or_exit-done :
    (msg detail : Bytes) (found : Option ℕ × State) (st : State)
    → ServerSocket found
    → listener_or_exit msg detail found ≡ done st
    → (fd : ℕ) × Listens fd st.log
unfolding exit_with_user_msg
listener_or_exit-done msg detail (none, st') st s h = absurd (cc)
listener_or_exit-done msg detail (some fd, st') st s h =
    let e : st' ≡ st = ground (arith, h) in (fd, subst (λ (x : State). Listens fd x.log) e s)

-- With nothing open before: if main of ch03/3-2-2 has come to wait for the next client, then it
-- was given one argument, it has a socket that is bound and listens, and no other that it set up
-- is open; every client so far was accepted, was sent exactly what it had said until it hung up,
-- and was closed, one after the other.
pub main_3_2_2-done :
    {A : Type 0} (sys : Sockets A) (argc : ℕ) (list : List A) (st : State) (reason : Bytes)
    (clients : List (Option Peer)) (st' : State) (log : List Served)
    → Open [] st.log
    → main_3_2_2 sys argc list st reason clients ≡ done (st', log)
    → (argc ≡ 2) × ((fd : ℕ) × Listens fd st'.log) × AllCame clients × (log ≡ conversations clients)
unfolding main_3_2_2
main_3_2_2-done sys argc list st reason clients st' log o h =
    let (two, h1) = guard-eq-done (argc == 2) _ _ _ h in
    let (st1, found, h2) =
      >>=-eq-done
        (listener_or_exit (codes "setup_server_socket()") (codes "fail to setup socket")
          (setup_server_socket sys list st))
        (λ (s : State).
          accept_loop handle_client reason clients [] >>= λ (l : List Served). done (s, l))
        h1 in
    let (log1, served, h3) =
      >>=-eq-done (accept_loop handle_client reason clients []) (λ (l : List Served). done (st1, l))
        h2 in
    let same : ◌≡◌ {A = State × List Served} (st1, log1) (st', log) = ground (arith, h3) in
    let ready =
      listener_or_exit-done _ _ (setup_server_socket sys list st) st1
        (setup_server_socket-ServerSocket sys list st o) found in
    let (came, all) =
      accept_loop-done handle_client reason (λ p out e. (handle_client-done p out e).1) clients []
        log1 served in
    (
      ground (arith, two),
      subst (λ (q : State × List Served). (fd : ℕ) × Listens fd q.0.log) same ready,
      came,
      subst (λ (q : State × List Served). q.1 ≡ conversations clients) same all,
    )

-- Every client can be read until it hangs up, and every send to it sends everything.
abbrev pub AllTalk : List (Option Peer) → Type 0
AllTalk [] = Unit
AllTalk (none ∷ clients) = ⊥
AllTalk (some p ∷ clients) = (SendsAll p × Intact p.received) × AllTalk clients

accept_loop-all :
    (reason : Bytes) (clients : List (Option Peer)) (log : List Served)
    → AllTalk clients
    → accept_loop echo reason clients log ≡ done (log ++ conversations clients)
unfolding accept_loop
accept_loop-all reason [] log t = ap done (sym (append-nil log))
accept_loop-all reason (none ∷ clients) log t = absurd t
accept_loop-all reason (some p ∷ clients) log ((s, i), t) =
    rw (echo-handle_client p, handle_client-all p s i)
      (accept_loop-all reason clients (log ++ conversation p (said p.received)) t
        ∙ ap done (append_assoc log (conversation p (said p.received)) (conversations clients)))

-- If main of ch02/IPv4_TCP/server has one argument, its socket can be set up, and no call on a
-- connection fails or sends less than everything, then it serves every client: it accepts it,
-- sends it what it has said, and closes it.
pub main_ipv4-all :
    (l : Listening) (fd : ℕ) (clients : List (Option Peer))
    → l.socket ≡ some fd
    → l.bind ≡ true
    → l.listen ≡ true
    → AllTalk clients
    → main_ipv4 2 l clients ≡ done (conversations clients)
unfolding main_ipv4
main_ipv4-all l fd clients s b n t = rw (s, b, n) (accept_loop-all l.reason clients [] t)
