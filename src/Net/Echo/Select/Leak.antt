-- ===== src/Net/Echo/Select/Leak.antt =====
-- Which descriptors main of Sockets_in_C/ch06/TCPEchoServer-Select.c closes.
use mathlib.Core.Path.{subst}
use socket_programming_c.Prelude.{
  ℕ, ◌≡◌, refl, sym, ap, ◌∙◌, Bool, true, false, List, [], ◌∷◌, ◌++◌, append-nil, Option, none,
  some, arith, Bytes, codes, ltb, if◌then◌else◌,
}
use socket_programming_c.Exits.{done, exit_with_system_msg, exit_with_user_msg, >>=-eq-done}
use socket_programming_c.Net.Echo.{Peer, handle_client}
use socket_programming_c.Net.Echo.Servers.{Served, accepted, answered, closed}
use socket_programming_c.Net.Echo.Select.{
  Selected, timed_out, ready, accept_connection, handle_accepted, serve_ports, fd_set, close_all,
  select_loop, main_select,
}

abbrev pub closed_fds : List Served → List ℕ
closed_fds [] = []
closed_fds (accepted fd ∷ log) = closed_fds log
closed_fds (answered fd out ∷ log) = closed_fds log
closed_fds (closed fd ∷ log) = fd ∷ closed_fds log

-- The ports that were set up.
abbrev pub listeners : List (Option ℕ) → List ℕ
listeners [] = []
listeners (none ∷ sockets) = listeners sockets
listeners (some fd ∷ sockets) = fd ∷ listeners sockets

closed_fds-append :
    (log more : List Served) → closed_fds (log ++ more) ≡ closed_fds log ++ closed_fds more
closed_fds-append [] more = refl
closed_fds-append (accepted fd ∷ log) more = closed_fds-append log more
closed_fds-append (answered fd out ∷ log) more = closed_fds-append log more
closed_fds-append (closed fd ∷ log) more = ap (λ (l : List ℕ). fd ∷ l) (closed_fds-append log more)

closed_fds-close_all :
    (sockets : List (Option ℕ)) → closed_fds (close_all sockets) ≡ listeners sockets
closed_fds-close_all [] = refl
closed_fds-close_all (none ∷ sockets) = closed_fds-close_all sockets
closed_fds-close_all (some fd ∷ sockets) =
    ap (λ (l : List ℕ). fd ∷ l) (closed_fds-close_all sockets)

handle_accepted-closed :
    (reason : Bytes) (o : Option Peer) (log log' : List Served)
    → handle_accepted reason o log ≡ done log'
    → closed_fds log' ≡ closed_fds log
unfolding accept_connection exit_with_system_msg
handle_accepted-closed reason none log log' h = absurd (cc)
handle_accepted-closed reason (some p) log log' h =
    let (out, e, h') =
      >>=-eq-done (handle_client p)
        (λ (out : Bytes). done (log ++ accepted p.fd ∷ answered p.fd out ∷ [])) h in
    let same : log ++ accepted p.fd ∷ answered p.fd out ∷ [] ≡ log' = ground (arith, h') in
    subst (λ (l : List Served). closed_fds l ≡ closed_fds log) same
      (closed_fds-append log (accepted p.fd ∷ answered p.fd out ∷ []) ∙ append-nil (closed_fds log))

serve_ports-closed :
    (reason : Bytes) (ports : List (Option (Option Peer))) (log log' : List Served)
    → serve_ports reason ports log ≡ done log'
    → closed_fds log' ≡ closed_fds log
unfolding serve_ports
serve_ports-closed reason [] log log' h =
    let same : log ≡ log' = ground (arith, h) in ap closed_fds (sym same)
serve_ports-closed reason (none ∷ ports) log log' h = serve_ports-closed reason ports log log' h
serve_ports-closed reason (some o ∷ ports) log log' h =
    let (mid, e, h') =
      >>=-eq-done (handle_accepted reason o log) (λ (l : List Served). serve_ports reason ports l)
        h in
    serve_ports-closed reason ports mid log' h' ∙ handle_accepted-closed reason o log mid e

-- What is closed when the loop has ended or waits.
abbrev pub closed_by : Bool → List (Option ℕ) → List ℕ
closed_by true sockets = listeners sockets
closed_by false sockets = []

select_loop-closed :
    (reason : Bytes) (sockets : List (Option ℕ)) (rounds : List Selected) (log : List Served)
    (over : Bool) (all : List Served)
    → select_loop reason sockets rounds log ≡ done (over, all)
    → closed_fds all ≡ closed_fds log ++ closed_by over sockets
unfolding select_loop
select_loop-closed reason sockets [] log over all h =
    let same : ◌≡◌ {A = Bool × List Served} (false, log) (over, all) = ground (arith, h) in
    subst (λ (q : Bool × List Served). closed_fds q.1 ≡ closed_fds log ++ closed_by q.0 sockets)
      same (sym (append-nil (closed_fds log)))
select_loop-closed reason sockets (timed_out ∷ rounds) log over all h =
    let (set, e, h') =
      >>=-eq-done (fd_set sockets (0 ∷ [])) (λ (u : List ℕ). select_loop reason sockets rounds log)
        h in
    select_loop-closed reason sockets rounds log over all h'
select_loop-closed reason sockets (ready stdin ports ∷ rounds) log over all h =
    let (set, e, h1) = >>=-eq-done (fd_set sockets (0 ∷ [])) _ h in
    let (mid, f, h2) = >>=-eq-done (serve_ports reason ports log) _ h1 in
    by_stdin mid f stdin h2 (λ q. select_loop-closed reason sockets rounds mid over all q)
  where
    by_stdin :
        (mid : List Served)
        → serve_ports reason ports log ≡ done mid
        → (b : Bool)
        → (if b
            then done (true, mid ++ close_all sockets)
            else select_loop reason sockets rounds mid)
          ≡ done (over, all)
        → (select_loop reason sockets rounds mid ≡ done (over, all)
            → closed_fds all ≡ closed_fds mid ++ closed_by over sockets)
        → closed_fds all ≡ closed_fds log ++ closed_by over sockets
    by_stdin mid f false q k =
        k q
        ∙ ap (λ (l : List ℕ). l ++ closed_by over sockets)
            (serve_ports-closed reason ports log mid f)
    by_stdin mid f true q k =
        let same : ◌≡◌ {A = Bool × List Served} (true, mid ++ close_all sockets) (over, all) =
          ground (arith, q) in
        subst (λ (r : Bool × List Served). closed_fds r.1 ≡ closed_fds log ++ closed_by r.0 sockets)
          same
          (closed_fds-append mid (close_all sockets)
            ∙ ap (λ (l : List ℕ). l ++ closed_fds (close_all sockets))
                (serve_ports-closed reason ports log mid f)
            ∙ ap (λ (l : List ℕ). closed_fds log ++ l) (closed_fds-close_all sockets))

-- Whenever the server on several ports waits for a round it has closed nothing, however many
-- clients it has accepted; and when it has ended it has closed its listening sockets only.
pub main_select-closed :
    (argc : ℕ) (reason : Bytes) (sockets : List (Option ℕ)) (rounds : List Selected) (over : Bool)
    (all : List Served)
    → main_select argc reason sockets rounds ≡ done (over, all)
    → closed_fds all ≡ closed_by over sockets
unfolding main_select exit_with_user_msg
main_select-closed argc reason sockets rounds over all h = by_test (ltb argc 3) h
  where
    by_test :
        (b : Bool)
        → (if b
            then exit_with_user_msg
                (codes "Parameter(s)")
                (codes "<Timeout (secs.)> <Port/Service> ...")
            else select_loop reason sockets rounds [])
          ≡ done (over, all)
        → closed_fds all ≡ closed_by over sockets
    by_test true q = absurd (cc)
    by_test false q = select_loop-closed reason sockets rounds [] over all q
