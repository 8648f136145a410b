-- ===== src/Net/Tcp/Status.antt =====
-- TCP_Echo_Server and TCP_Echo_Client differ from the other echo programs in the status with
-- which they exit, and that status is wrong.
use socket_programming_c.Prelude.{
  ℕ, ◌+◌, ◌≡◌, refl, ap, ◌∙◌, Bool, true, false, List, [], ◌∷◌, ◌++◌, Option, none, some, Bytes,
  codes, newline, length, ◌==◌, if◌then◌else◌,
}
use socket_programming_c.Calls.{Received, failed, hung_up, bytes}
use socket_programming_c.Exits.{
  Run, done, exit_failure, exit_success, undefined, out_of_fuel, exit_with_system_msg,
  exit_with_user_msg, ◌>>=◌,
}
use socket_programming_c.Net.Echo.{Peer, check_sent, echo_rounds, first_round, echo}
use socket_programming_c.Net.Echo.Faithful.{said, handle_client-all, echo-handle_client}
use socket_programming_c.Net.Echo.Servers.Conversations.{AllTalk}
use socket_programming_c.Net.Echo.Servers.{
  Served, conversation, accept_loop, Listening, main_ipv4, socket_test,
}
use socket_programming_c.Net.Tcp.{
  die_with_user_message, die_with_system_message, sent_or_die, tcp_rounds, first_tcp_round,
  handle_tcp_client, accept_or_die, server_socket_or_die, main_tcp_server,
}

-- A run with every exit taken for a failure.
abbrev pub as_failure {ℓ} : {A : Type ℓ} → Run A → Run A
as_failure (done a) = done a
as_failure (exit_failure t) = exit_failure t
as_failure (exit_success t) = exit_failure t
as_failure undefined = undefined
as_failure out_of_fuel = out_of_fuel

pub as_failure-bind {ℓ κ} :
    {A : Type ℓ} {B : Type κ} (m m' : Run A) (f f' : A → Run B)
    → as_failure m ≡ m'
    → ((a : A) → as_failure (f a) ≡ f' a)
    → as_failure (m >>= f) ≡ (m' >>= f')
as_failure-bind (done a) m' f f' e k = k a ∙ ap (λ n. n >>= f') e
as_failure-bind (exit_failure t) m' f f' e k = ap (λ n. n >>= f') e
as_failure-bind (exit_success t) m' f f' e k = ap (λ n. n >>= f') e
as_failure-bind undefined m' f f' e k = ap (λ n. n >>= f') e
as_failure-bind out_of_fuel m' f f' e k = ap (λ n. n >>= f') e

pub as_failure-if {ℓ} :
    {A : Type ℓ} (b : Bool) (m n m' n' : Run A)
    → as_failure m ≡ m'
    → as_failure n ≡ n'
    → as_failure (if b then m else n) ≡ (if b then m' else n')
as_failure-if true m n m' n' e f = e
as_failure-if false m n m' n' e f = f

pub system_status {ℓ} :
    {A : Type ℓ} (msg reason : Bytes)
    → as_failure (die_with_system_message {A = A} msg reason) ≡ exit_with_system_msg msg reason
unfolding die_with_system_message exit_with_system_msg
system_status msg reason = refl

pub user_status {ℓ} :
    {A : Type ℓ} (msg detail : Bytes)
    → as_failure (die_with_user_message {A = A} msg detail) ≡ exit_with_user_msg msg detail
unfolding die_with_user_message exit_with_user_msg
user_status msg detail = refl

module _ (p : Peer) where
  sent_status :
      (n : ℕ) (chunk : Bytes) (o : Option ℕ) (next next' : Run Bytes)
      → as_failure next ≡ next'
      → as_failure (sent_or_die p n chunk o next)
        ≡ check_sent p (codes "send() failed") n chunk o next'
  sent_status n chunk none next next' e = system_status (codes "send() failed") (p.reason n)
  sent_status n chunk (some sent) next next' e =
      as_failure-if (sent == length chunk) next _ next' _ e
        (user_status (codes "send()") (codes "sent unexpected number of bytes"))

  rounds_status :
      (n : ℕ) (out : Bytes) (r : Received) (more : List Received)
      → as_failure (tcp_rounds p n out r more) ≡ echo_rounds p (codes "send() failed") n out r more
  unfolding tcp_rounds echo_rounds
  rounds_status n out failed more = system_status (codes "recv() failed") (p.reason n)
  rounds_status n out hung_up more = refl
  rounds_status n out (bytes c buf) [] = sent_status n (c ∷ buf) (p.send n (c ∷ buf)) _ _ refl
  rounds_status n out (bytes c buf) (r ∷ more) =
      sent_status n (c ∷ buf) (p.send n (c ∷ buf)) _ _
        (rounds_status (n + 1) (out ++ c ∷ buf) r more)

  first_status :
      (l : List Received)
      → as_failure (first_tcp_round p l) ≡ first_round p (codes "send() failed") l
  first_status [] = refl
  first_status (r ∷ more) = rounds_status 0 [] r more

  handle_status : as_failure (handle_tcp_client p) ≡ echo p
  unfolding handle_tcp_client echo
  handle_status = first_status p.received

accept_status :
    (reason : Bytes) (clients : List (Option Peer)) (log : List Served)
    → as_failure (accept_or_die reason clients log) ≡ accept_loop echo reason clients log
unfolding accept_or_die accept_loop
accept_status reason [] log = refl
accept_status reason (none ∷ clients) log = system_status (codes "accept() failed") reason
accept_status reason (some p ∷ clients) log =
    as_failure-bind (handle_tcp_client p) (echo p) _ _ (handle_status p)
      (λ out. accept_status reason clients (log ++ conversation p out))

socket_status :
    (l : Listening) (o : Option ℕ) (next next' : Run (List Served))
    → as_failure next ≡ next'
    → as_failure (server_socket_or_die l o next) ≡ socket_test l o next'
socket_status l none next next' e = system_status (codes "socket() failed") l.reason
socket_status l (some fd) next next' e =
    as_failure-if l.bind _ _ _ _
      (as_failure-if l.listen _ _ _ _ e (system_status (codes "listen() failed") l.reason))
      (system_status (codes "bind() failed") l.reason)

-- main of TCP_Echo_Server does what main of IPv4_TCP/server does, but for the status with which
-- it exits.
pub main_tcp_server-main_ipv4 :
    (ac : ℕ) (l : Listening) (clients : List (Option Peer))
    → as_failure (main_tcp_server ac l clients) ≡ main_ipv4 ac l clients
unfolding main_tcp_server main_ipv4
main_tcp_server-main_ipv4 ac l clients =
    as_failure-if (ac == 2) _ _ _ _
      (socket_status l l.socket _ _ (accept_status l.reason clients []))
      (user_status (codes "Parameter(s)") (codes "<Server Port>"))

as_failure-done {ℓ} : {A : Type ℓ} (m : Run A) (a : A) → as_failure m ≡ done a → m ≡ done a
as_failure-done (done b) a e = e
as_failure-done (exit_failure t) a e = absurd (cc)
as_failure-done (exit_success t) a e = absurd (cc)
as_failure-done undefined a e = absurd (cc)
as_failure-done out_of_fuel a e = absurd (cc)

accept_or_die-none :
    (reason : Bytes) (clients more : List (Option Peer)) (log : List Served)
    → AllTalk clients
    → accept_or_die reason (clients ++ none ∷ more) log
      ≡ exit_success (codes "accept() failed: " ++ reason ++ newline ∷ [])
unfolding accept_or_die die_with_system_message
accept_or_die-none reason [] more log t = refl
accept_or_die-none reason (none ∷ clients) more log t = absurd t
accept_or_die-none reason (some p ∷ clients) more log ((s, i), t) =
    let served : handle_tcp_client p ≡ done (said p.received) =
      as_failure-done (handle_tcp_client p) (said p.received)
        (handle_status p ∙ echo-handle_client p ∙ handle_client-all p s i) in
    rw served (accept_or_die-none reason clients more (log ++ conversation p (said p.received)) t)

-- A failing `accept` behind clients that are served ends the server with status 0.
pub main_tcp_server-exit_success :
    (l : Listening) (fd : ℕ) (clients more : List (Option Peer))
    → l.socket ≡ some fd
    → l.bind ≡ true
    → l.listen ≡ true
    → AllTalk clients
    → main_tcp_server 2 l (clients ++ none ∷ more)
      ≡ exit_success (codes "accept() failed: " ++ l.reason ++ newline ∷ [])
unfolding main_tcp_server
main_tcp_server-exit_success l fd clients more s b n t =
    rw (s, b, n) (accept_or_die-none l.reason clients more [] t)
