-- ===== src/Net/Setup.antt =====
-- The loops over the addresses that getaddrinfo found: SetupServer and SetupClient of
-- Sockets_in_C/ch05/VoteServer/src/Utils.c, and what the other programs have in their place.
pub mod Ledger
pub mod Servers
pub mod Clients
pub mod Named
pub mod Examples
use socket_programming_c.Prelude.{
  ℕ, ◌+◌, Bool, true, false, List, [], ◌∷◌, ◌++◌, Option, none, some, Bytes, codes, if◌then◌else◌,
}
use socket_programming_c.Exits.{Run, done, exit_with_system_msg, exit_with_user_msg, ◌>>=◌}

-- The results of the system calls, by the number of calls made before, the descriptor and the
-- address. `socket` is `none` for -1, the others say whether the call succeeded.
pub record Sockets (A : Type 0) : Type 0 where
  pub socket : ℕ → A → Option ℕ
  pub bind : ℕ → ℕ → A → Bool
  pub connect : ℕ → ℕ → A → Bool
  pub listen : ℕ → ℕ → Bool
  pub getsockname : ℕ → ℕ → Bool
  pub reason : ℕ → Bytes

-- The calls that changed a descriptor.
pub data Event : Type 0 where
  opened closed bound listening connected : ℕ → Event

pub record State : Type 0 where
  pub calls : ℕ
  pub log : List Event

abbrev pub called : State → State
called st = record st { calls = st.calls + 1 }

-- A call that succeeded.
abbrev pub made : State → Event → State
made st e = record { calls = st.calls + 1; log = st.log ++ e ∷ [] }

-- A round: whether the loop ends by `break`, the variable `sock`, and the state.
abbrev pub Round : Type 0
Round = Bool × Option ℕ × State

-- return sock;
abbrev pub result : Round → Option ℕ × State
result (stop, sock, st) = (sock, st)

-- What follows a round, if it did not end the loop.
abbrev pub unless_stopped : Round → (Option ℕ → State → Round) → Round
unless_stopped (true, sock, st) next = (true, sock, st)
unless_stopped (false, sock, st) next = next sock st

-- for (i = list; i != NULL; i = i->ai_next): the first component tells a `break` from the end of
-- the list.
unfoldable pub try_all : {A : Type 0} → (A → State → Round) → List A → Option ℕ → State → Round
try_all attempt [] sock st = (false, sock, st)
try_all attempt (a ∷ list) sock st = unless_stopped (attempt a st) (try_all attempt list)

module _ {A : Type 0} (sys : Sockets A) where
  -- close(sock); sock = -1;
  abbrev pub reset : ℕ → State → Round
  reset fd st = (false, none, made st (closed fd))

  abbrev pub after_listen : ℕ → State → Bool → Round
  after_listen fd st true = (true, some fd, made st (listening fd))
  after_listen fd st false = reset fd (called st)

  abbrev pub after_bind : ℕ → State → Bool → Round
  after_bind fd st true = after_listen fd (made st (bound fd)) (sys.listen (st.calls + 1) fd)
  after_bind fd st false = reset fd (called st)

  abbrev pub server_socket : A → State → Option ℕ → Round
  server_socket a st none = (false, none, called st)
  server_socket a st (some fd) = after_bind fd (made st (opened fd)) (sys.bind (st.calls + 1) fd a)

  -- The body of the loop of SetupServer.
  unfoldable pub server_attempt : A → State → Round
  server_attempt a st = server_socket a st (sys.socket st.calls a)

  abbrev pub after_connect : ℕ → State → Bool → Round
  after_connect fd st true = (true, some fd, made st (connected fd))
  after_connect fd st false = (false, some fd, made (called st) (closed fd))

  abbrev pub client_socket : A → State → Option ℕ → Round
  client_socket a st none = (false, none, called st)
  client_socket a st (some fd) =
      after_connect fd (made st (opened fd)) (sys.connect (st.calls + 1) fd a)

  -- The body of the loop of SetupClient: behind `close` the variable keeps the descriptor.
  unfoldable pub client_attempt : A → State → Round
  client_attempt a st = client_socket a st (sys.socket st.calls a)

  -- SetupServer on a list that is not empty, which it asserts: the descriptor, or `none` for -1.
  unfoldable pub setup_server : A → List A → State → Option ℕ × State
  setup_server a list st = result (try_all server_attempt (a ∷ list) none st)

  unfoldable pub setup_client : List A → State → Option ℕ × State
  setup_client list st = result (try_all client_attempt list none st)

  abbrev pub announce : Round → Run (Option ℕ × State)
  announce (true, some fd, st) =
      if sys.getsockname st.calls fd
      then done (some fd, called st)
      else exit_with_system_msg (codes "getsockname() failed") (sys.reason st.calls)
  announce (_, sock, st) = done (sock, st)

  -- setup_tcp_server_socket of ch03/3-2: print_local_addr behind a success may end the process.
  unfoldable pub setup_tcp_server_socket : List A → State → Run (Option ℕ × State)
  setup_tcp_server_socket [] st = done (none, st)
  setup_tcp_server_socket (a ∷ list) st = announce (try_all server_attempt (a ∷ list) none st)

  -- setup_server_socket of ch03/3-2-2.
  unfoldable pub setup_server_socket : List A → State → Option ℕ × State
  setup_server_socket [] st = (none, st)
  setup_server_socket (a ∷ list) st = result (try_all server_attempt (a ∷ list) none st)

  abbrev pub bind_only : ℕ → State → Bool → Round
  bind_only fd st true = (true, some fd, made st (bound fd))
  bind_only fd st false = (false, some fd, made (called st) (closed fd))

  abbrev pub binding_socket : A → State → Option ℕ → Round
  binding_socket a st none = (false, none, called st)
  binding_socket a st (some fd) =
      bind_only fd (made (called st) (opened fd)) (sys.bind (st.calls + 2) fd a)

  -- The body of the loop of get_binded_socket: setsockopt is called, and its result is not
  -- looked at.
  unfoldable pub bind_attempt : A → State → Round
  bind_attempt a st = binding_socket a st (sys.socket st.calls a)

  abbrev pub if_bound : Round → Run (Option ℕ × State)
  if_bound (true, sock, st) = done (sock, st)
  if_bound (false, sock, st) = exit_with_system_msg (codes "bind()") (sys.reason st.calls)

  -- get_binded_socket of Beej/ch07/poll_server2.c.
  unfoldable pub get_binded_socket : List A → State → Run (Option ℕ × State)
  get_binded_socket list st = if_bound (try_all bind_attempt list none st)

  abbrev pub if_listening : ℕ → State → Bool → Run (ℕ × State)
  if_listening fd st true = done (fd, made st (listening fd))
  if_listening fd st false = exit_with_system_msg (codes "listen()") (sys.reason (st.calls + 1))

  abbrev pub listen_on : Option ℕ × State → Run (ℕ × State)
  listen_on (some fd, st) = if_listening fd st (sys.listen st.calls fd)
  listen_on (none, st) = exit_with_system_msg (codes "listen()") (sys.reason (st.calls + 1))

  -- get_listener_socket of Beej/ch07/poll_server2.c.
  unfoldable pub get_listener_socket : List A → State → Run (ℕ × State)
  get_listener_socket list st = do bound_one ← get_binded_socket list st; listen_on bound_one
