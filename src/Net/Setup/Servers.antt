-- ===== src/Net/Setup/Servers.antt =====
-- What SetupServer and the functions in its place return, and which sockets they leave open.
use socket_programming_c.Prelude.{
  ℕ, ◌+◌, ◌≡◌, refl, ap, ◌∙◌, Bool, true, false, List, [], ◌∷◌, ◌++◌, append_assoc, Option, none,
  some,
}
use socket_programming_c.Exits.{Keeps, Keeps-bind, exit_with_system_msg}
use socket_programming_c.Net.Setup.{
  Sockets, State, called, Event, opened, bound, listening, Round, result, unless_stopped, try_all,
  after_bind, after_listen, server_socket, server_attempt, setup_server, setup_server_socket,
  bind_only, binding_socket, bind_attempt, if_bound, if_listening, listen_on, get_binded_socket,
  get_listener_socket, made,
}
use socket_programming_c.Net.Setup.Ledger.{
  Open, Open-opened, Open-closed, Open-other, RoundOf, try_all-Open,
}

abbrev pub IsNone : Option ℕ → Type 0
IsNone none = Unit
IsNone (some fd) = ⊥

-- The socket was bound and listens, by the last two calls, and it alone is open.
abbrev pub Listens : ℕ → List Event → Type 0
Listens fd log =
    (before : List Event) × (log ≡ before ++ bound fd ∷ listening fd ∷ []) × Open (fd ∷ []) log

abbrev ListensOne : Option ℕ → List Event → Type 0
ListensOne none log = ⊥
ListensOne (some fd) log = Listens fd log

-- A listening socket and no other, or none at all.
abbrev pub ServerSocket : Option ℕ × State → Type 0
ServerSocket (none, st) = Open [] st.log
ServerSocket (some fd, st) = Listens fd st.log

result-ServerSocket : (r : Round) → RoundOf IsNone ListensOne r → ServerSocket (result r)
result-ServerSocket (true, none, st) h = absurd h
result-ServerSocket (true, some fd, st) h = h
result-ServerSocket (false, none, st) (k, h) = h
result-ServerSocket (false, some fd, st) (k, h) = absurd k

module _ {A : Type 0} (sys : Sockets A) where
  after_listen-RoundOf :
      (fd : ℕ) (log : List Event) (calls : ℕ) (b : Bool)
      → Open (fd ∷ []) log
      → RoundOf IsNone ListensOne
          (after_listen sys fd (record { calls = calls; log = log ++ bound fd ∷ [] }) b)
  after_listen-RoundOf fd log calls true h = (
    log,
    append_assoc log (bound fd ∷ []) (listening fd ∷ []),
    Open-other (fd ∷ []) (listening fd) (log ++ bound fd ∷ []) refl refl
        (Open-other (fd ∷ []) (bound fd) log refl refl h),
  )
  after_listen-RoundOf fd log calls false h =
      (tt, Open-closed fd (log ++ bound fd ∷ []) (Open-other (fd ∷ []) (bound fd) log refl refl h))

  after_bind-RoundOf :
      (fd : ℕ) (st : State) (b : Bool)
      → Open (fd ∷ []) st.log
      → RoundOf IsNone ListensOne (after_bind sys fd st b)
  after_bind-RoundOf fd st true h =
      after_listen-RoundOf fd st.log _ (sys.listen (st.calls + 1) fd) h
  after_bind-RoundOf fd st false h = (tt, Open-closed fd st.log h)

  server_socket-RoundOf :
      (a : A) (st : State) (o : Option ℕ)
      → Open [] st.log
      → RoundOf IsNone ListensOne (server_socket sys a st o)
  server_socket-RoundOf a st none h = (tt, h)
  server_socket-RoundOf a st (some fd) h =
      after_bind-RoundOf fd (made st (opened fd)) (sys.bind (st.calls + 1) fd a)
        (Open-opened fd st.log h)

  server_attempt-RoundOf :
      (a : A) (st : State) → Open [] st.log → RoundOf IsNone ListensOne (server_attempt sys a st)
  unfolding server_attempt
  server_attempt-RoundOf a st h = server_socket-RoundOf a st (sys.socket st.calls a) h

  servers-RoundOf :
      (list : List A) (st : State)
      → Open [] st.log
      → RoundOf IsNone ListensOne (try_all (server_attempt sys) list none st)
  servers-RoundOf list st h =
      try_all-Open IsNone ListensOne (server_attempt sys) server_attempt-RoundOf list none st tt h

-- If nothing is open before, whatever the system calls bring, SetupServer returns a socket that
-- is bound and listens by its last two calls and is the only one it leaves open, or -1, and then
-- it leaves none open.
pub setup_server-ServerSocket :
    {A : Type 0} (sys : Sockets A) (a : A) (list : List A) (st : State)
    → Open [] st.log
    → ServerSocket (setup_server sys a list st)
unfolding setup_server
setup_server-ServerSocket sys a list st h =
    result-ServerSocket _ (servers-RoundOf sys (a ∷ list) st h)

pub setup_server_socket-ServerSocket :
    {A : Type 0} (sys : Sockets A) (list : List A) (st : State)
    → Open [] st.log
    → ServerSocket (setup_server_socket sys list st)
unfolding setup_server_socket
setup_server_socket-ServerSocket sys [] st h = h
setup_server_socket-ServerSocket sys (a ∷ list) st h =
    result-ServerSocket _ (servers-RoundOf sys (a ∷ list) st h)

-- An address at which all three calls succeed whenever they are made.
abbrev pub IsUsable : {A : Type 0} → Sockets A → A → Type 0
IsUsable sys a =
    ((n : ℕ) → (fd : ℕ) × (sys.socket n a ≡ some fd))
    × ((n fd : ℕ) → sys.bind n fd a ≡ true)
    × ((n fd : ℕ) → sys.listen n fd ≡ true)

-- The loop was ended by `break`.
abbrev Stopped : Round → Type 0
Stopped (true, sock, st) = Unit
Stopped (false, sock, st) = ⊥

Stopped-unless :
    (r : Round) (next : Option ℕ → State → Round)
    → ((sock : Option ℕ) (st : State) → Stopped (next sock st))
    → Stopped (unless_stopped r next)
Stopped-unless (true, sock, st) next h = tt
Stopped-unless (false, sock, st) next h = h sock st

unless-Stopped :
    (r : Round) (next : Option ℕ → State → Round) → Stopped r → Stopped (unless_stopped r next)
unless-Stopped (true, sock, st) next h = tt
unless-Stopped (false, sock, st) next h = absurd h

server_attempt-Stopped :
    {A : Type 0} (sys : Sockets A) (a : A) (st : State)
    → IsUsable sys a
    → Stopped (server_attempt sys a st)
unfolding server_attempt
server_attempt-Stopped sys a st (s, b, l) =
    let (fd, e) = s st.calls in rw (e, b (st.calls + 1) fd, l (st.calls + 1 + 1) fd) tt

servers-Stopped :
    {A : Type 0} (sys : Sockets A) (front back : List A) (a : A) (sock : Option ℕ) (st : State)
    → IsUsable sys a
    → Stopped (try_all (server_attempt sys) (front ++ a ∷ back) sock st)
unfolding try_all
servers-Stopped sys [] back a sock st u = unless-Stopped _ _ (server_attempt-Stopped sys a st u)
servers-Stopped sys (f ∷ front) back a sock st u =
    Stopped-unless (server_attempt sys f st) _
      (λ sock' st'. servers-Stopped sys front back a sock' st' u)

Stopped-some :
    (r : Round)
    → RoundOf IsNone ListensOne r
    → Stopped r
    → (fd : ℕ) × ((result r).0 ≡ some fd) × Listens fd (result r).1.log
Stopped-some (true, none, st) h t = absurd h
Stopped-some (true, some fd, st) h t = (fd, refl, h)
Stopped-some (false, sock, st) h t = absurd t

-- If nothing is open before and some address of the list is usable, wherever it stands, then
-- setup_server_socket returns a socket that is bound and listens, and it leaves no other open.
pub setup_server_socket-usable :
    {A : Type 0} (sys : Sockets A) (front back : List A) (a : A) (st : State)
    → IsUsable sys a
    → Open [] st.log
    → (fd : ℕ) × ((setup_server_socket sys (front ++ a ∷ back) st).0 ≡ some fd)
      × Listens fd (setup_server_socket sys (front ++ a ∷ back) st).1.log
unfolding setup_server_socket
setup_server_socket-usable sys [] back a st u h =
    Stopped-some _ (servers-RoundOf sys (a ∷ back) st h) (servers-Stopped sys [] back a none st u)
setup_server_socket-usable sys (f ∷ front) back a st u h =
    Stopped-some _ (servers-RoundOf sys (f ∷ front ++ a ∷ back) st h)
      (servers-Stopped sys (f ∷ front) back a none st u)

-- The listening socket of a run that has not exited.
abbrev pub ListenerSocket : ℕ × State → Type 0
ListenerSocket (fd, st) = Listens fd st.log

abbrev pub BoundOne : Option ℕ → List Event → Type 0
BoundOne none log = ⊥
BoundOne (some fd) log =
    (before : List Event) × (log ≡ before ++ bound fd ∷ []) × Open (fd ∷ []) log

abbrev pub Anything : Option ℕ → Type 0
Anything sock = Unit

-- `listen` makes a listening socket of a bound one.
pub BoundOne-Listens :
    (fd : ℕ) (log : List Event) → BoundOne (some fd) log → Listens fd (log ++ listening fd ∷ [])
BoundOne-Listens fd log (before, e, h) = (
  before,
  ap (λ (l : List Event). l ++ listening fd ∷ []) e
      ∙ append_assoc before (bound fd ∷ []) (listening fd ∷ []),
  Open-other (fd ∷ []) (listening fd) log refl refl h,
)

module _ {A : Type 0} (sys : Sockets A) where
  bind_only-RoundOf :
      (fd : ℕ) (st : State) (b : Bool)
      → Open (fd ∷ []) st.log
      → RoundOf Anything BoundOne (bind_only sys fd st b)
  bind_only-RoundOf fd st true h =
      (st.log, refl, Open-other (fd ∷ []) (bound fd) st.log refl refl h)
  bind_only-RoundOf fd st false h = (tt, Open-closed fd st.log h)

  pub bind_attempt-RoundOf :
      (a : A) (st : State) → Open [] st.log → RoundOf Anything BoundOne (bind_attempt sys a st)
  unfolding bind_attempt
  bind_attempt-RoundOf a st h = by_socket (sys.socket st.calls a)
    where
      by_socket : (o : Option ℕ) → RoundOf Anything BoundOne (binding_socket sys a st o)
      by_socket none = (tt, h)
      by_socket (some fd) =
          bind_only-RoundOf fd (made (called st) (opened fd)) (sys.bind (st.calls + 2) fd a)
            (Open-opened fd st.log h)

  abbrev Bound : Option ℕ × State → Type 0
  Bound (sock, st) = BoundOne sock st.log

  if_bound-Keeps : (r : Round) → RoundOf Anything BoundOne r → Keeps Bound (if_bound sys r)
  if_bound-Keeps (true, sock, st) h = h
  if_bound-Keeps (false, sock, st) h = unfold exit_with_system_msg in tt

  listen_on-Keeps : (p : Option ℕ × State) → Bound p → Keeps ListenerSocket (listen_on sys p)
  listen_on-Keeps (none, st) h = absurd h
  listen_on-Keeps (some fd, st) h = by_listen (sys.listen st.calls fd)
    where
      by_listen : (b : Bool) → Keeps ListenerSocket (if_listening sys fd st b)
      by_listen false = unfold exit_with_system_msg in tt
      by_listen true = BoundOne-Listens fd st.log h

-- If nothing is open before, get_listener_socket of the second poll server ends the process or
-- returns a socket that is bound and listens, and then it is the only one that is open.
pub get_listener_socket-Keeps :
    {A : Type 0} (sys : Sockets A) (list : List A) (st : State)
    → Open [] st.log
    → Keeps ListenerSocket (get_listener_socket sys list st)
unfolding get_listener_socket get_binded_socket
get_listener_socket-Keeps sys list st h =
    Keeps-bind (Bound sys) ListenerSocket (if_bound sys (try_all (bind_attempt sys) list none st))
      (listen_on sys)
      (if_bound-Keeps sys _ (
        try_all-Open Anything BoundOne (bind_attempt sys) (bind_attempt-RoundOf sys) list none st tt
          h))
      (λ p b. listen_on-Keeps sys p b)
