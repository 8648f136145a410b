-- ===== src/Net/Setup/Clients.antt =====
-- What SetupClient returns, and which sockets it leaves open.
use socket_programming_c.Prelude.{
  ℕ, ◌+◌, ◌≡◌, ◌⊎◌, inl, inr, refl, Bool, true, false, List, [], ◌∷◌, ◌++◌, Option, none, some,
}
use socket_programming_c.Net.Setup.{
  Sockets, State, Event, opened, closed, connected, Round, result, unless_stopped, try_all,
  after_connect, client_socket, client_attempt, setup_client, made,
}
use socket_programming_c.Net.Setup.Ledger.{
  Open, Open-opened, Open-closed, Open-other, RoundOf, try_all-Open,
}

-- The socket was connected by the last call, and it alone is open.
abbrev pub Connected : Option ℕ → List Event → Type 0
Connected none log = ⊥
Connected (some fd) log =
    (before : List Event) × (log ≡ before ++ connected fd ∷ []) × Open (fd ∷ []) log

abbrev Anything : Option ℕ → Type 0
Anything sock = Unit

after_connect-RoundOf :
    {A : Type 0} (sys : Sockets A) (fd : ℕ) (st : State) (b : Bool)
    → Open (fd ∷ []) st.log
    → RoundOf Anything Connected (after_connect sys fd st b)
after_connect-RoundOf sys fd st true h =
    (st.log, refl, Open-other (fd ∷ []) (connected fd) st.log refl refl h)
after_connect-RoundOf sys fd st false h = (tt, Open-closed fd st.log h)

client_socket-RoundOf :
    {A : Type 0} (sys : Sockets A) (a : A) (st : State) (o : Option ℕ)
    → Open [] st.log
    → RoundOf Anything Connected (client_socket sys a st o)
client_socket-RoundOf sys a st none h = (tt, h)
client_socket-RoundOf sys a st (some fd) h =
    after_connect-RoundOf sys fd (made st (opened fd)) (sys.connect (st.calls + 1) fd a)
      (Open-opened fd st.log h)

client_attempt-RoundOf :
    {A : Type 0} (sys : Sockets A) (a : A) (st : State)
    → Open [] st.log
    → RoundOf Anything Connected (client_attempt sys a st)
unfolding client_attempt
client_attempt-RoundOf sys a st h = client_socket-RoundOf sys a st (sys.socket st.calls a) h

-- Connected, or nothing is open.
abbrev pub ClientSocket : Option ℕ × State → Type 0
ClientSocket (sock, st) = Connected sock st.log ⊎ Open [] st.log

result-ClientSocket : (r : Round) → RoundOf Anything Connected r → ClientSocket (result r)
result-ClientSocket (true, sock, st) h = inl h
result-ClientSocket (false, sock, st) (k, h) = inr h

-- If nothing is open before, whatever the system calls bring, behind SetupClient either the
-- socket that it returns is connected by its last call and is the only one it leaves open, or it
-- leaves none open.
pub setup_client-ClientSocket :
    {A : Type 0} (sys : Sockets A) (list : List A) (st : State)
    → Open [] st.log
    → ClientSocket (setup_client sys list st)
unfolding setup_client
setup_client-ClientSocket sys list st h = result-ClientSocket _ (
    try_all-Open Anything Connected (client_attempt sys) (client_attempt-RoundOf sys) list none st
      tt h)

-- Every socket is created, and no address answers.
abbrev pub Unreachable : {A : Type 0} → Sockets A → Type 0
Unreachable {A} sys =
    ((n : ℕ) (a : A) → (fd : ℕ) × (sys.socket n a ≡ some fd))
    × ((n fd : ℕ) (a : A) → sys.connect n fd a ≡ false)

-- The variable holds a descriptor that was closed last.
abbrev pub Closed : Option ℕ × State → Type 0
Closed (sock, st) =
    (fd : ℕ) × (before : List Event) × (sock ≡ some fd) × (st.log ≡ before ++ closed fd ∷ [])

abbrev Failed : Round → Type 0
Failed (true, sock, st) = ⊥
Failed (false, sock, st) = Closed (sock, st)

client_attempt-Failed :
    {A : Type 0} (sys : Sockets A) (a : A) (st : State)
    → Unreachable sys
    → Failed (client_attempt sys a st)
unfolding client_attempt
client_attempt-Failed sys a st (s, c) =
    let (fd, e) = s st.calls a in
    rw (e, c (st.calls + 1) fd a) (fd, st.log ++ opened fd ∷ [], refl, refl)

unless-Failed :
    (r : Round) (next : Option ℕ → State → Round)
    → Failed r
    → ((sock : Option ℕ) (st : State) → Closed (sock, st) → Failed (next sock st))
    → Failed (unless_stopped r next)
unless-Failed (true, sock, st) next h k = absurd h
unless-Failed (false, sock, st) next h k = k sock st h

clients-Failed :
    {A : Type 0} (sys : Sockets A) (list : List A) (sock : Option ℕ) (st : State)
    → Unreachable sys
    → Closed (sock, st)
    → Failed (try_all (client_attempt sys) list sock st)
unfolding try_all
clients-Failed sys [] sock st u h = h
clients-Failed sys (a ∷ list) sock st u h =
    unless-Failed _ _ (client_attempt-Failed sys a st u)
      (λ sock' st' h'. clients-Failed sys list sock' st' u h')

Failed-Closed : (r : Round) → Failed r → Closed (result r)
Failed-Closed (true, sock, st) h = absurd h
Failed-Closed (false, sock, st) h = h

-- If every socket is created and no address answers, then SetupClient does not return -1 on a
-- list that is not empty, but the descriptor that it has just closed.
pub setup_client-Closed :
    {A : Type 0} (sys : Sockets A) (a : A) (list : List A) (st : State)
    → Unreachable sys
    → Closed (setup_client sys (a ∷ list) st)
unfolding setup_client try_all
setup_client-Closed sys a list st u = Failed-Closed _ (
    unless-Failed (client_attempt sys a st) (try_all (client_attempt sys) list)
      (client_attempt-Failed sys a st u) (λ sock' st' h'. clients-Failed sys list sock' st' u h'))
