-- ===== src/Poll/Main.antt =====
-- main of Beej/ch07/poll_server2.c and of Beej/ch07/poll_server.c from their starts on: the
-- listening socket, and the loop over the connections.
pub mod Examples
use socket_programming_c.Prelude.{
  ℕ, ◌≡◌, refl, Bool, true, false, List, [], ◌∷◌, ◌++◌, Option, none, some, Bytes, codes, newline,
}
use socket_programming_c.Exits.{
  Run, done, exit_failure, >>=-eq-done, ◌>>=◌, Keeps, Keeps-bind, Keeps-done, Keeps-found,
}
use socket_programming_c.Net.Lookup.{Lookup, found, lookup_failed}
use socket_programming_c.Net.Setup.{Sockets, State, get_listener_socket}
use socket_programming_c.Net.Setup.Ledger.{Open}
use socket_programming_c.Net.Setup.Servers.{Listens, ListenerSocket, get_listener_socket-Keeps}
use socket_programming_c.Net.Setup.Named.{get_chat_socket, ChatSocket, get_chat_socket-Keeps}
use socket_programming_c.Poll.Table.{Pollfd}
use socket_programming_c.Poll.Server2.{Kernel, World}
use socket_programming_c.Poll.Server2.{run_server as run_echo}
use socket_programming_c.Poll.Server1.{run_server as run_chat}
use socket_programming_c.Poll.Server2.Ledger.{Works}
use socket_programming_c.Poll.Server2.Serving.{Accounted, run_server-Accounted}
use socket_programming_c.Poll.Server1.Passes.{chat_server-Accounted}

-- get_ai_list
unfoldable pub get_ai_list : {A : Type 0} → Lookup A → Run (List A)
get_ai_list (found list) = done list
get_ai_list (lookup_failed text) = exit_failure (codes "getaddrinfo(): " ++ text ++ newline ∷ [])

module _ {A : Type 0} (sys : Sockets A) (k : Kernel) (junk : ℕ → Pollfd) where
  -- get_listener_socket with get_ai_passive in it.
  unfoldable pub get_passive_socket : Lookup A → State → Run (ℕ × State)
  get_passive_socket service st = do list ← get_ai_list service; get_listener_socket sys list st

  -- main of poll_server2.c: the state of the socket setup, the listener, and the connections.
  unfoldable pub main_echo : Lookup A → State → List (Option (List Bool)) → Run (State × ℕ × World)
  main_echo service st polls = do
    (listener, st') ← get_passive_socket service st
    w ← run_echo k junk listener polls
    done (st', listener, w)

  -- main of poll_server.c.
  unfoldable pub main_chat :
      Lookup A → State → List (Option (List Bool)) → Run (State × Option ℕ × World)
  main_chat service st polls = do
    (listener, st') ← get_chat_socket sys service st
    w ← run_chat k junk listener polls
    done (st', listener, w)

  get_passive_socket-Keeps :
      (service : Lookup A) (st : State)
      → Open [] st.log
      → Keeps ListenerSocket (get_passive_socket service st)
  unfolding get_passive_socket get_ai_list
  get_passive_socket-Keeps (found list) st h = get_listener_socket-Keeps sys list st h
  get_passive_socket-Keeps (lookup_failed text) st h = tt

  -- A running server: its listener listens and is the only socket open from the setup, and the
  -- connections are accounted for.
  abbrev pub Serves : State × ℕ × World → Type 0
  Serves (st, listener, w) = Listens listener st.log × Accounted listener w

  -- Whatever the system calls bring, main of poll_server2.c exits or runs with a listener that is
  -- bound and listens and no other socket of the setup open, stays inside its array, ends every
  -- pass, and has every accepted descriptor once in its array or closed. Nothing is open before,
  -- `accept` does not bring the listener's descriptor, and memory does not run out.
  pub main_echo-Serves :
      (service : Lookup A) (st : State) (polls : List (Option (List Bool)))
      → Open [] st.log
      → ((fd : ℕ) (st' : State) → get_passive_socket service st ≡ done (fd, st') → Works k fd)
      → Keeps Serves (main_echo service st polls)
  unfolding main_echo
  main_echo-Serves service st polls h works =
      Keeps-found ListenerSocket Serves (get_passive_socket service st) _
        (get_passive_socket-Keeps service st h)
        λ l e listens.
          Keeps-bind (Accounted l.0) Serves (run_echo k junk l.0 polls) _
            (run_server-Accounted k l.0 junk polls (works l.0 l.1 e)) (λ w a. (listens, a))

  abbrev pub Chats : State × Option ℕ × World → Type 0
  Chats (st, none, w) = ⊥
  Chats (st, some listener, w) = Listens listener st.log × Accounted listener w

  -- The same of main of poll_server.c.
  pub main_chat-Chats :
      (service : Lookup A) (st : State) (polls : List (Option (List Bool)))
      → Open [] st.log
      → ((fd : ℕ) (st' : State) → get_chat_socket sys service st ≡ done (some fd, st') → Works k fd)
      → Keeps Chats (main_chat service st polls)
  unfolding main_chat
  main_chat-Chats service st polls h works =
      Keeps-found ChatSocket Chats (get_chat_socket sys service st) _
        (get_chat_socket-Keeps sys service st h) (λ l e c. chats l.0 l.1 e c)
    where
      chats :
          (o : Option ℕ) (st' : State)
          → get_chat_socket sys service st ≡ done (o, st')
          → ChatSocket (o, st')
          → Keeps Chats (run_chat k junk o polls >>= λ w. done (st', o, w))
      chats none st' e c = unfold run_chat in tt
      chats (some fd) st' e c =
          Keeps-bind (Accounted fd) Chats (run_chat k junk (some fd) polls) _
            (chat_server-Accounted k fd junk polls (works fd st' e)) (λ w a. (c, a))
