-- ===== src/Net/Setup/Named.antt =====
-- Setting up a socket from the name of a service: SetupServer of
-- Sockets_in_C/ch05/VoteServer/src/Utils.c with getaddrinfo in front of its loop, and
-- get_listener_socket of Beej/ch07/poll_server.c.
use socket_programming_c.Prelude.{
  ℕ, Bool, true, false, List, [], ◌∷◌, ◌++◌, Option, none, some, codes, newline,
}
use socket_programming_c.Exits.{Run, done, exit_failure, exit_with_user_msg, Keeps, ◌>>=◌}
use socket_programming_c.Net.Lookup.{Lookup, found, lookup_failed, get_addr_list}
use socket_programming_c.Net.Setup.{
  Sockets, State, called, made, listening, Round, try_all, bind_attempt, setup_server,
}
use socket_programming_c.Net.Setup.Ledger.{Open, RoundOf, try_all-Open}
use socket_programming_c.Net.Setup.Servers.{
  Listens, BoundOne, Anything, BoundOne-Listens, bind_attempt-RoundOf, ServerSocket,
  setup_server-ServerSocket,
}

-- A listening socket and no other; behind -1 the process ends at once.
abbrev pub ChatSocket : Option ℕ × State → Type 0
ChatSocket (none, st) = Unit
ChatSocket (some fd, st) = Listens fd st.log

module _ {A : Type 0} (sys : Sockets A) where
  -- The assertion on the list ends the process; what it prints is left out.
  abbrev pub asserted : State → List A → Run (Option ℕ × State)
  asserted st [] = exit_failure []
  asserted st (a ∷ list) = done (setup_server sys a list st)

  -- SetupServer.
  unfoldable pub setup_service : Lookup A → State → Run (Option ℕ × State)
  setup_service service st = do list ← get_addr_list service; asserted st list

  abbrev pub if_listens : ℕ → State → Bool → Option ℕ × State
  if_listens fd st true = (some fd, made st (listening fd))
  if_listens fd st false = (none, called st)

  abbrev pub listener_of : Round → Option ℕ × State
  listener_of (true, some fd, st) = if_listens fd st (sys.listen st.calls fd)
  listener_of (true, none, st) = (none, st)
  listener_of (false, sock, st) = (none, st)

  -- get_listener_socket of poll_server.c; `none` is -1.
  unfoldable pub get_chat_socket : Lookup A → State → Run (Option ℕ × State)
  get_chat_socket (lookup_failed text) st =
      exit_failure (codes "select server: " ++ text ++ newline ∷ [])
  get_chat_socket (found list) st = done (listener_of (try_all (bind_attempt sys) list none st))

  asserted-Keeps :
      (list : List A) (st : State) → Open [] st.log → Keeps ServerSocket (asserted st list)
  asserted-Keeps [] st h = tt
  asserted-Keeps (a ∷ list) st h = setup_server-ServerSocket sys a list st h

  -- Whatever getaddrinfo brings, SetupServer ends the process, or returns a listening socket and
  -- leaves no other open, or returns -1 and leaves none open.
  pub setup_service-Keeps :
      (service : Lookup A) (st : State)
      → Open [] st.log
      → Keeps ServerSocket (setup_service service st)
  unfolding setup_service get_addr_list exit_with_user_msg
  setup_service-Keeps (found list) st h = asserted-Keeps list st h
  setup_service-Keeps (lookup_failed text) st h = tt

  if_listens-ChatSocket :
      (fd : ℕ) (st : State) (b : Bool) → BoundOne (some fd) st.log → ChatSocket (if_listens fd st b)
  if_listens-ChatSocket fd st true bound_one = BoundOne-Listens fd st.log bound_one
  if_listens-ChatSocket fd st false bound_one = tt

  listener_of-ChatSocket : (r : Round) → RoundOf Anything BoundOne r → ChatSocket (listener_of r)
  listener_of-ChatSocket (true, some fd, st) h =
      if_listens-ChatSocket fd st (sys.listen st.calls fd) h
  listener_of-ChatSocket (true, none, st) h = tt
  listener_of-ChatSocket (false, sock, st) h = tt

  -- Whatever getaddrinfo and the system calls bring, get_listener_socket of poll_server.c ends
  -- the process, or returns -1, or a socket that listens, and then no other is open.
  pub get_chat_socket-Keeps :
      (service : Lookup A) (st : State)
      → Open [] st.log
      → Keeps ChatSocket (get_chat_socket service st)
  unfolding get_chat_socket
  get_chat_socket-Keeps (lookup_failed text) st h = tt
  get_chat_socket-Keeps (found list) st h = listener_of-ChatSocket _ (
      try_all-Open Anything BoundOne (bind_attempt sys) (bind_attempt-RoundOf sys) list none st tt
        h)
