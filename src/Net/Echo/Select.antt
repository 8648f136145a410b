-- ===== src/Net/Echo/Select.antt =====
-- main of Sockets_in_C/ch06/TCPEchoServer-Select.c: an echo server on several ports.
pub mod Leak
pub mod Ports
use socket_programming_c.Prelude.{
  ℕ, ◌+◌, ◌-◌, Bool, true, false, List, [], ◌∷◌, ◌++◌, map, Option, none, some, Bytes, codes, ltb,
  if◌then◌else◌,
}
use socket_programming_c.Exits.{
  Run, done, undefined, exit_with_system_msg, exit_with_user_msg, ◌>>=◌,
}
use socket_programming_c.Net.Echo.{Peer, handle_client}
use socket_programming_c.Net.Echo.Servers.{Served, accepted, answered, closed}

-- What `select` brings: 0, or what it reports of stdin and of each port; of a port that is ready
-- there is what `accept` brings then.
pub data Selected : Type 0 where
  timed_out : Selected
  ready : Bool → List (Option (Option Peer)) → Selected

-- AcceptConnection.
unfoldable pub accept_connection : Bytes → Option Peer → Run Peer
accept_connection reason none = exit_with_system_msg (codes "accept() failed") reason
accept_connection reason (some p) = done p

-- HandleClient(AcceptConnection(sockets[i]))
abbrev pub handle_accepted : Bytes → Option Peer → List Served → Run (List Served)
handle_accepted reason o log = do
  p ← accept_connection reason o
  out ← handle_client p
  done (log ++ accepted p.fd ∷ answered p.fd out ∷ [])

-- for (int i = 0; i < noPorts; ++i) if (FD_ISSET(sockets[i], &sockSet)) …
unfoldable pub serve_ports : Bytes → List (Option (Option Peer)) → List Served → Run (List Served)
serve_ports reason [] log = done log
serve_ports reason (none ∷ ports) log = serve_ports reason ports log
serve_ports reason (some o ∷ ports) log = do
  log' ← handle_accepted reason o log
  serve_ports reason ports log'

-- FD_SET(sockets[i], &sockSet) for each port: undefined on -1.
unfoldable pub fd_set : List (Option ℕ) → List ℕ → Run (List ℕ)
fd_set [] set = done set
fd_set (none ∷ sockets) set = undefined
fd_set (some fd ∷ sockets) set = fd_set sockets (set ++ fd ∷ [])

-- The last loop of main.
abbrev pub close_all : List (Option ℕ) → List Served
close_all [] = []
close_all (none ∷ sockets) = close_all sockets
close_all (some fd ∷ sockets) = closed fd ∷ close_all sockets

-- while (bRunning): behind a round in which stdin was ready the loop ends. The Boolean says that
-- it has.
unfoldable pub select_loop :
    Bytes → List (Option ℕ) → List Selected → List Served → Run (Bool × List Served)
select_loop reason sockets [] log = done (false, log)
select_loop reason sockets (timed_out ∷ rounds) log = do
  set ← fd_set sockets (0 ∷ [])
  select_loop reason sockets rounds log
select_loop reason sockets (ready stdin ports ∷ rounds) log = do
  set ← fd_set sockets (0 ∷ [])
  log' ← serve_ports reason ports log
  let rest = select_loop reason sockets rounds log'
  if stdin then done (true, log' ++ close_all sockets) else rest

-- main, with what SetupServer brings for each port.
unfoldable pub main_select : ℕ → Bytes → List (Option ℕ) → List Selected → Run (Bool × List Served)
main_select argc reason sockets rounds =
    if ltb argc 3
    then exit_with_user_msg (codes "Parameter(s)") (codes "<Timeout (secs.)> <Port/Service> ...")
    else select_loop reason sockets rounds []
