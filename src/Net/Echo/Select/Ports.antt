-- ===== src/Net/Echo/Select/Ports.antt =====
-- main of Sockets_in_C/ch06/TCPEchoServer-Select.c from its start on: the sockets of the ports.
use socket_programming_c.Prelude.{
  ℕ, ◌≡◌, refl, Bool, false, List, [], ◌∷◌, ◌++◌, Option, none, some, Bytes, codes, ltb,
  if◌then◌else◌,
}
use socket_programming_c.Exits.{Run, done, undefined, exit_with_user_msg, ◌>>=◌}
use socket_programming_c.Net.Lookup.{Lookup}
use socket_programming_c.Net.Setup.{Sockets, State}
use socket_programming_c.Net.Setup.Named.{setup_service}
use socket_programming_c.Net.Echo.Servers.{Served}
use socket_programming_c.Net.Echo.Select.{Selected, timed_out, ready, fd_set, select_loop}

module _ {A : Type 0} (sys : Sockets A) where
  -- for (int i = 0; i < noPorts; ++i) sockets[i] = SetupServer(argv[i + 2]);
  unfoldable pub setup_ports : List (Lookup A) → State → Run (List (Option ℕ) × State)
  setup_ports [] st = done ([], st)
  setup_ports (service ∷ services) st = do
    (sock, st') ← setup_service sys service st
    (rest, st'') ← setup_ports services st'
    done (sock ∷ rest, st'')

  -- main, with the arguments behind the timeout, what `select` brings, and the text of errno.
  unfoldable pub main_select_ports :
      ℕ → Bytes → List (Lookup A) → State → List Selected → Run (State × Bool × List Served)
  main_select_ports argc reason services st rounds =
      if ltb argc 3
      then exit_with_user_msg (codes "Parameter(s)") (codes "<Timeout (secs.)> <Port/Service> ...")
      else (do
        (socks, st') ← setup_ports services st
        (over, log) ← select_loop reason socks rounds []
        done (st', over, log))

-- Some port has no socket.
abbrev pub HasNone : List (Option ℕ) → Type 0
HasNone [] = ⊥
HasNone (none ∷ sockets) = Unit
HasNone (some fd ∷ sockets) = HasNone sockets

fd_set-undefined :
    (socks : List (Option ℕ)) (set : List ℕ) → HasNone socks → fd_set socks set ≡ undefined
unfolding fd_set
fd_set-undefined [] set h = absurd h
fd_set-undefined (none ∷ socks) set h = refl
fd_set-undefined (some fd ∷ socks) set h = fd_set-undefined socks (set ++ fd ∷ []) h

select_loop-undefined :
    (reason : Bytes) (socks : List (Option ℕ)) (r : Selected) (rounds : List Selected)
    (log : List Served)
    → HasNone socks
    → select_loop reason socks (r ∷ rounds) log ≡ undefined
unfolding select_loop
select_loop-undefined reason socks timed_out rounds log h = rw (fd_set-undefined socks (0 ∷ []) h)
select_loop-undefined reason socks (ready stdin ports) rounds log h =
    rw (fd_set-undefined socks (0 ∷ []) h)

-- If SetupServer returns -1 for some port, the server on several ports goes on with it, and its
-- first round is undefined: it calls FD_SET with -1.
pub main_select_ports-undefined :
    {A : Type 0} (sys : Sockets A) (argc : ℕ) (reason : Bytes) (services : List (Lookup A))
    (st st' : State) (socks : List (Option ℕ)) (r : Selected) (rounds : List Selected)
    → ltb argc 3 ≡ false
    → setup_ports sys services st ≡ done (socks, st')
    → HasNone socks
    → main_select_ports sys argc reason services st (r ∷ rounds) ≡ undefined
unfolding main_select_ports
main_select_ports-undefined sys argc reason services st st' socks r rounds a e h =
    rw (a, e, select_loop-undefined reason socks r rounds [] h)
