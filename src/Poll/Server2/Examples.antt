-- ===== src/Poll/Server2/Examples.antt =====
-- Runs of the poll server, and its theorems at concrete inputs.
use mathlib.Core.Option.{some-injective}
use socket_programming_c.Prelude.{
  ℕ, ◌+◌, ◌≡◌, refl, Bool, true, false, List, [], ◌∷◌, Option, some, none, arith, ltb,
  if◌then◌else◌,
}
use socket_programming_c.Calls.{Received, hung_up, bytes}
use socket_programming_c.Exits.{Run, done}
use socket_programming_c.Poll.Table.{Pollfd, grow, append_fd, add_to_pfds, del_from_pfds}
use socket_programming_c.Poll.Table.Laws.{table}
use socket_programming_c.Poll.Server2.{
  Kernel, Event, accepted, closed, echoed, World, handle_accepted, accept_conn, handle_received,
  handler, visit, scan, mark, polled, serve, init, run_server,
}
use socket_programming_c.Poll.Server2.Ledger.{Works}

abbrev pub blank : ℕ → Pollfd
blank i = record { fd = 0; events = false; revents = false }

-- The descriptors grow with the calls; a client sends once and hangs up.
abbrev early : ℕ → Received
early n = if ltb n 3 then bytes 104 (105 ∷ []) else hung_up

abbrev pub kernel : Kernel
kernel = record {
  accept = λ n. some (n + 4);
  recv = λ n fd. early n;
  fresh = λ n. some blank;
  reason = λ n. [];
}

abbrev pub polls : List (Option (List Bool))
polls = some (true ∷ []) ∷ some (true ∷ true ∷ []) ∷ some (false ∷ true ∷ true ∷ []) ∷ []

abbrev outcome : Run World → Option (List Event × ℕ)
outcome (done w) = some (w.log, w.table.fd_count)
outcome _ = none

-- Two clients come, the first is answered once, then the first hangs up.
two_clients :
    outcome (run_server kernel blank 3 polls)
    ≡ some (accepted 4 ∷ accepted 5 ∷ echoed 4 (104 ∷ 105 ∷ []) ∷ closed 4 ∷ [], 2)
unfolding run_server init serve scan visit accept_conn handle_accepted handler handle_received mark
    polled grow append_fd add_to_pfds del_from_pfds
two_clients = refl

pub kernel-Works : Works kernel 3
kernel-Works = record {
  new_fd = λ n fd e. ground (arith, some-injective (n + 4) fd e);
  memory = λ n. (blank, refl);
}

-- The listener at 3, and an entry that connection 6 left.
abbrev listening : Pollfd
listening = record { fd = 3; events = true; revents = true }

abbrev left : Pollfd
left = record { fd = 6; events = true; revents = true }
