-- ===== src/Poll/Server1/Examples.antt =====
-- Runs of the first poll server, and its theorems at concrete inputs.
use mathlib.Core.Option.{some-injective}
use socket_programming_c.Prelude.{
  ℕ, ◌+◌, ◌≡◌, refl, Bool, true, false, List, [], ◌∷◌, Option, some, none, arith, replicate,
}
use socket_programming_c.Calls.{bytes}
use socket_programming_c.Exits.{Run, done}
use socket_programming_c.Poll.Table.{Pollfd, grow, append_fd, add_to_pfds, del_from_pfds}
use socket_programming_c.Poll.Table.Laws.{table}
use socket_programming_c.Poll.Server2.{
  Kernel, Event, accepted, echoed, World, called, scan, mark, polled, init,
}
use socket_programming_c.Poll.Server2.Ledger.{Works}
use socket_programming_c.Poll.Server1.{
  handle_accepted, send_to, broadcast, handle_received, visit, serve, run_server,
}
use socket_programming_c.Poll.Server1.Sender.{sent, visit-sender}

abbrev blank : ℕ → Pollfd
blank i = record { fd = 0; events = false; revents = false }

abbrev kernel : Kernel
kernel = record {
  accept = λ n. some (n + 4);
  recv = λ n fd. bytes 104 (105 ∷ []);
  fresh = λ n. some blank;
  reason = λ n. [];
}

abbrev polls : List (Option (List Bool))
polls = some (true ∷ []) ∷ some (true ∷ []) ∷ some (false ∷ true ∷ []) ∷ []

abbrev outcome : Run World → Option (List Event)
outcome (done w) = some w.log
outcome _ = none

-- Two clients come, and the first says "hi": it hears it three times, the second never.
two_clients :
    outcome (run_server kernel blank (some 3) polls)
    ≡ some (accepted 4 ∷ accepted 5 ∷ replicate 3 (echoed 4 (104 ∷ 105 ∷ [])))
unfolding run_server init serve scan visit handle_accepted handle_received broadcast send_to mark
    polled grow append_fd add_to_pfds del_from_pfds
two_clients = refl

kernel-Works : Works kernel 3
kernel-Works = record {
  new_fd = λ n fd e. ground (arith, some-injective (n + 4) fd e);
  memory = λ n. (blank, refl);
}

abbrev listening : Pollfd
listening = record { fd = 3; events = true; revents = false }

abbrev speaker : Pollfd
speaker = record { fd = 4; events = true; revents = true }

abbrev silent : Pollfd
silent = record { fd = 5; events = true; revents = false }

abbrev talking : World
talking = record { table = table (listening ∷ speaker ∷ silent ∷ []) []; calls = 2; log = [] }

visit-sender_example :
    visit kernel 3 1 talking
    ≡ done (sent (called talking) (replicate 3 (echoed 4 (104 ∷ 105 ∷ []))))
visit-sender_example =
    visit-sender kernel 3 1 talking speaker 104 (105 ∷ []) refl refl (omega arith) refl
