-- ===== src/Poll/Server2/Stale.antt =====
-- What `revents` holds of an entry that was just added: main and add_to_pfds of
-- Beej/ch07/poll_server2.c.
use socket_programming_c.Prelude.{ℕ, ◌+◌, List, [], ◌∷◌, ◌++◌}
use socket_programming_c.Poll.Table.{Pollfd, Table}
use socket_programming_c.Poll.Table.Laws.{table, renewed}
use socket_programming_c.Poll.Server2.{Event, accepted, World}

-- The server with a new connection behind the entries `used`.
abbrev pub grown : List Pollfd → Pollfd → List Pollfd → ℕ → List Event → ℕ → World
grown used p spare calls log newfd = record {
  table = table (used ++ renewed p newfd ∷ []) spare;
  calls = calls + 1;
  log = log ++ accepted newfd ∷ [];
}
