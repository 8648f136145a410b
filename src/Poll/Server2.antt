-- ===== src/Poll/Server2.antt =====
-- The loop of Beej/ch07/poll_server2.c: an echo server for many connections in one process.
pub mod Ledger
pub mod Passes
pub mod Serving
pub mod Stale
pub mod Examples
use socket_programming_c.Prelude.{
  ℕ, zero, suc, ◌+◌, ◌-◌, Bool, true, false, List, [], ◌∷◌, ◌++◌, Option, none, some, Bytes, codes,
  ltb, ◌==◌, if◌then◌else◌,
}
use socket_programming_c.Calls.{Received, failed, hung_up, bytes}
use socket_programming_c.Exits.{Run, done, undefined, out_of_fuel, exit_with_system_msg, ◌>>=◌}
use socket_programming_c.Poll.Table.{
  Pollfd, Table, entry, slots, append_fd, add_to_pfds, del_from_pfds,
}

-- The results of the system calls, each by the number of calls made before. `accept` is `none`
-- for -1. `fresh` is what `realloc` brings for new entries (`none` for NULL), and `reason` the
-- text of errno.
pub record Kernel : Type 0 where
  pub accept : ℕ → Option ℕ
  pub recv : ℕ → ℕ → Received
  pub fresh : ℕ → Option (ℕ → Pollfd)
  pub reason : ℕ → Bytes

-- The calls that open, close and answer connections.
pub data Event : Type 0 where
  accepted closed : ℕ → Event
  echoed : ℕ → Bytes → Event

pub record World : Type 0 where
  pub table : Table
  pub calls : ℕ
  pub log : List Event

abbrev pub note : World → Event → World
note w e = record w { log = w.log ++ e ∷ [] }

-- A call was made.
abbrev pub called : World → World
called w = record w { calls = w.calls + 1 }

-- perror(msg); exit(EXIT_FAILURE);
abbrev pub die {ℓ} : {A : Type ℓ} → Bytes → Bytes → Run A
die = exit_with_system_msg

module _ (k : Kernel) where
  -- What is done with the result of `accept`.
  unfoldable pub handle_accepted : World → Option ℕ → Run World
  handle_accepted w none = die (codes "accept()") (k.reason w.calls)
  handle_accepted w (some newfd) = do
    table ← add_to_pfds (k.fresh w.calls) newfd w.table
    done (note (called (record w { table = table })) (accepted newfd))

  unfoldable pub accept_conn : World → Run World
  accept_conn w = handle_accepted w (k.accept w.calls)

  -- What is done with the result of `recv`; what `send` returns is only printed.
  unfoldable pub handle_received : ℕ → ℕ → World → Received → Run World
  handle_received i sender w (bytes c buf) = done (note w (echoed sender (c ∷ buf)))
  handle_received i sender w failed = do
    table ← del_from_pfds i w.table
    done (note (record w { table = table }) (closed sender))
  handle_received i sender w hung_up = do
    table ← del_from_pfds i w.table
    done (note (record w { table = table }) (closed sender))

  unfoldable pub handler : ℕ → World → Run World
  handler i w = do p ← entry w.table i; handle_received i p.fd (called w) (k.recv w.calls p.fd)

  module _ (listener : ℕ) where
    -- The body of the loop over the entries.
    unfoldable pub visit : ℕ → World → Run World
    visit i w = do
      p ← entry w.table i
      if p.revents then (if p.fd == listener then accept_conn w else handler i w) else done w

-- for (int i = 0; i < fd_count; ++i): the bound is read anew in each round. The body is a
-- parameter, since the first poll server has the same loop.
unfoldable pub scan : (ℕ → World → Run World) → ℕ → ℕ → World → Run World
scan body zero i w = out_of_fuel
scan body (suc fuel) i w =
    let round : Run World = body i w >>= scan body fuel (i + 1) in
    if ltb i w.table.fd_count then round else done w

-- `poll` writes `revents` of the entries in use.
unfoldable pub mark : ℕ → List Bool → List Pollfd → List Pollfd
mark zero ready pfds = pfds
mark (suc n) ready [] = []
mark (suc n) [] (p ∷ pfds) = record p { revents = false } ∷ mark n [] pfds
mark (suc n) (r ∷ ready) (p ∷ pfds) = record p { revents = r } ∷ mark n ready pfds

unfoldable pub polled : List Bool → World → World
polled ready w = record w {
  table = record w.table { pfds = mark w.table.fd_count ready w.table.pfds };
}

module _ (k : Kernel) (listener : ℕ) where
  -- while (1) over the results of `poll`: `none` is -1. A pass visits one entry more than there
  -- are at most, since one `accept` at most is made in it.
  unfoldable pub serve : List (Option (List Bool)) → World → Run World
  serve [] w = done w
  serve (none ∷ more) w = die (codes "poll()") (k.reason w.calls)
  serve (some ready ∷ more) w =
      scan (visit k listener) (w.table.fd_count + 2) 0 (polled ready w) >>= serve more

-- The array that `malloc` brings, with the listener as its first entry.
unfoldable pub init : (ℕ → Pollfd) → ℕ → Run World
init junk listener = do
  table ← append_fd listener (record { pfds = slots 5 junk; fd_count = 0; fd_size = 5 })
  done (record { table = table; calls = 0; log = [] })

-- main, from the listening socket on.
unfoldable pub run_server : Kernel → (ℕ → Pollfd) → ℕ → List (Option (List Bool)) → Run World
run_server k junk listener polls = do w ← init junk listener; serve k listener polls w
