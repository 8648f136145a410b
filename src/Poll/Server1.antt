-- ===== src/Poll/Server1.antt =====
-- The loop of Beej/ch07/poll_server.c, which is meant to send what a client says to the others.
-- Its add_to_pfds and del_from_pfds have the text of those of poll_server2.c.
pub mod Sender
pub mod Passes
pub mod Examples
use socket_programming_c.Prelude.{
  ℕ, zero, suc, ◌+◌, ◌-◌, Bool, true, false, List, [], ◌∷◌, ◌++◌, Option, none, some, Bytes, codes,
  ltb, ◌==◌, not, if◌then◌else◌, newline,
}
use socket_programming_c.Calls.{Received, failed, hung_up, bytes}
use socket_programming_c.Exits.{Run, done, exit_failure, undefined, out_of_fuel, ◌>>=◌}
use socket_programming_c.Poll.Table.{Pollfd, Table, entry, add_to_pfds, del_from_pfds}
use socket_programming_c.Poll.Server2.{
  Kernel, Event, accepted, closed, echoed, World, note, called, die, scan, polled, init,
}

module _ (k : Kernel) (listener : ℕ) where
  -- What is done with the result of `accept`; a failure is only printed.
  unfoldable pub handle_accepted : World → Option ℕ → Run World
  handle_accepted w none = done (called w)
  handle_accepted w (some newfd) = do
    table ← add_to_pfds (k.fresh w.calls) newfd w.table
    done (note (called (record w { table = table })) (accepted newfd))

  -- The body of the loop that sends: `dest_fd` is read at `i`, not at `j`.
  unfoldable pub send_to : ℕ → Bytes → World → Run World
  send_to i buf w = do
    dest ← entry w.table i
    if dest.fd == listener then done w else done (note w (echoed dest.fd buf))

  -- for (int j = 0; j < fd_count; ++j), with the rounds that are left.
  unfoldable pub broadcast : ℕ → ℕ → Bytes → World → Run World
  broadcast zero i buf w = done w
  broadcast (suc rounds) i buf w = do w' ← send_to i buf w; broadcast rounds i buf w'

  -- What is done with the result of `recv`.
  unfoldable pub handle_received : ℕ → ℕ → World → Received → Run World
  handle_received i sender w (bytes c buf) = broadcast w.table.fd_count i (c ∷ buf) w
  handle_received i sender w failed = do
    table ← del_from_pfds i w.table
    done (note (record w { table = table }) (closed sender))
  handle_received i sender w hung_up = do
    table ← del_from_pfds i w.table
    done (note (record w { table = table }) (closed sender))

  -- The body of the loop over the entries.
  unfoldable pub visit : ℕ → World → Run World
  visit i w = do
    p ← entry w.table i
    if p.revents
        then (if p.fd == listener
            then handle_accepted w (k.accept w.calls)
            else handle_received i p.fd (called w) (k.recv w.calls p.fd))
        else done w

  -- while (1) over the results of `poll`.
  unfoldable pub serve : List (Option (List Bool)) → World → Run World
  serve [] w = done w
  serve (none ∷ more) w = die (codes "poll") (k.reason w.calls)
  serve (some ready ∷ more) w = scan visit (w.table.fd_count + 2) 0 (polled ready w) >>= serve more

-- main, from the listening socket on; `none` is -1.
unfoldable pub run_server : Kernel → (ℕ → Pollfd) → Option ℕ → List (Option (List Bool)) → Run World
run_server k junk none polls = exit_failure (codes "error getting listening socket" ++ newline ∷ [])
run_server k junk (some listener) polls = do w ← init junk listener; serve k listener polls w
