-- ===== src/Poll/Table.antt =====
-- The array of descriptors that is handed to `poll`: add_to_pfds and del_from_pfds of
-- Beej/ch07/poll_server2.c. The array has `fd_size` entries, the first `fd_count` of which are
-- in use.
pub mod Perms
pub mod Laws
use socket_programming_c.Prelude.{
  ℕ, zero, suc, [], ◌∷◌, ◌+◌, ◌-◌, ◌*◌, Bool, true, List, ◌++◌, Option, none, some, length,
  get_elem?, set, take, map, ltb, ◌==◌, if◌then◌else◌,
}
use socket_programming_c.Exits.{Run, done, undefined, ◌>>=◌}

-- Of `events` and `revents` the bit POLLIN.
pub record Pollfd : Type 0 where
  pub fd : ℕ
  pub events : Bool
  pub revents : Bool

pub record Table : Type 0 where
  pub pfds : List Pollfd
  pub fd_count : ℕ
  pub fd_size : ℕ

abbrev pub inside : Option Pollfd → Run Pollfd
inside none = undefined
inside (some p) = done p

-- pfds[i]
abbrev pub entry : Table → ℕ → Run Pollfd
entry t i = inside (get_elem? t.pfds i)

-- pfds[i] = p
abbrev pub put_entry : Table → ℕ → Pollfd → Run Table
put_entry t i p =
    if ltb i (length t.pfds) then done (record t { pfds = set t.pfds i p }) else undefined

-- Entries with arbitrary contents.
abbrev pub slots : ℕ → (ℕ → Pollfd) → List Pollfd
slots zero junk = []
slots (suc n) junk = junk n ∷ slots n junk

-- `realloc` keeps the entries and puts `fd_size` more behind them, with any contents. `none` is
-- NULL.
unfoldable pub grow : Option (ℕ → Pollfd) → Table → Run Table
grow none t = undefined
grow (some junk) t =
    done (record t { pfds = t.pfds ++ slots t.fd_size junk; fd_size = t.fd_size * 2 })

-- The entry behind those in use gets the descriptor. Its `revents` stays what it was.
unfoldable pub append_fd : ℕ → Table → Run Table
append_fd newfd t = do
  old ← entry t t.fd_count
  t' ← put_entry t t.fd_count (record old { fd = newfd; events = true })
  done (record t' { fd_count = t'.fd_count + 1 })

unfoldable pub add_to_pfds : Option (ℕ → Pollfd) → ℕ → Table → Run Table
add_to_pfds fresh newfd t =
    if t.fd_count == t.fd_size then grow fresh t >>= append_fd newfd else append_fd newfd t

-- The last entry in use replaces entry `i`.
unfoldable pub del_from_pfds : ℕ → Table → Run Table
del_from_pfds i t = do
  last ← entry t (t.fd_count - 1)
  t' ← put_entry t i last
  done (record t' { fd_count = t'.fd_count - 1 })
