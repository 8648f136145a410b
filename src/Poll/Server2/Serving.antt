-- ===== src/Poll/Server2/Serving.antt =====
-- The poll server as a whole: from the start on, whatever its calls bring, it keeps its books.
use socket_programming_c.Prelude.{
  ℕ, suc, ◌+◌, ◌≡◌, ◌≢◌, refl, ap, ◌∙◌, Bool, true, false, List, [], ◌∷◌, ◌++◌, Option, none, some,
  arith, length, All,
}
use mathlib.Core.List.Perm
use socket_programming_c.Exits.{exit_with_system_msg, Keeps, Keeps-bind}
use socket_programming_c.Poll.Table.{Pollfd, Table, slots}
use socket_programming_c.Poll.Table.Laws.{table, append_fd-table}
use socket_programming_c.Poll.Server2.{
  Kernel, World, visit, scan, mark, polled, serve, init, run_server,
}
use socket_programming_c.Poll.Server2.Ledger.{Balanced, Works, fds}
use socket_programming_c.Poll.Server2.Passes.{visits, pass-Balanced, count-Balanced}

mark-append :
    (ready : List Bool) (used spare : List Pollfd)
    → mark (length used) ready (used ++ spare) ≡ mark (length used) ready used ++ spare
unfolding mark
mark-append ready [] spare = refl
mark-append [] (p ∷ used) spare =
    ap (λ (l : List Pollfd). record p { revents = false } ∷ l) (mark-append [] used spare)
mark-append (r ∷ ready) (p ∷ used) spare =
    ap (λ (l : List Pollfd). record p { revents = r } ∷ l) (mark-append ready used spare)

pub length-mark :
    (ready : List Bool) (used : List Pollfd) → length (mark (length used) ready used) ≡ length used
unfolding mark
length-mark ready [] = refl
length-mark [] (p ∷ used) = ap suc (length-mark [] used)
length-mark (r ∷ ready) (p ∷ used) = ap suc (length-mark ready used)

fds-mark : (ready : List Bool) (used : List Pollfd) → fds (mark (length used) ready used) ≡ fds used
unfolding mark
fds-mark ready [] = refl
fds-mark [] (p ∷ used) = ap (λ (l : List ℕ). p.fd ∷ l) (fds-mark [] used)
fds-mark (r ∷ ready) (p ∷ used) = ap (λ (l : List ℕ). p.fd ∷ l) (fds-mark ready used)

All-mark :
    (listener : ℕ) (ready : List Bool) (used : List Pollfd)
    → All (λ (p : Pollfd). p.fd ≢ listener) used
    → All (λ (p : Pollfd). p.fd ≢ listener) (mark (length used) ready used)
unfolding mark
All-mark listener ready [] h = tt
All-mark listener [] (p ∷ used) (hp, h) = (hp, All-mark listener [] used h)
All-mark listener (r ∷ ready) (p ∷ used) (hp, h) = (hp, All-mark listener ready used h)

-- What `poll` makes of the first entry and of the others.
mark-cons :
    (ready : List Bool) (p : Pollfd) (used : List Pollfd)
    → (r : Bool) × (more : List Bool) × (mark (suc (length used)) ready (p ∷ used)
        ≡ record p { revents = r } ∷ mark (length used) more used)
unfolding mark
mark-cons [] p used = (false, [], refl)
mark-cons (r ∷ ready) p used = (r, ready, refl)

pub table-mark :
    (ready : List Bool) (used spare : List Pollfd)
    → ◌≡◌ {A = Table}
        (record {
          pfds = mark (length used) ready (used ++ spare);
          fd_count = length used;
          fd_size = length used + length spare;
        })
        (table (mark (length used) ready used) spare)
table-mark ready used spare = ground (arith, mark-append ready used spare, length-mark ready used)

module _ (listener : ℕ) where
  pub polled-Balanced :
      (ready : List Bool) (n : ℕ) (w : World)
      → Balanced listener n w
      → Balanced listener n (polled ready w)
  unfolding polled
  polled-Balanced ready n w b =
      let (r, more, e) = mark-cons ready b.first b.rest in
      record {
        first = record b.first { revents = r };
        rest = mark (length b.rest) more b.rest;
        spare = b.spare;
        shape =
            ap (λ (t : Table). record t { pfds = mark t.fd_count ready t.pfds }) b.shape
            ∙ table-mark ready (b.first ∷ b.rest) b.spare
            ∙ ap (λ (l : List Pollfd). table l b.spare) e;
        bound = omega (arith, b.bound, length-mark more b.rest);
        listens = b.listens;
        clients = All-mark listener more b.rest b.clients;
        ledger = rw fds-mark b.ledger;
      }

  -- The bound is met with equality.
  pub Balanced-count :
      (n : ℕ) (w : World) → Balanced listener n w → Balanced listener w.table.fd_count w
  Balanced-count n w b = record {
    first = b.first;
    rest = b.rest;
    spare = b.spare;
    shape = b.shape;
    bound = omega (arith, count-Balanced listener n w b);
    listens = b.listens;
    clients = b.clients;
    ledger = b.ledger;
  }

  -- The start has the listener alone.
  pub init-Balanced : (junk : ℕ → Pollfd) → Keeps (Balanced listener 1) (init junk listener)
  unfolding init
  init-Balanced junk = rw (append_fd-table [] (slots 4 junk) (junk 4) listener) (record {
    first = record (junk 4) { fd = listener; events = true };
    rest = [];
    spare = slots 4 junk;
    shape = refl;
    bound = omega arith;
    listens = refl;
    clients = tt;
    ledger = Perm.refl [];
  })

  abbrev pub Accounted : World → Type 0
  Accounted w = Balanced listener w.table.fd_count w

  module _ (k : Kernel) (works : Works k listener) where
    serve-Balanced :
        (polls : List (Option (List Bool))) (w : World)
        → Accounted w
        → Keeps Accounted (serve k listener polls w)
    unfolding serve
    serve-Balanced [] w b = b
    serve-Balanced (none ∷ polls) w b = unfold exit_with_system_msg in tt
    serve-Balanced (some ready ∷ polls) w b =
        Keeps-bind (Balanced listener (suc w.table.fd_count)) Accounted
          (scan (visit k listener) (w.table.fd_count + 2) 0 (polled ready w))
          (serve k listener polls)
          (pass-Balanced listener (visit k listener) (visits listener k works)
            (w.table.fd_count + 2) w.table.fd_count (polled ready w)
            (polled-Balanced ready w.table.fd_count w b) (omega arith))
          (λ w' b'. serve-Balanced polls w' (Balanced-count (suc w.table.fd_count) w' b'))

-- However many connections come and go and whatever `poll`, `accept` and `recv` bring, the poll
-- server never leaves its array, no pass of it runs on for ever, and if it has not exited, then
-- the listener is its first entry, no other entry is, and the accepted descriptors are, up to
-- order, those that were closed and those of the other entries: none is lost and none is closed
-- twice. It is assumed that `accept` does not bring the listener's descriptor and that memory
-- does not run out.
pub run_server-Accounted :
    (k : Kernel) (listener : ℕ) (junk : ℕ → Pollfd) (polls : List (Option (List Bool)))
    → Works k listener
    → Keeps (Accounted listener) (run_server k junk listener polls)
unfolding run_server
run_server-Accounted k listener junk polls works =
    Keeps-bind (Balanced listener 1) (Accounted listener) (init junk listener)
      (serve k listener polls) (init-Balanced listener junk)
      (λ w b. serve-Balanced listener k works polls w (Balanced-count listener 1 w b))
