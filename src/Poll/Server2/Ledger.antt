-- ===== src/Poll/Server2/Ledger.antt =====
-- One visit of the poll server keeps its books: the listener stands first, the other entries in
-- use are the connections that were accepted and not closed.
use mathlib.Core.List.{Perm, map-append}
use mathlib.Core.List.Perm
use mathlib.Core.Path.{ap₂}
use socket_programming_c.Prelude.{
  ℕ, suc, ◌≤◌, ◌≡◌, ◌≢◌, refl, ap, ◌∙◌, List, [], ◌∷◌, ◌++◌, append_assoc, append-nil, Option, none,
  some, arith, length, length-append, length-set, get_elem?, get_elem?-lt, set, map, All,
  All-append, All-append_left, All-append_right, All-set,
}
use socket_programming_c.Calls.{Received, failed, hung_up, bytes}
use socket_programming_c.Exits.{done, exit_with_system_msg, Keeps, ◌>>=◌}
use socket_programming_c.Poll.Table.{Pollfd, add_to_pfds, del_from_pfds}
use socket_programming_c.Poll.Table.Perms.{swap_remove-perm, last_of}
use socket_programming_c.Poll.Table.Laws.{
  table, renewed, add_to_pfds-full, add_to_pfds-room, del_from_pfds-table,
}
use socket_programming_c.Poll.Server2.{
  Kernel, Event, accepted, closed, echoed, World, note, handle_accepted, handle_received,
}

abbrev pub fds : List Pollfd → List ℕ
fds = map (λ p. p.fd)

-- The descriptors that were accepted, and those that were closed.
abbrev pub opened_fds : List Event → List ℕ
opened_fds [] = []
opened_fds (accepted fd ∷ log) = fd ∷ opened_fds log
opened_fds (closed fd ∷ log) = opened_fds log
opened_fds (echoed fd buf ∷ log) = opened_fds log

abbrev pub closed_fds : List Event → List ℕ
closed_fds [] = []
closed_fds (accepted fd ∷ log) = closed_fds log
closed_fds (closed fd ∷ log) = fd ∷ closed_fds log
closed_fds (echoed fd buf ∷ log) = closed_fds log

-- The books of a server that listens on `listener`, with at most `n` entries in use.
pub record Balanced (listener n : ℕ) (w : World) : Type 0 where
  pub first : Pollfd
  pub rest : List Pollfd
  pub spare : List Pollfd
  pub shape : w.table ≡ table (first ∷ rest) spare
  pub bound : suc (length rest) ≤ n
  pub listens : first.fd ≡ listener
  pub clients : All (λ p. p.fd ≢ listener) rest
  pub ledger : Perm (closed_fds w.log ++ fds rest) (opened_fds w.log)

-- What `accept` and `realloc` are relied on for: a descriptor that is not the listener's, and
-- memory.
pub record Works (k : Kernel) (listener : ℕ) : Type 0 where
  pub new_fd : (n fd : ℕ) → k.accept n ≡ some fd → fd ≢ listener
  pub memory : (n : ℕ) → (junk : ℕ → Pollfd) × (k.fresh n ≡ some junk)

pub opened_fds-append :
    (log more : List Event) → opened_fds (log ++ more) ≡ opened_fds log ++ opened_fds more
opened_fds-append [] more = refl
opened_fds-append (accepted fd ∷ log) more =
    ap (λ (l : List ℕ). fd ∷ l) (opened_fds-append log more)
opened_fds-append (closed fd ∷ log) more = opened_fds-append log more
opened_fds-append (echoed fd buf ∷ log) more = opened_fds-append log more

pub closed_fds-append :
    (log more : List Event) → closed_fds (log ++ more) ≡ closed_fds log ++ closed_fds more
closed_fds-append [] more = refl
closed_fds-append (accepted fd ∷ log) more = closed_fds-append log more
closed_fds-append (closed fd ∷ log) more = ap (λ (l : List ℕ). fd ∷ l) (closed_fds-append log more)
closed_fds-append (echoed fd buf ∷ log) more = closed_fds-append log more

-- Behind an accepted connection.
ledger-accepted :
    (log : List Event) (rest : List Pollfd) (p : Pollfd)
    → Perm (closed_fds log ++ fds rest) (opened_fds log)
    → Perm
        (closed_fds (log ++ accepted p.fd ∷ []) ++ fds (rest ++ p ∷ []))
        (opened_fds (log ++ accepted p.fd ∷ []))
ledger-accepted log rest p h =
    rw
      (
        closed_fds-append log (accepted p.fd ∷ []),
        opened_fds-append log (accepted p.fd ∷ []),
        append-nil (closed_fds log),
        map-append (λ (x : Pollfd). x.fd) rest (p ∷ []),
        ← append_assoc (closed_fds log) (fds rest) (p.fd ∷ []),
      )
      (Perm.append_right (p.fd ∷ []) h)

-- Behind a closed one.
ledger-closed :
    (log : List Event) (rest rest' : List Pollfd) (p : Pollfd)
    → Perm (p ∷ rest') rest
    → Perm (closed_fds log ++ fds rest) (opened_fds log)
    → Perm
        (closed_fds (log ++ closed p.fd ∷ []) ++ fds rest')
        (opened_fds (log ++ closed p.fd ∷ []))
ledger-closed log rest rest' p q h =
    rw
      (
        closed_fds-append log (closed p.fd ∷ []),
        opened_fds-append log (closed p.fd ∷ []),
        append-nil (opened_fds log),
        append_assoc (closed_fds log) (p.fd ∷ []) (fds rest'),
      )
      (Perm.trans (Perm.append_left (closed_fds log) (Perm.map (λ (x : Pollfd). x.fd) q)) h)

add_to_pfds-table :
    (first : Pollfd) (rest spare : List Pollfd) (junk : ℕ → Pollfd) (newfd : ℕ)
    → (p : Pollfd) × (spare' : List Pollfd) × (add_to_pfds
          (some junk)
          newfd
          (table (first ∷ rest) spare)
        ≡ done (table (first ∷ (rest ++ renewed p newfd ∷ [])) spare'))
add_to_pfds-table first rest [] junk newfd =
    add_to_pfds-full (first ∷ rest) junk newfd (omega arith)
add_to_pfds-table first rest (p ∷ spare) junk newfd =
    (p, spare, add_to_pfds-room (first ∷ rest) spare p (some junk) newfd)

module _ (k : Kernel) (listener : ℕ) (works : Works k listener) where
  pub handle_accepted-Balanced :
      (n : ℕ) (w : World) (o : Option ℕ)
      → Balanced listener n w
      → ((fd : ℕ) → o ≡ some fd → fd ≢ listener)
      → Keeps (Balanced listener (suc n)) (handle_accepted k w o)
  handle_accepted-Balanced n w none b new = unfold handle_accepted exit_with_system_msg in tt
  handle_accepted-Balanced n w (some newfd) b new =
      let (junk, m) = works.memory w.calls in
      let (p, spare', e) = add_to_pfds-table b.first b.rest b.spare junk newfd in
      let added : add_to_pfds (k.fresh w.calls) newfd w.table
          ≡ done (table (b.first ∷ (b.rest ++ renewed p newfd ∷ [])) spare') =
        ap₂ (λ f t. add_to_pfds f newfd t) m b.shape ∙ e in
      unfold handle_accepted in
      rw added (record {
        first = b.first;
        rest = b.rest ++ renewed p newfd ∷ [];
        spare = spare';
        shape = refl;
        bound = omega (arith, b.bound, length-append b.rest (renewed p newfd ∷ []));
        listens = b.listens;
        clients =
            All-append (λ (x : Pollfd). x.fd ≢ listener) b.rest (renewed p newfd ∷ []) b.clients
              (new newfd refl, tt);
        ledger = ledger-accepted w.log b.rest (renewed p newfd) b.ledger;
      })

  -- Entry `i` of the connections is closed, and the last one moves into its place.
  pub del-Balanced :
      (n i : ℕ) (p : Pollfd) (w : World) (b : Balanced listener n w)
      → get_elem? b.rest i ≡ some p
      → Keeps (Balanced listener n) (
          del_from_pfds (suc i) w.table >>= λ t. done (note (record w { table = t }) (closed p.fd)))
  del-Balanced n i p w b e =
      let (ys, z, f, l) = last_of b.rest i (get_elem?-lt b.rest i p e) in
      let removed : del_from_pfds (suc i) w.table
          ≡ done (table (b.first ∷ set ys i z) (z ∷ b.spare)) =
        ap (del_from_pfds (suc i)) b.shape
        ∙ ap (λ (r : List Pollfd). del_from_pfds (suc i) (table (b.first ∷ r) b.spare)) f
        ∙ del_from_pfds-table (b.first ∷ ys) b.spare z (suc i) (omega arith) in
      let others : All (λ (x : Pollfd). x.fd ≢ listener) (ys ++ z ∷ []) = rw f at b.clients in
      let moved : Perm (p ∷ set ys i z) b.rest = rw f (swap_remove-perm ys z i p (rw f at e)) in
      rw removed (record {
        first = b.first;
        rest = set ys i z;
        spare = z ∷ b.spare;
        shape = refl;
        bound = omega (
          arith,
          b.bound,
          length-set ys i z,
          length-append ys (z ∷ []),
          ap (λ (r : List Pollfd). length r) f,
        );
        listens = b.listens;
        clients =
            All-set (λ (x : Pollfd). x.fd ≢ listener) ys i z
              (All-append_left (λ (x : Pollfd). x.fd ≢ listener) ys (z ∷ []) others)
              (All-append_right (λ (x : Pollfd). x.fd ≢ listener) ys (z ∷ []) others).0;
        ledger = ledger-closed w.log b.rest (set ys i z) p moved b.ledger;
      })

  pub handle_received-Balanced :
      (n i : ℕ) (p : Pollfd) (w : World) (r : Received) (b : Balanced listener n w)
      → get_elem? b.rest i ≡ some p
      → Keeps (Balanced listener n) (handle_received k (suc i) p.fd w r)
  handle_received-Balanced n i p w failed b e = unfold handle_received in del-Balanced n i p w b e
  handle_received-Balanced n i p w hung_up b e = unfold handle_received in del-Balanced n i p w b e
  handle_received-Balanced n i p w (bytes c buf) b e =
      unfold handle_received in
      record {
        first = b.first;
        rest = b.rest;
        spare = b.spare;
        shape = b.shape;
        bound = b.bound;
        listens = b.listens;
        clients = b.clients;
        ledger =
            rw
              (
                closed_fds-append,
                opened_fds-append,
                append-nil (closed_fds w.log),
                append-nil (opened_fds w.log),
              )
              b.ledger;
      }
