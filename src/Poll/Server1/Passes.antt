-- ===== src/Poll/Server1/Passes.antt =====
-- The first poll server keeps the same books as the second one.
use socket_programming_c.Prelude.{
  ℕ, zero, suc, ◌+◌, ◌<◌, ◌≡◌, ◌≢◌, refl, ap, ◌∙◌, Bool, true, false, List, [], ◌∷◌, append-nil,
  Option, none, some, arith, length, replicate, get_elem?, get_elem?-some, get_elem?-append_left,
  All-get_elem?, Bytes, ◌==◌,
}
use socket_programming_c.Calls.{Received, failed, hung_up, bytes}
use socket_programming_c.Exits.{exit_with_system_msg, Keeps, Keeps-bind}
use socket_programming_c.Poll.Table.{Pollfd, Table}
use socket_programming_c.Poll.Server2.{
  Kernel, Event, echoed, World, note, called, scan, polled, init,
}
use socket_programming_c.Poll.Server2.Ledger.{
  Balanced, Works, opened_fds, closed_fds, opened_fds-append, closed_fds-append, del-Balanced,
  handle_accepted-Balanced,
}
use socket_programming_c.Poll.Server2.Passes.{
  Keeps-if, Balanced-called, Balanced-le, count-Balanced, pass-Balanced,
}
use socket_programming_c.Poll.Server2.Serving.{
  Accounted, polled-Balanced, Balanced-count, init-Balanced,
}
use socket_programming_c.Poll.Server1.{handle_accepted, handle_received, visit, serve, run_server}
use socket_programming_c.Poll.Server1.Sender.{sent, broadcast-sender}

no_opened : (n fd : ℕ) (buf : Bytes) → opened_fds (replicate n (echoed fd buf)) ≡ []
no_opened zero fd buf = refl
no_opened (suc n) fd buf = no_opened n fd buf

no_closed : (n fd : ℕ) (buf : Bytes) → closed_fds (replicate n (echoed fd buf)) ≡ []
no_closed zero fd buf = refl
no_closed (suc n) fd buf = no_closed n fd buf

sent-Balanced :
    (listener n m fd : ℕ) (buf : Bytes) (w : World)
    → Balanced listener n w
    → Balanced listener n (sent w (replicate m (echoed fd buf)))
sent-Balanced listener n m fd buf w b = record {
  first = b.first;
  rest = b.rest;
  spare = b.spare;
  shape = b.shape;
  bound = b.bound;
  listens = b.listens;
  clients = b.clients;
  ledger =
      rw
        (
          closed_fds-append w.log (replicate m (echoed fd buf)),
          opened_fds-append w.log (replicate m (echoed fd buf)),
          no_closed m fd buf,
          no_opened m fd buf,
          append-nil (closed_fds w.log),
          append-nil (opened_fds w.log),
        )
        b.ledger;
}

module _ (k : Kernel) (listener : ℕ) (works : Works k listener) where
  accepted-Balanced :
      (n : ℕ) (w : World) (o : Option ℕ)
      → Balanced listener n w
      → ((fd : ℕ) → o ≡ some fd → fd ≢ listener)
      → Keeps (Balanced listener (suc n)) (handle_accepted k listener w o)
  unfolding handle_accepted
  accepted-Balanced n w none b new =
      Balanced-le listener n (suc n) (called w) (omega arith) (Balanced-called listener n w b)
  accepted-Balanced n w (some newfd) b new =
      unfold socket_programming_c.Poll.Server2.handle_accepted in
      handle_accepted-Balanced k listener works n w (some newfd) b new

  received-Balanced :
      (n i : ℕ) (p : Pollfd) (w : World) (r : Received) (b : Balanced listener n w)
      → get_elem? b.rest i ≡ some p
      → get_elem? w.table.pfds (suc i) ≡ some p
      → p.fd ≢ listener
      → Keeps (Balanced listener n) (handle_received k listener (suc i) p.fd w r)
  unfolding handle_received
  received-Balanced n i p w failed b e f h = del-Balanced k listener works n i p w b e
  received-Balanced n i p w hung_up b e f h = del-Balanced k listener works n i p w b e
  received-Balanced n i p w (bytes c buf) b e f h =
      rw (broadcast-sender k listener w.table.fd_count (suc i) (c ∷ buf) w p f h)
        (sent-Balanced listener n w.table.fd_count p.fd (c ∷ buf) w b)

  visit-first :
      (n : ℕ) (w : World)
      → Balanced listener n w
      → Keeps (Balanced listener (suc n)) (visit k listener 0 w)
  unfolding visit
  visit-first n w b =
      let found : get_elem? w.table.pfds 0 ≡ some b.first =
        ap (λ (t : Table). get_elem? t.pfds 0) b.shape in
      let ours : (b.first.fd == listener) ≡ true = ground (arith, b.listens) in
      rw (found, ours)
        (Keeps-if (Balanced listener (suc n)) b.first.revents _ _
          (λ _. accepted-Balanced n w (k.accept w.calls) b (works.new_fd w.calls))
          (Balanced-le listener n (suc n) w (omega arith) b))

  visit-client :
      (n i : ℕ) (w : World) (b : Balanced listener n w)
      → i < length b.rest
      → Keeps (Balanced listener n) (visit k listener (suc i) w)
  unfolding visit
  visit-client n i w b l =
      let (p, e) = get_elem?-some b.rest i l in
      let found : get_elem? w.table.pfds (suc i) ≡ some p =
        ap (λ (t : Table). get_elem? t.pfds (suc i)) b.shape
        ∙ get_elem?-append_left b.rest b.spare i p e in
      let other : p.fd ≢ listener =
        All-get_elem? (λ (x : Pollfd). x.fd ≢ listener) b.rest i p b.clients e in
      let theirs : (p.fd == listener) ≡ false = ground arith in
      rw (found, theirs)
        (Keeps-if (Balanced listener n) p.revents _ _
          (λ _.
            received-Balanced n i p (called w) (k.recv w.calls p.fd)
              (Balanced-called listener n w b) e found other)
          b)

  visit-later :
      (n i : ℕ) (w : World)
      → Balanced listener n w
      → 0 < i
      → i < w.table.fd_count
      → Keeps (Balanced listener n) (visit k listener i w)
  visit-later n zero w b h l = elim h [ ]
  visit-later n (suc i) w b h l =
      visit-client n i w b (omega (arith, l, count-Balanced listener n w b))

  serve-Balanced :
      (polls : List (Option (List Bool))) (w : World)
      → Accounted listener w
      → Keeps (Accounted listener) (serve k listener polls w)
  unfolding serve
  serve-Balanced [] w b = b
  serve-Balanced (none ∷ polls) w b = unfold exit_with_system_msg in tt
  serve-Balanced (some ready ∷ polls) w b =
      Keeps-bind (Balanced listener (suc w.table.fd_count)) (Accounted listener)
        (scan (visit k listener) (w.table.fd_count + 2) 0 (polled ready w)) (serve k listener polls)
        (pass-Balanced listener (visit k listener)
          (record { first = visit-first; later = visit-later }) (w.table.fd_count + 2)
          w.table.fd_count (polled ready w) (polled-Balanced listener ready w.table.fd_count w b)
          (omega arith))
        (λ w' b'. serve-Balanced polls w' (Balanced-count listener (suc w.table.fd_count) w' b'))

-- The first poll server, too, never leaves its array, no pass of it runs on for ever, and if it
-- has not exited, then the listener is its first entry, no other entry is, and the accepted
-- descriptors are, up to order, those that were closed and those of the other entries. It is
-- assumed that `accept` does not bring the listener's descriptor and that memory does not run
-- out.
pub chat_server-Accounted :
    (k : Kernel) (listener : ℕ) (junk : ℕ → Pollfd) (polls : List (Option (List Bool)))
    → Works k listener
    → Keeps (Accounted listener) (run_server k junk (some listener) polls)
unfolding run_server
chat_server-Accounted k listener junk polls works =
    Keeps-bind (Balanced listener 1) (Accounted listener) (init junk listener)
      (serve k listener polls) (init-Balanced listener junk)
      (λ w b. serve-Balanced k listener works polls w (Balanced-count listener 1 w b))
