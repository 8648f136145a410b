-- ===== src/Poll/Server2/Passes.antt =====
-- Every pass of the poll server ends, stays inside the array, and keeps the books.
use socket_programming_c.Prelude.{
  ℕ, zero, suc, ◌+◌, ◌≤◌, ◌<◌, ◌≡◌, ◌≢◌, refl, ap, ◌∙◌, Bool, true, false, some, arith, length,
  get_elem?, get_elem?-some, get_elem?-append_left, All-get_elem?, ltb, ltb→lt, ◌==◌, if◌then◌else◌,
}
use socket_programming_c.Exits.{Run, Keeps, Keeps-bind}
use socket_programming_c.Poll.Table.{Pollfd, Table}
use socket_programming_c.Poll.Server2.{Kernel, World, called, accept_conn, handler, visit, scan}
use socket_programming_c.Poll.Server2.Ledger.{
  Balanced, Works, handle_accepted-Balanced, handle_received-Balanced,
}

pub Keeps-if {ℓ} :
    {A : Type ℓ} (P : A → Type 0) (b : Bool) (m n : Run A)
    → (b ≡ true → Keeps P m)
    → Keeps P n
    → Keeps P (if b then m else n)
Keeps-if P true m n h k = h refl
Keeps-if P false m n h k = k

-- What a pass relies on of its body: entry 0 may add an entry, the others do not.
pub record Visits (listener : ℕ) (body : ℕ → World → Run World) : Type 0 where
  pub first :
      (n : ℕ) (w : World) → Balanced listener n w → Keeps (Balanced listener (suc n)) (body 0 w)
  pub later :
      (n i : ℕ) (w : World)
      → Balanced listener n w
      → 0 < i
      → i < w.table.fd_count
      → Keeps (Balanced listener n) (body i w)

module _ (listener : ℕ) where
  abbrev pub Balanced-called :
      (n : ℕ) (w : World) → Balanced listener n w → Balanced listener n (called w)
  Balanced-called n w b = record {
    first = b.first;
    rest = b.rest;
    spare = b.spare;
    shape = b.shape;
    bound = b.bound;
    listens = b.listens;
    clients = b.clients;
    ledger = b.ledger;
  }

  pub Balanced-le :
      (n m : ℕ) (w : World) → suc n ≤ suc m → Balanced listener n w → Balanced listener m w
  Balanced-le n m w h b = record {
    first = b.first;
    rest = b.rest;
    spare = b.spare;
    shape = b.shape;
    bound = omega (arith, b.bound);
    listens = b.listens;
    clients = b.clients;
    ledger = b.ledger;
  }

  pub count-Balanced :
      (n : ℕ) (w : World) (b : Balanced listener n w) → w.table.fd_count ≡ suc (length b.rest)
  count-Balanced n w b = ap (λ (t : Table). t.fd_count) b.shape

  module _ (k : Kernel) (works : Works k listener) where
    visit-first :
        (n : ℕ) (w : World)
        → Balanced listener n w
        → Keeps (Balanced listener (suc n)) (visit k listener 0 w)
    unfolding visit accept_conn
    visit-first n w b =
        let found : get_elem? w.table.pfds 0 ≡ some b.first =
          ap (λ (t : Table). get_elem? t.pfds 0) b.shape in
        let ours : (b.first.fd == listener) ≡ true = ground (arith, b.listens) in
        rw (found, ours)
          (Keeps-if (Balanced listener (suc n)) b.first.revents _ _
            (λ _.
              handle_accepted-Balanced k listener works n w (k.accept w.calls) b
                (works.new_fd w.calls))
            (Balanced-le n (suc n) w (omega arith) b))

    visit-client :
        (n i : ℕ) (w : World) (b : Balanced listener n w)
        → i < length b.rest
        → Keeps (Balanced listener n) (visit k listener (suc i) w)
    unfolding visit handler
    visit-client n i w b l =
        let (p, e) = get_elem?-some b.rest i l in
        let found : get_elem? w.table.pfds (suc i) ≡ some p =
          ap (λ (t : Table). get_elem? t.pfds (suc i)) b.shape
          ∙ get_elem?-append_left b.rest b.spare i p e in
        let theirs : (p.fd == listener) ≡ false =
          ground (arith, All-get_elem? (λ (x : Pollfd). x.fd ≢ listener) b.rest i p b.clients e) in
        rw (found, theirs)
          (Keeps-if (Balanced listener n) p.revents _ _
            (λ _.
              handle_received-Balanced k listener works n i p (called w) (k.recv w.calls p.fd)
                (Balanced-called n w b) e)
            b)

    visit-later :
        (n i : ℕ) (w : World)
        → Balanced listener n w
        → 0 < i
        → i < w.table.fd_count
        → Keeps (Balanced listener n) (visit k listener i w)
    visit-later n zero w b h l = elim h [ ]
    visit-later n (suc i) w b h l = visit-client n i w b (omega (arith, l, count-Balanced n w b))

    pub visits : Visits listener (visit k listener)
    visits = record { first = visit-first; later = visit-later }

module _ (listener : ℕ) (body : ℕ → World → Run World) (laws : Visits listener body) where
  -- The rounds behind the first one.
  scan-later :
      (fuel i n : ℕ) (w : World)
      → Balanced listener n w
      → 0 < fuel
      → 0 < i
      → n < fuel + i
      → Keeps (Balanced listener n) (scan body fuel i w)
  unfolding scan
  scan-later zero i n w b f h l = elim f [ ]
  scan-later (suc fuel) i n w b f h l =
      Keeps-if (Balanced listener n) (ltb i w.table.fd_count) _ _
        (λ e.
          let c : i < w.table.fd_count = ltb→lt i w.table.fd_count e in
          Keeps-bind (Balanced listener n) (Balanced listener n) (body i w) (scan body fuel (i + 1))
            (laws.later n i w b h c)
            (λ w' b'.
              scan-later fuel (i + 1) n w' b'
                (omega (arith, count-Balanced listener n w b, b.bound)) (omega arith)
                (omega arith)))
        b

  -- A pass: the first round adds an entry at most.
  pub pass-Balanced :
      (fuel n : ℕ) (w : World)
      → Balanced listener n w
      → suc n < fuel
      → Keeps (Balanced listener (suc n)) (scan body fuel 0 w)
  unfolding scan
  pass-Balanced zero n w b l = elim l [ ]
  pass-Balanced (suc fuel) n w b l =
      Keeps-if (Balanced listener (suc n)) (ltb 0 w.table.fd_count) _ _
        (λ e.
          Keeps-bind (Balanced listener (suc n)) (Balanced listener (suc n)) (body 0 w)
            (scan body fuel 1) (laws.first n w b)
            (λ w' b'. scan-later fuel 1 (suc n) w' b' (omega arith) (omega arith) (omega arith)))
        (Balanced-le listener n (suc n) w (omega arith) b)
