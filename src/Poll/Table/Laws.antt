-- ===== src/Poll/Table/Laws.antt =====
-- What the operations on the descriptor array do, in terms of the entries in use and the spare
-- ones.
use socket_programming_c.Prelude.{
  ℕ, zero, suc, ◌+◌, ◌-◌, ◌≤◌, ◌<◌, ◌≡◌, refl, sym, ap, true, false, List, [], ◌∷◌, ◌++◌,
  append_assoc, append-nil, Option, some, arith, length, length-append, length-set, set, set-append,
  ltb, lt→ltb, ◌==◌,
}
use socket_programming_c.Exits.{Run, done}
use socket_programming_c.Poll.Table.{
  Pollfd, Table, slots, grow, append_fd, add_to_pfds, del_from_pfds,
}
use socket_programming_c.Poll.Table.Perms.{get_elem?-length, set-last}

-- The array with these entries in use and these spare ones.
abbrev pub table : List Pollfd → List Pollfd → Table
table used spare = record {
  pfds = used ++ spare;
  fd_count = length used;
  fd_size = length used + length spare;
}

-- The entry that takes a new descriptor: `revents` is not written.
abbrev pub renewed : Pollfd → ℕ → Pollfd
renewed old newfd = record old { fd = newfd; events = true }

length-slots : (n : ℕ) (junk : ℕ → Pollfd) → length (slots n junk) ≡ n
length-slots zero junk = refl
length-slots (suc n) junk = ap suc (length-slots n junk)

table-path :
    (used spare : List Pollfd) (pfds : List Pollfd) (n m : ℕ)
    → pfds ≡ used ++ spare
    → n ≡ length used
    → m ≡ length used + length spare
    → ◌≡◌ {A = Run Table}
        (done (record { pfds = pfds; fd_count = n; fd_size = m }))
        (done (table used spare))
table-path used spare pfds n m e f g = ground arith

pub append_fd-table :
    (used spare : List Pollfd) (p : Pollfd) (newfd : ℕ)
    → append_fd newfd (table used (p ∷ spare)) ≡ done (table (used ++ renewed p newfd ∷ []) spare)
unfolding append_fd
append_fd-table used spare p newfd =
    let room : ltb (length used) (length (used ++ p ∷ spare)) ≡ true =
      lt→ltb _ _ (omega (arith, length-append used (p ∷ spare))) in
    let one : length (used ++ renewed p newfd ∷ []) ≡ length used + 1 =
      omega (arith, length-append used (renewed p newfd ∷ [])) in
    rw (get_elem?-length used spare p, room, set-append used spare p (renewed p newfd))
      (table-path (used ++ renewed p newfd ∷ []) spare _ _ _
        (sym (append_assoc used (renewed p newfd ∷ []) spare)) (omega arith) (omega arith))

slots-cons :
    (n : ℕ) (junk : ℕ → Pollfd)
    → 0 < n
    → (p : Pollfd) × (spare : List Pollfd) × (slots n junk ≡ p ∷ spare)
slots-cons zero junk h = elim h [ ]
slots-cons (suc n) junk h = (junk n, slots n junk, refl)

grow-table :
    (used : List Pollfd) (junk : ℕ → Pollfd)
    → grow (some junk) (table used []) ≡ done (table used (slots (length used) junk))
unfolding grow
grow-table used junk =
    let n : length used + 0 ≡ length used = omega arith in
    rw (append-nil used, n)
      (table-path used (slots (length used) junk) _ _ _ refl refl
        (omega (arith, length-slots (length used) junk)))

-- A full array is doubled first, with arbitrary contents, so there is always an entry to take.
pub add_to_pfds-full :
    (used : List Pollfd) (junk : ℕ → Pollfd) (newfd : ℕ)
    → 0 < length used
    → (p : Pollfd) × (spare : List Pollfd) × (add_to_pfds (some junk) newfd (table used [])
        ≡ done (table (used ++ renewed p newfd ∷ []) spare))
unfolding add_to_pfds
add_to_pfds-full used junk newfd h =
    let (p, spare, e) = slots-cons (length used) junk h in
    let full : (length used == length used + 0) ≡ true = ground arith in
    (p, spare, rw (full, grow-table used junk, e) (append_fd-table used spare p newfd))

pub add_to_pfds-room :
    (used spare : List Pollfd) (p : Pollfd) (fresh : Option (ℕ → Pollfd)) (newfd : ℕ)
    → add_to_pfds fresh newfd (table used (p ∷ spare))
      ≡ done (table (used ++ renewed p newfd ∷ []) spare)
unfolding add_to_pfds
add_to_pfds-room used spare p fresh newfd =
    let room : (length used == length used + suc (length spare)) ≡ false = ground arith in
    rw room (append_fd-table used spare p newfd)

pub del_from_pfds-table :
    (xs spare : List Pollfd) (z : Pollfd) (i : ℕ)
    → i ≤ length xs
    → del_from_pfds i (table (xs ++ z ∷ []) spare) ≡ done (table (set xs i z) (z ∷ spare))
unfolding del_from_pfds
del_from_pfds-table xs spare z i h =
    let e : length (xs ++ z ∷ []) ≡ length xs + 1 = omega (arith, length-append xs (z ∷ [])) in
    let at : length (xs ++ z ∷ []) - 1 ≡ length xs = omega arith in
    let n : length (xs ++ z ∷ spare) ≡ length xs + suc (length spare) =
      length-append xs (z ∷ spare) in
    let room : ltb i (length (xs ++ z ∷ spare)) ≡ true = lt→ltb _ _ (omega arith) in
    let same : length (set xs i z) ≡ length xs = length-set xs i z in
    rw
      (
        append_assoc xs (z ∷ []) spare,
        at,
        get_elem?-length xs spare z,
        room,
        set-last xs spare z i h,
      )
      (table-path (set xs i z) (z ∷ spare) _ _ _ refl (omega arith) (omega arith))
