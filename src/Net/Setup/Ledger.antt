-- ===== src/Net/Setup/Ledger.antt =====
-- The descriptors that the loops over the addresses leave open.
use mathlib.Core.List.{Perm}
use mathlib.Core.List.Perm
use socket_programming_c.Prelude.{
  ℕ, ◌≡◌, refl, ap, true, false, List, [], ◌∷◌, ◌++◌, append-nil, Option,
}
use socket_programming_c.Net.Setup.{
  State, Event, opened, closed, bound, listening, connected, Round, unless_stopped, try_all,
}

abbrev pub opened_fds : List Event → List ℕ
opened_fds [] = []
opened_fds (opened fd ∷ log) = fd ∷ opened_fds log
opened_fds (closed fd ∷ log) = opened_fds log
opened_fds (bound fd ∷ log) = opened_fds log
opened_fds (listening fd ∷ log) = opened_fds log
opened_fds (connected fd ∷ log) = opened_fds log

abbrev pub closed_fds : List Event → List ℕ
closed_fds [] = []
closed_fds (opened fd ∷ log) = closed_fds log
closed_fds (closed fd ∷ log) = fd ∷ closed_fds log
closed_fds (bound fd ∷ log) = closed_fds log
closed_fds (listening fd ∷ log) = closed_fds log
closed_fds (connected fd ∷ log) = closed_fds log

pub opened_fds-append :
    (log more : List Event) → opened_fds (log ++ more) ≡ opened_fds log ++ opened_fds more
opened_fds-append [] more = refl
opened_fds-append (opened fd ∷ log) more = ap (λ (l : List ℕ). fd ∷ l) (opened_fds-append log more)
opened_fds-append (closed fd ∷ log) more = opened_fds-append log more
opened_fds-append (bound fd ∷ log) more = opened_fds-append log more
opened_fds-append (listening fd ∷ log) more = opened_fds-append log more
opened_fds-append (connected fd ∷ log) more = opened_fds-append log more

pub closed_fds-append :
    (log more : List Event) → closed_fds (log ++ more) ≡ closed_fds log ++ closed_fds more
closed_fds-append [] more = refl
closed_fds-append (opened fd ∷ log) more = closed_fds-append log more
closed_fds-append (closed fd ∷ log) more = ap (λ (l : List ℕ). fd ∷ l) (closed_fds-append log more)
closed_fds-append (bound fd ∷ log) more = closed_fds-append log more
closed_fds-append (listening fd ∷ log) more = closed_fds-append log more
closed_fds-append (connected fd ∷ log) more = closed_fds-append log more

-- The open descriptors are, up to order, those of the list.
abbrev pub Open : List ℕ → List Event → Type 0
Open held log = Perm (closed_fds log ++ held) (opened_fds log)

pub Open-opened : (fd : ℕ) (log : List Event) → Open [] log → Open (fd ∷ []) (log ++ opened fd ∷ [])
Open-opened fd log h =
    rw
      (
        closed_fds-append log (opened fd ∷ []),
        opened_fds-append log (opened fd ∷ []),
        append-nil (closed_fds log),
      )
      (Perm.append_right (fd ∷ []) (rw (append-nil (closed_fds log)) at h))

pub Open-closed : (fd : ℕ) (log : List Event) → Open (fd ∷ []) log → Open [] (log ++ closed fd ∷ [])
Open-closed fd log h =
    rw
      (
        closed_fds-append log (closed fd ∷ []),
        opened_fds-append log (closed fd ∷ []),
        append-nil (opened_fds log),
        append-nil (closed_fds log ++ fd ∷ []),
      )
      h

-- What a round has to do: begun with nothing open, it leaves nothing open or ends the loop with
-- `Q`.
abbrev pub RoundOf : (Option ℕ → Type 0) → (Option ℕ → List Event → Type 0) → Round → Type 0
RoundOf kept Q (false, sock, st) = kept sock × Open [] st.log
RoundOf kept Q (true, sock, st) = Q sock st.log

RoundOf-unless :
    (kept : Option ℕ → Type 0) (Q : Option ℕ → List Event → Type 0) (r : Round)
    (next : Option ℕ → State → Round)
    → RoundOf kept Q r
    → ((sock : Option ℕ) (st : State) → kept sock → Open [] st.log → RoundOf kept Q (next sock st))
    → RoundOf kept Q (unless_stopped r next)
RoundOf-unless kept Q (true, sock, st) next h k = h
RoundOf-unless kept Q (false, sock, st) next (p, h) k = k sock st p h

-- The rule for the loop, with `kept` of the variable behind a round that failed.
pub try_all-Open :
    {A : Type 0} (kept : Option ℕ → Type 0) (Q : Option ℕ → List Event → Type 0)
    (attempt : A → State → Round)
    → ((a : A) (st : State) → Open [] st.log → RoundOf kept Q (attempt a st))
    → (list : List A) (sock : Option ℕ) (st : State) → kept sock
    → Open [] st.log
    → RoundOf kept Q (try_all attempt list sock st)
unfolding try_all
try_all-Open kept Q attempt rule [] sock st k h = (k, h)
try_all-Open kept Q attempt rule (a ∷ list) sock st k h =
    RoundOf-unless kept Q (attempt a st) (try_all attempt list) (rule a st h)
      (λ sock' st' k' h'. try_all-Open kept Q attempt rule list sock' st' k' h')

-- An event that neither opens nor closes.
pub Open-other :
    (held : List ℕ) (e : Event) (log : List Event)
    → closed_fds (e ∷ []) ≡ []
    → opened_fds (e ∷ []) ≡ []
    → Open held log
    → Open held (log ++ e ∷ [])
Open-other held e log c o h =
    rw
      (
        closed_fds-append log (e ∷ []),
        opened_fds-append log (e ∷ []),
        c,
        o,
        append-nil (closed_fds log),
        append-nil (opened_fds log),
      )
      h
