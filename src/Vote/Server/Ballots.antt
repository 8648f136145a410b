-- ===== src/Vote/Server/Ballots.antt =====
-- The requests of an election, up to their order.
use mathlib.Core.Logic.{∥∥₁_elim}
use mathlib.Core.Quot
use mathlib.Core.Quot.{Quot}
use mathlib.Core.List.{Perm, Permᴰ}
use native.Mathlib.Nat.{ℕ_set}
use socket_programming_c.Prelude.{
  ℕ, ◌+◌, ◌≡◌, refl, ap, ◌∙◌, List, [], ◌∷◌, ◌++◌, arith, if◌then◌else◌,
}
use socket_programming_c.Vote.Server.Tally.{is_vote_for}
use socket_programming_c.Vote.Server.Requests.{Asked}

-- 1 for a vote for `c`, 0 for any other request.
abbrev pub weight : ℕ → Asked → ℕ
weight c (z, inq) = if is_vote_for c inq z then 1 else 0

-- The votes for `c` in these requests.
abbrev pub ballots : ℕ → List Asked → ℕ
ballots c [] = 0
ballots c (a ∷ more) = weight c a + ballots c more

pub ballots-append :
    (c : ℕ) (reqs more : List Asked) → ballots c (reqs ++ more) ≡ ballots c reqs + ballots c more
ballots-append c [] more = omega arith
ballots-append c (a ∷ reqs) more = omega (arith, ballots-append c reqs more)

ballots-Permᴰ :
    (c : ℕ) {reqs other : List Asked} → Permᴰ reqs other → ballots c reqs ≡ ballots c other
ballots-Permᴰ c Permᴰ.nil = refl
ballots-Permᴰ c (Permᴰ.cons e p) = omega (arith, ap (weight c) e, ballots-Permᴰ c p)
ballots-Permᴰ c (Permᴰ.swap e f) = omega (arith, ap (weight c) e, ap (weight c) f)
ballots-Permᴰ c (Permᴰ.trans p q) = ballots-Permᴰ c p ∙ ballots-Permᴰ c q

pub ballots-Perm :
    (c : ℕ) (reqs other : List Asked) → Perm reqs other → ballots c reqs ≡ ballots c other
ballots-Perm c reqs other p = ∥∥₁_elim p (ℕ_set _ _) (ballots-Permᴰ c)

-- A box of requests, whose order is forgotten.
abbrev pub Box : Type 0
Box = Quot (Perm {A = Asked})

abbrev pub box : List Asked → Box
box = Quot.mk

unfoldable pub tally : ℕ → Box → ℕ
tally c = Quot.lift ℕ_set (ballots c) (ballots-Perm c)
