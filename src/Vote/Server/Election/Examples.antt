-- ===== src/Vote/Server/Election/Examples.antt =====
-- An election of two clients, and the theorems on elections at it.
use mathlib.Core.List.{perm_append_comm}
use mathlib.Core.Quot
use socket_programming_c.Prelude.{
  ℕ, ◌≡◌, ◌≢◌, ◌≤◌, refl, [], ◌∷◌, List, arith, pos, true, false, length, replicate,
  length-replicate, All-replicate, newline,
}
use socket_programming_c.Exits.{done}
use socket_programming_c.CLib.Numerals.{decimal_int}
use socket_programming_c.Vote.Protocol.{max_wire_size}
use socket_programming_c.Vote.Encoding.{request_text}
use socket_programming_c.Vote.Server.{Line, serve, init_counts}
use socket_programming_c.Vote.Server.Requests.{Asked, Ascending}
use socket_programming_c.Vote.Server.Ballots.{box, tally}
use socket_programming_c.Vote.Server.Election.{
  Voter, asked, arrivals, Regular, Returns, serve-Returns, serve-box,
}

abbrev zeros : List ℕ
zeros = replicate max_wire_size 0

abbrev voter : List Asked → Voter
voter asks = record { asks = asks; room = 200; in_buf = zeros; out_buf = zeros }

-- A vote for 7, a vote for 15, an inquiry about 15.
abbrev first : Voter
first = voter ((pos 7, false) ∷ (pos 15, false) ∷ (pos 15, true) ∷ [])

-- A vote for 15, a vote for 1200, who is no candidate.
abbrev second : Voter
second = voter ((pos 15, false) ∷ (pos 1200, false) ∷ [])

first-Ascending : Ascending 0 first.asks
unfolding request_text decimal_int
first-Ascending =
    (omega arith, omega arith, (omega arith, omega arith, (omega arith, omega arith, tt)))

second-Ascending : Ascending 0 second.asks
unfolding request_text decimal_int
second-Ascending = (omega arith, omega arith, (omega arith, omega arith, tt))

voter-Regular : (asks : List Asked) → Ascending 0 asks → length asks ≤ 4 → Regular (voter asks)
voter-Regular asks up few = (
  up,
  (length-replicate {A = ℕ} max_wire_size 0, All-replicate (λ c. c ≡ 0) max_wire_size 0 refl),
  All-replicate (λ c. c ≢ newline) max_wire_size 0 (omega arith),
  length-replicate {A = ℕ} max_wire_size 0,
  omega arith,
)

first_voter : Regular first
first_voter = voter-Regular first.asks first-Ascending (omega arith)

second_voter : Regular second
second_voter = voter-Regular second.asks second-Ascending (omega arith)

two_for_15 : tally 15 (box (asked (first ∷ second ∷ []))) ≡ 2
unfolding tally
two_for_15 = refl

serve-Returns_example :
    (counts : List ℕ) × (log : List Line) × Returns (first ∷ second ∷ []) counts log
serve-Returns_example = serve-Returns (first ∷ second ∷ []) (first_voter, (second_voter, tt))

same_box : box (asked (first ∷ second ∷ [])) ≡ box (asked (second ∷ first ∷ []))
same_box = Quot.sound (perm_append_comm first.asks second.asks)

serve-box_example :
    (counts : List ℕ) × (log log' : List Line) × (serve
        (arrivals (first ∷ second ∷ []))
        init_counts
        []
      ≡ done (counts, log))
    × (serve (arrivals (second ∷ first ∷ [])) init_counts [] ≡ done (counts, log'))
serve-box_example =
    serve-box (first ∷ second ∷ []) (second ∷ first ∷ []) (first_voter, (second_voter, tt))
      (second_voter, (first_voter, tt)) same_box
