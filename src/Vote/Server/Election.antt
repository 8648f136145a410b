-- ===== src/Vote/Server/Election.antt =====
-- The vote server as an election: what its counters are, by the requests of its clients alone.
pub mod Examples
use socket_programming_c.Prelude.{
  ℕ, suc, ◌+◌, ◌*◌, ◌%◌, ◌^◌, ◌≤◌, ◌<◌, ◌≡◌, refl, ◌∙◌, ap, Bool, List, [], ◌∷◌, ◌++◌, arith, Bytes,
  ℤ, IsInt, length, length-append, newline, All, All-get_or, All-replicate, get_or,
  get_or-replicate, get_or-ext, sym, zero, Bool-cases, inl, inr, if◌then◌else◌,
}
use socket_programming_c.Exits.{done, ◌>>=◌}
use socket_programming_c.Vote.Protocol.{VoteInfo, max_wire_size, max_candidate}
use socket_programming_c.Vote.Encoding.Bounds.{Clean}
use socket_programming_c.Vote.Decoding.Requests.{request}
use socket_programming_c.Vote.Server.{
  Session, Line, Arrival, client, opened, respond, session, serve, init_counts,
}
use socket_programming_c.Vote.Server.Tally.{is_vote_for, respond_lem}
use socket_programming_c.Vote.Server.Words.{IsWord64, respond-Responded}
use socket_programming_c.Vote.Server.Ballots.{Box, ballots, ballots-append, tally, box}
use socket_programming_c.Vote.Server.Requests.{
  Asked, text_of, wires, counted, reports, Ascending, Blank, ReadyFor, session-requests,
}

-- What is known of the counters behind some requests, by the counters before them.
abbrev Adds : List ℕ → List Asked → List ℕ → Type 0
Adds counts reqs counts' =
    All IsWord64 counts'
    × (length counts' ≡ suc max_candidate)
    × ((c : ℕ)
        → c ≤ max_candidate
        → get_or counts' c 0 ≡ (get_or counts c 0 + ballots c reqs) % 2 ^ 64)

-- A request for a valid candidate, or for none, adds what it has of votes.
respond-Adds :
    (counts : List ℕ) (z : ℤ) (inq : Bool)
    → All IsWord64 counts
    → length counts ≡ suc max_candidate
    → IsInt z
    → Adds counts ((z, inq) ∷ []) (respond counts (request z inq)).0
respond-Adds counts z inq w l h = (
  (respond-Responded counts (request z inq) w (h, omega arith)).0,
  (respond_lem counts (request z inq) 0 l (omega arith)).0,
  λ c k.
      let one = (respond_lem counts (request z inq) c l k).1 in
      let small = All-get_or IsWord64 counts c 0 w (omega arith) in ground arith,
)

counted-Adds :
    (m : ℕ) (reqs : List Asked) (counts : List ℕ)
    → Ascending m reqs
    → All IsWord64 counts
    → length counts ≡ suc max_candidate
    → Adds counts reqs (counted counts reqs)
counted-Adds m [] counts up w l =
    (w, l, λ c k. omega (arith, All-get_or IsWord64 counts c 0 w (omega arith)))
counted-Adds m ((z, inq) ∷ more) counts (h, le, up) w l =
    let (w', l', one) = respond-Adds counts z inq w l h in
    let (w'', l'', rest) =
      counted-Adds (length (text_of (z, inq))) more (respond counts (request z inq)).0 up w' l' in
    (w'', l'', λ c k. omega (arith, one c k, rest c k))

-- A client of well-formed requests, with what its connection finds: the room of its device, and
-- what the two arrays hold by chance.
pub record Voter : Type 0 where
  pub asks : List Asked
  pub room : ℕ
  pub in_buf : Bytes
  pub out_buf : Bytes

abbrev pub arrival : Voter → Arrival
arrival p = client (wires p.asks) p.room p.in_buf p.out_buf

abbrev pub arrivals : List Voter → List Arrival
arrivals [] = []
arrivals (p ∷ more) = arrival p ∷ arrivals more

-- All the requests, in the order of the connections.
abbrev pub asked : List Voter → List Asked
asked [] = []
asked (p ∷ more) = p.asks ++ asked more

-- No request is shorter than the one before it on its connection, the input array is zeroed, the
-- output array has no newline, and the device takes the responses.
abbrev pub Regular : Voter → Type 0
Regular p =
    Ascending 0 p.asks
    × Blank 0 p.in_buf
    × Clean p.out_buf
    × (length p.out_buf ≡ max_wire_size)
    × (44 * length p.asks ≤ p.room)

length-wires : (reqs : List Asked) → length reqs ≤ length (wires reqs)
length-wires [] = omega arith
length-wires (a ∷ more) =
    omega (arith, length-append (text_of a) (newline ∷ wires more), length-wires more)

serve-Adds :
    (voters : List Voter) (counts : List ℕ) (log : List Line)
    → All Regular voters
    → All IsWord64 counts
    → length counts ≡ suc max_candidate
    → (counts' : List ℕ) × (log' : List Line) × (serve (arrivals voters) counts log
        ≡ done (counts', log'))
      × Adds counts (asked voters) counts'
unfolding serve
serve-Adds [] counts log r w l = (
  counts,
  log,
  refl,
  (w, l, λ c k. omega (arith, All-get_or IsWord64 counts c 0 w (omega arith))),
)
serve-Adds (p ∷ more) counts log ((up, blank, clean, out, room), r) w l =
    let s : Session = opened (wires p.asks) p.room p.in_buf p.out_buf counts log in
    let (s', run, (a, b)) =
      session-requests (suc (length (wires p.asks))) 0 p.asks s (omega (arith, length-wires p.asks))
        up (blank, w, clean, out, room, refl) in
    let (w', l', one) = counted-Adds 0 p.asks counts up w l in
    let (counts', log', rest, (w'', l'', two)) =
      serve-Adds more s'.counts s'.log r (rw a w') (rw a l') in
    (
      counts',
      log',
      rw run rest,
      (
        w'',
        l'',
        λ c k. omega (
          arith,
          one c k,
          ap (λ t. get_or t c 0) a,
          two c k,
          ballots-append c p.asks (asked more),
        ),
      ),
    )

-- What a server of fresh counters returns for these voters is the election of the box of all
-- their requests.
abbrev pub Returns : List Voter → List ℕ → List Line → Type 0
Returns voters counts log =
    (serve (arrivals voters) init_counts [] ≡ done (counts, log))
    × (length counts ≡ suc max_candidate)
    × ((c : ℕ) → c ≤ max_candidate → get_or counts c 0 ≡ tally c (box (asked voters)) % 2 ^ 64)

-- If every client is Regular (its candidates are ints and no request of it is shorter than the one
-- before, its input array is zeroed, its output array has no newline, both have 500 bytes, and its
-- device takes the responses), a server of fresh counters that takes these connections does not
-- exit, and the counter of each valid candidate is the number of votes for it in the box of all
-- the requests, modulo 2^64.
pub serve-Returns :
    (voters : List Voter)
    → All Regular voters
    → (counts : List ℕ) × (log : List Line) × Returns voters counts log
unfolding tally
serve-Returns voters r =
    let (counts, log, run, (w, l, adds)) =
      serve-Adds voters init_counts [] r (All-replicate IsWord64 1001 0 (omega arith)) refl in
    (
      counts,
      log,
      (run, l, λ c k. omega (arith, adds c k, get_or-replicate {A = ℕ} (suc max_candidate) c 0)),
    )

-- The counters do not depend on the order of the requests, or on the connections they come over:
-- for clients that are Regular, as above, the same box leaves the same counters.
pub serve-box :
    (voters other : List Voter)
    → All Regular voters
    → All Regular other
    → box (asked voters) ≡ box (asked other)
    → (counts : List ℕ) × (log log' : List Line) × (serve (arrivals voters) init_counts []
        ≡ done (counts, log))
      × (serve (arrivals other) init_counts [] ≡ done (counts, log'))
serve-box voters other r r' same =
    let (counts, log, (run, l, a)) = serve-Returns voters r in
    let (counts', log', (run', l', a')) = serve-Returns other r' in
    let equal : counts ≡ counts' =
      get_or-ext counts counts' 0 (l ∙ sym l')
        (λ c k. a c (omega arith) ∙ rw same (sym (a' c (omega arith)))) in
    (counts, log, log', run, rw equal run')
