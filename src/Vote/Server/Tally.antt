-- ===== src/Vote/Server/Tally.antt =====
-- The vote server counts every vote, and nothing else.
use socket_programming_c.Prelude.{
  ℕ, suc, ◌+◌, ◌%◌, ◌^◌, ◌≤◌, ◌<◌, ◌≡◌, ◌⊎◌, Bool, false, not, ◌&&◌, List, [], ◌∷◌, ◌++◌, arith,
  Bytes, ℤ, pos, negsuc, residue, to_int, length, length-set, get_or, get_or-set_self,
  get_or-set_ne, Bool-cases, inl, inr, ◌==◌, if◌then◌else◌,
}
use socket_programming_c.Exits.{done, >>=-eq-done}
use socket_programming_c.Vote.Protocol.{VoteInfo, max_candidate}
use socket_programming_c.Vote.DelimFramer.{put_msg}
use socket_programming_c.Vote.Server.{
  Session, Line, parse_error, put_error, processed, client_finished, index, increment, respond,
  reply,
}

-- A vote, and not an inquiry, for candidate `c`.
abbrev pub is_vote_for : ℕ → Bool → ℤ → Bool
is_vote_for c inq (pos d) = not inq && d == c
is_vote_for c inq (negsuc d) = false

-- The votes for `c` that the output reports.
abbrev pub votes : ℕ → List Line → ℕ
votes c [] = 0
votes c (processed inq d n ∷ log) = (if is_vote_for c inq d then 1 else 0) + votes c log
votes c (parse_error ∷ log) = votes c log
votes c (put_error ∷ log) = votes c log
votes c (client_finished ∷ log) = votes c log

-- The responses that could not be sent.
abbrev pub failures : List Line → ℕ
failures [] = 0
failures (put_error ∷ log) = suc (failures log)
failures (processed inq d n ∷ log) = failures log
failures (parse_error ∷ log) = failures log
failures (client_finished ∷ log) = failures log

pub votes-append :
    (c : ℕ) (log more : List Line) → votes c (log ++ more) ≡ votes c log + votes c more
votes-append c [] more = omega arith
votes-append c (processed inq d n ∷ log) more = omega (arith, votes-append c log more)
votes-append c (parse_error ∷ log) more = votes-append c log more
votes-append c (put_error ∷ log) more = votes-append c log more
votes-append c (client_finished ∷ log) more = votes-append c log more

pub failures-append : (log more : List Line) → failures (log ++ more) ≡ failures log + failures more
failures-append [] more = omega arith
failures-append (put_error ∷ log) more = omega (arith, failures-append log more)
failures-append (processed inq d n ∷ log) more = failures-append log more
failures-append (parse_error ∷ log) more = failures-append log more
failures-append (client_finished ∷ log) more = failures-append log more

-- The counter of `c` is its start value, the votes reported and some votes whose response was not
-- sent, modulo 2^64.
abbrev pub Tallied : List ℕ → ℕ → List ℕ → List Line → Type 0
Tallied base c counts log =
    (unsent : ℕ) × (length counts ≡ suc max_candidate)
    × (unsent ≤ failures log)
    × (get_or counts c 0 ≡ (get_or base c 0 + votes c log + unsent) % 2 ^ 64)

get_or-increment :
    (counts : List ℕ) (d c : ℕ)
    → d < length counts
    → get_or (increment counts d) c 0
      ≡ (if d == c then (get_or counts c 0 + 1) % 2 ^ 64 else get_or counts c 0)
get_or-increment counts d c h = elim (Bool-cases (d == c)) [
  | inl same ↦
      let e : d ≡ c = ground arith in
      rw same (rw e (get_or-set_self counts c ((get_or counts c 0 + 1) % 2 ^ 64) 0 (rw e at h)))
  | inr other ↦
      rw other (get_or-set_ne counts d c ((get_or counts d 0 + 1) % 2 ^ 64) 0 (ground arith))
]

-- The counter of `c` behind a request of this kind, for this candidate.
abbrev pub Counted : List ℕ → List ℕ → ℕ → Bool → ℤ → Type 0
Counted counts counts' c inq z =
    (length counts' ≡ suc max_candidate)
    × (get_or counts' c 0
        ≡ (if is_vote_for c inq z then (get_or counts c 0 + 1) % 2 ^ 64 else get_or counts c 0))

-- A request adds 1 to the counter of its candidate, modulo 2^64, if it is a vote and the
-- candidate is a valid one. No other counter changes, and no inquiry changes one.
pub respond_lem :
    (counts : List ℕ) (v : VoteInfo) (c : ℕ)
    → length counts ≡ suc max_candidate
    → c ≤ max_candidate
    → Counted counts (respond counts v).0 c v.is_inquiry v.candidate
unfolding respond
respond_lem counts v c n h = ground (
  arith,
  get_or-increment counts (index v.candidate) c,
  length-set counts (index v.candidate) ((get_or counts (index v.candidate) 0 + 1) % 2 ^ 64),
)

-- A response is sent and reported, or it fails and that is reported.
pub reply_log :
    (s : Session) (v : VoteInfo) (e : Bytes × ℕ) (s' : Session) (again : Bool)
    → reply s v e ≡ done (s', again)
    → (s'.counts ≡ s.counts)
      × ((s'.log ≡ s.log ++ processed v.is_inquiry v.candidate v.count ∷ [])
          ⊎ (s'.log ≡ s.log ++ put_error ∷ []))
unfolding reply
reply_log s v (buf, n) s' again e =
    let ((r, out'), sent, rest) =
      >>=-eq-done (put_msg buf (residue (2 ^ 64) (to_int (pos n))) s.channel) _ e in
    ground arith

-- The responded request keeps its kind and its candidate.
pub respond-kind :
    (counts : List ℕ) (v : VoteInfo)
    → ((respond counts v).1.is_inquiry ≡ v.is_inquiry)
      × ((respond counts v).1.candidate ≡ v.candidate)
unfolding respond
respond-kind counts v = ground arith
