-- ===== src/Vote/Server/Words.antt =====
-- The counters and the responses stay in the range of their types.
use socket_programming_c.Prelude.{
  ℕ, ◌^◌, ◌<◌, ◌≡◌, Bool, true, List, arith, ℤ, IsInt, All, All-set, All-get_or, Bool-cases, inl,
  inr,
}
use socket_programming_c.Vote.Protocol.{VoteInfo}
use socket_programming_c.Vote.Decoding.Requests.{request}
use socket_programming_c.Vote.Server.{is_candidate, index, increment, with_count, respond}
use socket_programming_c.Vote.Server.Tally.{respond-kind}

abbrev pub IsWord64 : ℕ → Type 0
IsWord64 n = n < 2 ^ 64

-- A request with the values of its types.
abbrev pub Fits : VoteInfo → Type 0
Fits v = IsInt v.candidate × (v.count < 2 ^ 64)

abbrev pub Responded : List ℕ × VoteInfo → Type 0
Responded (counts, v) = All IsWord64 counts × Fits v

with_count-Responded :
    (counts : List ℕ) (v : VoteInfo)
    → All IsWord64 counts
    → Fits v
    → Responded (with_count counts v)
with_count-Responded counts v w (h, k) =
    (w, (h, All-get_or IsWord64 counts (index v.candidate) 0 w (omega arith)))

increment-words :
    (counts : List ℕ) (c : ℕ) → All IsWord64 counts → All IsWord64 (increment counts c)
increment-words counts c w = All-set IsWord64 counts c _ w (omega arith)

pub respond-Responded :
    (counts : List ℕ) (v : VoteInfo) → All IsWord64 counts → Fits v → Responded (respond counts v)
unfolding respond
respond-Responded counts v w h = elim (Bool-cases (is_candidate v.candidate)) [
  | inl c ↦ elim (Bool-cases v.is_inquiry) [
    | inl i ↦ simp (c, i) (with_count-Responded counts v w h)
    | inr i ↦
        simp (c, i)
          (with_count-Responded (increment counts (index v.candidate)) v
            (increment-words counts (index v.candidate) w) h)
  ]
  | inr c ↦ simp c (w, h)
]

-- The response, by the counters before it.
abbrev pub response_to : List ℕ → ℤ → Bool → VoteInfo
response_to counts z inq = (respond counts (request z inq)).1

respond-is_response : (counts : List ℕ) (v : VoteInfo) → (respond counts v).1.is_response ≡ true
unfolding respond
respond-is_response counts v = ground arith

-- What the response to a request for any int holds.
pub response_to_lem :
    (counts : List ℕ) (z : ℤ) (inq : Bool)
    → IsInt z
    → All IsWord64 counts
    → ((response_to counts z inq).count < 2 ^ 64)
      × ((response_to counts z inq).candidate ≡ z)
      × ((response_to counts z inq).is_inquiry ≡ inq)
      × ((response_to counts z inq).is_response ≡ true)
response_to_lem counts z inq h w =
    let (words, fits) = respond-Responded counts (request z inq) w (h, omega arith) in
    let (i, c) = respond-kind counts (request z inq) in
    (fits.1, c, i, respond-is_response counts (request z inq))
