-- ===== src/Vote/Decoding/Examples.antt =====
-- Runs of VoteEncodingText.c, and its theorems at concrete inputs.
use socket_programming_c.CLib.Numerals.{decimal_int, atoi, strtoll}
use socket_programming_c.Prelude.{
  ℕ, length, ◌<◌, ◌≤◌, drop, ◌++◌, ◌≡◌, refl, [], ◌∷◌, arith, Bytes, codes, pos, replicate, take,
  true, false,
}
use socket_programming_c.CLib.Tokens.{str_eq}
use socket_programming_c.Exits.{done}
use socket_programming_c.Vote.Protocol.{VoteInfo, zeroed}
use socket_programming_c.Vote.Encoding.{request_text, count_text, encode}
use socket_programming_c.CLib.Format.{snprintf}
use socket_programming_c.Vote.Decoding.Requests.{decode-encode, request_memory}
use socket_programming_c.Vote.Encoding.Bounds.{encode-bounds}
use socket_programming_c.Vote.Decoding.Responses.{decode-encode-response}
use socket_programming_c.Vote.Decoding.{
  accepted, rejected, overrun, decode, decode_kind, decode_response, decode_numbers, next_token,
}

abbrev vote : VoteInfo
vote = record { count = 0; candidate = pos 15; is_inquiry = false; is_response = false }

abbrev response : VoteInfo
response = record { count = 7; candidate = pos 15; is_inquiry = true; is_response = true }

encode-vote :
    encode vote (replicate 16 b'_') 16 ≡ done (codes "Voting v  15" ++ 0 ∷ codes "___", 12)
unfolding encode request_text count_text snprintf
encode-vote = refl

encode-response :
    encode response (replicate 18 b'_') 18
    ≡ done (codes " 7" ++ 0 ∷ codes "ing i R 15" ++ 0 ∷ codes "____", 15)
unfolding encode request_text count_text snprintf
encode-response = refl

decode-encode_example :
    (buf : Bytes) × (n : ℕ) × (encode vote (replicate 22 b'_') 22 ≡ done (buf, n))
    × ((rest : Bytes) (m : ℕ) (v : VoteInfo)
        → decode (take n buf ++ 0 ∷ rest) m v
          ≡ accepted (vote, request_memory false (codes "15" ++ 0 ∷ rest)))
unfolding decimal_int
decode-encode_example =
    decode-encode (pos 15) false (replicate 22 b'_') 22 (omega arith) (omega arith) (omega arith)

abbrev response_buf : Bytes
response_buf = codes " 7" ++ 0 ∷ codes "ing i R 15" ++ 0 ∷ replicate 30 b'_'

encode-response_44 : encode response (replicate 44 b'_') 44 ≡ done (response_buf, 15)
unfolding encode request_text count_text snprintf
encode-response_44 = refl

decode-encode-response_example : decode (take 15 response_buf ++ []) 15 zeroed ≡ rejected zeroed
decode-encode-response_example =
    decode-encode-response 7 (pos 15) true (omega arith) (omega arith) (replicate 44 b'_') 44
      (omega arith) (omega arith) (omega arith) response_buf 15 encode-response_44 [] 15 zeroed

abbrev old_vote : Bytes
old_vote = codes "Voting" ++ 0 ∷ codes "v" ++ 0 ∷ codes " 123" ++ 0 ∷ []

-- A vote for 5 after one for 123 is taken as a vote for 523.
stale_vote :
    decode (codes "Voting v  5" ++ drop 11 old_vote) 11 zeroed
    ≡ accepted (
      record { count = 0; candidate = pos 523; is_inquiry = false; is_response = false },
      codes "Voting" ++ 0 ∷ codes "v" ++ 0 ∷ codes " 523" ++ 0 ∷ [],
    )
unfolding decode decode_kind decode_response decode_numbers next_token str_eq atoi strtoll
stale_vote = refl

no_nul : decode (codes "Voting v  15") 12 zeroed ≡ overrun
unfolding decode decode_kind decode_response decode_numbers next_token str_eq atoi strtoll
no_nul = refl

abbrev read_vote : Bytes
read_vote = codes "Voting" ++ 0 ∷ codes "v" ++ 0 ∷ codes " 15" ++ 0 ∷ codes "___"

encode-bounds_example :
    (0 < 15) × (15 ≤ 43) × (length response_buf ≡ length {A = ℕ} (replicate 44 b'_'))
encode-bounds_example =
    encode-bounds response (omega arith) (omega arith) (replicate 44 b'_') 44 (omega arith)
      (omega arith) (omega arith) response_buf 15 encode-response_44
