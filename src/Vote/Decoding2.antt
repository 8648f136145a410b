-- ===== src/Vote/Decoding2.antt =====
-- Decode of Sockets_in_C/ch05/VoteClient/src/VoteEncodingText2.c.
pub mod Requests
use socket_programming_c.Prelude.{ℕ, Bool, true, not, [], ◌∷◌, ◌++◌, Bytes, if◌then◌else◌}
use socket_programming_c.CLib.Tokens.{str_eq}
use socket_programming_c.Vote.Protocol.{VoteInfo}
use socket_programming_c.Vote.Encoding.{magic, response_str}
use socket_programming_c.Vote.Decoding.{
  Decoded, accepted, rejected, ◌>>=◌, next_token, decode_kind, decode_numbers,
}

abbrev pub behind_response :
    VoteInfo → Bytes × Bytes × Bytes → Decoded (VoteInfo × Bytes × Bytes × Bytes)
behind_response v (tok, before, rest) = accepted (v, tok, before, rest)

-- The third token: behind RESPONSE_STR one more is read.
unfoldable pub behind_kind :
    VoteInfo → Bytes × Bytes × Bytes → Decoded (VoteInfo × Bytes × Bytes × Bytes)
behind_kind v (tok, before, rest) =
    if str_eq tok response_str
    then (do
      third ← next_token (record v { is_response = true }) before rest
      behind_response (record v { is_response = true }) third)
    else accepted (v, tok, before, rest)

-- Whatever token was read, the next one is taken for the candidate.
unfoldable pub candidate_from : VoteInfo × Bytes × Bytes × Bytes → Decoded (VoteInfo × Bytes)
candidate_from (v, tok, before, rest) = do
  number ← next_token v before rest
  decode_numbers v number

unfoldable pub decode_text2 : Bytes → ℕ → VoteInfo → Decoded (VoteInfo × Bytes)
decode_text2 in_buf m_size v = do
  (tok, before, rest) ← next_token v [] in_buf
  if not (str_eq tok magic) then rejected v else do
    (tok', before', rest') ← next_token v before rest
    v' ← decode_kind v tok'
    third ← next_token v' before' rest'
    token ← behind_kind v' third
    candidate_from token
