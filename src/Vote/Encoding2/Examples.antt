-- ===== src/Vote/Encoding2/Examples.antt =====
-- Runs of the second text encoding, and its theorems at concrete inputs.
use socket_programming_c.Prelude.{
  ℕ, ◌≡◌, refl, false, [], ◌∷◌, ◌++◌, arith, Bytes, codes, pos, replicate, take, drop,
}
use socket_programming_c.Exits.{done}
use socket_programming_c.CLib.Format.{snprintf}
use socket_programming_c.Vote.Protocol.{VoteInfo, zeroed}
use socket_programming_c.Vote.Encoding.{request_text, count_text}
use socket_programming_c.Vote.Encoding2.{encode_text2}
use socket_programming_c.Vote.Encoding2.Responses.{response, decode-encode_text2}
use socket_programming_c.Vote.Decoding.{accepted, rejected, decode}
use socket_programming_c.Vote.Decoding.Requests.{request}
use socket_programming_c.Vote.Decoding2.{decode_text2}
use socket_programming_c.Vote.Decoding2.Requests.{decode_text2-request_text}

abbrev buffer : Bytes
buffer = replicate 50 9

encoded :
    encode_text2 (response 42 (pos 7) false) buffer 50
    ≡ done (codes "Voting v R 7 42" ++ 0 ∷ drop 16 buffer, 15)
unfolding encode_text2 snprintf request_text count_text
encoded = refl

decode-encode_text2_example :
    (buf : Bytes) × (n : ℕ) × (encode_text2 (response 42 (pos 7) false) buffer 50 ≡ done (buf, n))
    × ((rest : Bytes) (m : ℕ) (v : VoteInfo)
        → (memory : Bytes) × (decode (take n buf ++ 0 ∷ rest) m v
            ≡ accepted (response 42 (pos 7) false, memory)))
decode-encode_text2_example =
    decode-encode_text2 42 (pos 7) false buffer 50 (omega arith) (omega arith) (omega arith)
      (omega arith) (omega arith)

decode_text2-request_text_example :
    decode_text2 (request_text (request (pos 15) false) ++ 0 ∷ []) 11 zeroed
    ≡ rejected (record zeroed { is_inquiry = false })
decode_text2-request_text_example = decode_text2-request_text (pos 15) false [] 11 zeroed
