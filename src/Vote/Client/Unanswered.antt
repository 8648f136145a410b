-- ===== src/Vote/Client/Unanswered.antt =====
-- The vote client does not look at what `GetNextMsg` returns.
use socket_programming_c.Prelude.{
  ◌^◌, ◌≡◌, refl, Bool, false, [], ◌∷◌, ◌++◌, Bytes, ℤ, neg, IsInt, residue,
}
use socket_programming_c.Exits.{done}
use socket_programming_c.Vote.Protocol.{VoteInfo}
use socket_programming_c.Vote.DelimFramer.{get_next_msg}
use socket_programming_c.Vote.Encoding.{request_text}
use socket_programming_c.Vote.Decoding.Requests.{request, decode-request_text}
use socket_programming_c.Vote.Client.{Link, received, print_response, receive_response}

-- If the server closes without an answer, and the text of a request stands by chance in the array
-- that the message should have been read to, with a NUL behind it, then the client prints that
-- request as what it received.
pub receive_response-unanswered :
    (k : Link) (vi : VoteInfo) (z : ℤ) (inq : Bool) (rest : Bytes)
    → IsInt z
    → k.in_buf ≡ request_text (request z inq) ++ 0 ∷ rest
    → receive_response k vi [] ≡ done (received false inq z ∷ [])
unfolding receive_response get_next_msg print_response
receive_response-unanswered k vi z inq rest h e =
    simp (e, decode-request_text z inq rest (residue (2 ^ 64) (neg 1)) vi h) refl
