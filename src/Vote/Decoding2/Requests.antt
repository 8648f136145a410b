-- ===== src/Vote/Decoding2/Requests.antt =====
-- The second Decode takes the token behind the candidate for the candidate.
use socket_programming_c.Prelude.{
  ℕ, ◌≤◌, ◌≡◌, refl, ◌∙◌, Bool, true, false, [], ◌∷◌, ◌++◌, arith, Bytes, codes, ℤ,
}
use socket_programming_c.CLib.Tokens.{strtok, str_eq}
use socket_programming_c.CLib.Numerals.{decimal_int-IsNumeral}
use socket_programming_c.Vote.Protocol.{VoteInfo}
use socket_programming_c.Vote.Encoding.{request_text}
use socket_programming_c.Vote.Decoding.{rejected, ◌>>=◌, next_token, decode_kind}
use socket_programming_c.Vote.Decoding.Requests.{letter, request, next_token-number}
use socket_programming_c.Vote.Decoding2.{behind_kind, candidate_from, decode_text2}

decode_prefix :
    (inq : Bool) (s : Bytes) (m : ℕ) (v : VoteInfo)
    → decode_text2 (codes "Voting " ++ letter inq ∷ b' ' ∷ s) m v ≡ (
        next_token (record v { is_inquiry = inq }) (codes "Voting" ++ 0 ∷ letter inq ∷ 0 ∷ []) s
        >>= λ third. behind_kind (record v { is_inquiry = inq }) third >>= candidate_from)
unfolding decode_text2 next_token decode_kind str_eq
decode_prefix true s m v = refl
decode_prefix false s m v = refl

-- A number is not RESPONSE_STR, and behind it there is a NUL.
number_last :
    (v : VoteInfo) (c : ℕ) (t before rest : Bytes)
    → c ≤ b'9'
    → (behind_kind v (c ∷ t, before, 0 ∷ rest) >>= candidate_from) ≡ rejected v
unfolding behind_kind candidate_from next_token str_eq strtok
number_last v c t before rest h = ground arith

-- No vote and no inquiry that Encode makes, with a NUL behind it, is accepted by the Decode of
-- VoteEncodingText2.c.
pub decode_text2-request_text :
    (z : ℤ) (inq : Bool) (rest : Bytes) (m : ℕ) (v : VoteInfo)
    → decode_text2 (request_text (request z inq) ++ 0 ∷ rest) m v
      ≡ rejected (record v { is_inquiry = inq })
decode_text2-request_text z inq rest m v =
    let (c, t, e, le, w) = decimal_int-IsNumeral z in
    unfold request_text in
    rw e (
      decode_prefix inq (b' ' ∷ (c ∷ t ++ 0 ∷ rest)) m v
      ∙ rw (next_token-number c t (rw e at w))
          (number_last (record v { is_inquiry = inq }) c t _ rest le))
