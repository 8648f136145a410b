-- ===== src/Vote/Decoding/Requests.antt =====
-- Requests survive `Encode` and `Decode`.
use socket_programming_c.Prelude.{
  ℕ, suc, ◌≤◌, ◌≡◌, refl, sym, ap, ◌∙◌, Bool, true, false, [], ◌∷◌, ◌++◌, append_assoc, arith,
  Bytes, codes, ℤ, IsInt, length, take, drop, take-append, All, if◌then◌else◌,
}
use socket_programming_c.Exits.{done}
use socket_programming_c.CLib.Tokens.{IsWord, strtok_skip, strtok-nul, str_eq}
use socket_programming_c.CLib.Numerals.{
  decimal_int, decimal_int-IsNumeral, length-decimal_int, atoi, atoi-decimal_int,
}
use socket_programming_c.CLib.Format.{snprintf_fits}
use socket_programming_c.Vote.Protocol.{VoteInfo}
use socket_programming_c.Vote.Encoding.{request_text, encode}
use socket_programming_c.Vote.Decoding.{
  accepted, checked, ◌>>=◌, next_token, decode_kind, decode_numbers, decode_response, decode,
}

abbrev pub letter : Bool → ℕ
letter inq = if inq then b'i' else b'v'

abbrev pub request : ℤ → Bool → VoteInfo
request z inq = record { count = 0; candidate = z; is_inquiry = inq; is_response = false }

-- What `Decode` leaves of a request in the buffer.
abbrev pub request_memory : Bool → Bytes → Bytes
request_memory inq number = codes "Voting" ++ 0 ∷ letter inq ∷ 0 ∷ b' ' ∷ number

-- The first two tokens of a request.
pub decode_prefix :
    (inq : Bool) (s : Bytes) (m : ℕ) (v : VoteInfo)
    → decode (codes "Voting " ++ letter inq ∷ b' ' ∷ s) m v ≡ (
        next_token (record v { is_inquiry = inq }) (codes "Voting" ++ 0 ∷ letter inq ∷ 0 ∷ []) s
        >>= decode_response (record v { is_inquiry = inq }))
unfolding decode next_token decode_kind str_eq
decode_prefix true s m v = refl
decode_prefix false s m v = refl

module _ (c : ℕ) (t : Bytes) (h : All (IsWord b' ') (c ∷ t)) where
  pub next_token-number :
      (v : VoteInfo) (before rest : Bytes)
      → next_token v before (b' ' ∷ (c ∷ t ++ 0 ∷ rest))
        ≡ accepted (c ∷ t, before ++ b' ' ∷ c ∷ t, 0 ∷ rest)
  unfolding next_token
  next_token-number v before rest =
      ap (checked v) (
        strtok_skip b' ' before (c ∷ t ++ 0 ∷ rest)
        ∙ strtok-nul b' ' c t (before ++ b' ' ∷ []) rest h)
      ∙ ap (λ (b : Bytes). accepted (c ∷ t, b, 0 ∷ rest)) (append_assoc before (b' ' ∷ []) (c ∷ t))

  decode_response-number :
      (v : VoteInfo) (before rest : Bytes)
      → c ≤ b'9'
      → decode_response v (c ∷ t, before, rest)
        ≡ accepted
            (record v { count = 0; candidate = atoi (c ∷ t); is_response = false }, before ++ rest)
  decode_response-number v before rest p =
      unfold decode_response decode_numbers str_eq in ground arith

  pub decode_number :
      (inq : Bool) (rest : Bytes) (m : ℕ) (v : VoteInfo)
      → c ≤ b'9'
      → decode (codes "Voting " ++ letter inq ∷ b' ' ∷ b' ' ∷ (c ∷ t ++ 0 ∷ rest)) m v
        ≡ accepted (request (atoi (c ∷ t)) inq, request_memory inq (c ∷ t ++ 0 ∷ rest))
  decode_number inq rest m v p =
      decode_prefix inq (b' ' ∷ (c ∷ t ++ 0 ∷ rest)) m v
      ∙ rw next_token-number
          (rw (decode_response-number (record v { is_inquiry = inq }) _ (0 ∷ rest) p))

-- The text of a request, with a NUL behind it, is decoded to the request.
pub decode-request_text :
    (z : ℤ) (inq : Bool) (rest : Bytes) (m : ℕ) (v : VoteInfo)
    → IsInt z
    → decode (request_text (request z inq) ++ 0 ∷ rest) m v
      ≡ accepted (request z inq, request_memory inq (decimal_int z ++ 0 ∷ rest))
decode-request_text z inq rest m v h =
    let (c, t, e, le, w) = decimal_int-IsNumeral z in
    let back : atoi (c ∷ t) ≡ z = ap atoi (sym e) ∙ atoi-decimal_int z h in
    unfold request_text in rw e (rw (decode_number c t (rw e at w) inq rest m v le, back))

pub length-request_text :
    (z : ℤ) (inq : Bool) → IsInt z → length (request_text (request z inq)) ≤ 21
unfolding request_text
length-request_text z inq h = omega (arith, length-decimal_int z h)

pub encode-request :
    (z : ℤ) (inq : Bool) (out_buf : Bytes) (size : ℕ)
    → IsInt z
    → 22 ≤ size
    → size ≤ length out_buf
    → encode (request z inq) out_buf size
      ≡ done (
        request_text (request z inq)
            ++ 0 ∷ drop (suc (length (request_text (request z inq)))) out_buf,
        length (request_text (request z inq)),
      )
unfolding encode
encode-request z inq out_buf size h k l =
    let b : length (request_text (request z inq)) ≤ 21 = length-request_text z inq h in
    rw (snprintf_fits out_buf size (request_text (request z inq)) (omega arith) (omega arith))

-- A vote or an inquiry for any int, encoded to a buffer of at least 22 bytes, is decoded from
-- what `Encode` says to send with a NUL behind it, whatever the receiver's buffer holds further
-- on.
pub decode-encode :
    (z : ℤ) (inq : Bool) (out_buf : Bytes) (size : ℕ)
    → IsInt z
    → 22 ≤ size
    → size ≤ length out_buf
    → (buf : Bytes) × (n : ℕ) × (encode (request z inq) out_buf size ≡ done (buf, n))
      × ((rest : Bytes) (m : ℕ) (v : VoteInfo)
          → decode (take n buf ++ 0 ∷ rest) m v
            ≡ accepted (request z inq, request_memory inq (decimal_int z ++ 0 ∷ rest)))
decode-encode z inq out_buf size h k l =
    let text : Bytes = request_text (request z inq) in
    let after : Bytes = 0 ∷ drop (suc (length text)) out_buf in
    (
      text ++ after,
      length text,
      encode-request z inq out_buf size h k l,
      λ rest m v. rw (take-append text after) (decode-request_text z inq rest m v h),
    )
