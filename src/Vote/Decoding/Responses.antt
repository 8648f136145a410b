-- ===== src/Vote/Decoding/Responses.antt =====
-- A response does not survive `Encode`: its second `snprintf` overwrites the text of the first.
use socket_programming_c.Prelude.{
  ℕ, suc, ◌+◌, ◌-◌, ◌%◌, ◌≤◌, ◌<◌, ◌^◌, ◌≡◌, ap, ◌∙◌, Bool, true, false, [], ◌∷◌, ◌++◌, arith,
  Bytes, ℤ, IsInt, length, length-append, length-drop, take, drop, take-prefix, All,
}
use socket_programming_c.Exits.{done}
use socket_programming_c.CLib.Tokens.{IsWord, strtok_skip, strtok-nul, str_eq}
use socket_programming_c.CLib.Numerals.{
  decimal, decimal-IsNumeral, length-decimal, length-decimal_int,
}
use socket_programming_c.CLib.Format.{snprintf_fits}
use socket_programming_c.Vote.Protocol.{VoteInfo}
use socket_programming_c.Vote.Encoding.{magic, request_text, count_text, encode}
use socket_programming_c.Vote.Decoding.{accepted, rejected, checked, next_token, decode}

abbrev pub response : ℕ → ℤ → Bool → VoteInfo
response count z inq = record { count = count; candidate = z; is_inquiry = inq; is_response = true }

decode_bad_magic :
    (in_buf tok before rest : Bytes) (m : ℕ) (v : VoteInfo)
    → next_token v [] in_buf ≡ accepted (tok, before, rest)
    → str_eq tok magic ≡ false
    → decode in_buf m v ≡ rejected v
unfolding decode
decode_bad_magic in_buf tok before rest m v e n = ground arith

next_token-count :
    (c : ℕ) (t rest : Bytes) (v : VoteInfo)
    → All (IsWord b' ') (c ∷ t)
    → next_token v [] (b' ' ∷ (c ∷ t ++ 0 ∷ rest)) ≡ accepted (c ∷ t, b' ' ∷ c ∷ t, 0 ∷ rest)
unfolding next_token
next_token-count c t rest v w =
    ap (checked v)
      (strtok_skip b' ' [] (c ∷ t ++ 0 ∷ rest) ∙ strtok-nul b' ' c t (b' ' ∷ []) rest w)

not-magic : (c : ℕ) (t : Bytes) → c ≤ b'9' → str_eq (c ∷ t) magic ≡ false
unfolding str_eq
not-magic c t h = ground arith

-- A number in front is not the magic word.
decode-decimal :
    (n : ℕ) (rest : Bytes) (m : ℕ) (v : VoteInfo)
    → decode (b' ' ∷ (decimal n ++ 0 ∷ rest)) m v ≡ rejected v
decode-decimal n rest m v =
    let (c, t, e, le, w) = decimal-IsNumeral n in
    rw e (
      decode_bad_magic (b' ' ∷ (c ∷ t ++ 0 ∷ rest)) (c ∷ t) (b' ' ∷ c ∷ t) (0 ∷ rest) m v
        (next_token-count c t rest v (rw e at w)) (not-magic c t le))

module _ (count : ℕ) (z : ℤ) (inq : Bool) (fits : count < 2 ^ 64) (h : IsInt z) where
  abbrev first : Bytes
  first = request_text (response count z inq)

  abbrev second : Bytes
  second = count_text (response count z inq)

  abbrev over : ℕ → Bytes → Bytes
  over n buf = drop (suc n) buf

  length-first : length first ≤ 22
  unfolding request_text
  length-first = omega (arith, length-decimal_int z h)

  length-second : length second ≤ 21
  unfolding count_text
  length-second = omega (arith, length-decimal 19 count (omega arith))

  pos-first : 0 < length first
  unfolding request_text
  pos-first = omega arith

  decode-take :
      (tail rest : Bytes) (n size' : ℕ) (v : VoteInfo)
      → length second < n
      → decode (take n (second ++ 0 ∷ tail) ++ rest) size' v ≡ rejected v
  decode-take tail rest n size' v l =
      let (t, e) = take-prefix second 0 tail rest n l in
      rw e (unfold count_text in decode-decimal count t size' v)

  module _ (out_buf : Bytes) (size : ℕ) (k : 44 ≤ size) (m : size < 2 ^ 63) where
    -- The count stands at the start of the buffer, with a NUL behind it, over what the first call
    -- wrote. The size is that of both texts together.
    pub encode-response :
        size ≤ length out_buf
        → encode (response count z inq) out_buf size
          ≡ done (
            second ++ 0 ∷ over (length second) (first ++ 0 ∷ over (length first) out_buf),
            length first + length second,
          )
    unfolding encode
    encode-response l =
        let a : length first ≤ 22 = length-first in
        let b : length second ≤ 21 = length-second in
        let buf : Bytes = first ++ 0 ∷ over (length first) out_buf in
        let whole : length buf ≡ length out_buf = omega (
          arith,
          length-append first (0 ∷ over (length first) out_buf),
          length-drop (suc (length first)) out_buf,
        ) in
        rw (
          snprintf_fits out_buf size first (omega arith) (omega arith),
          snprintf_fits buf ((size + 2 ^ 64 - length first) % 2 ^ 64) second (omega arith)
              (omega arith),
        )

    -- No response that `Encode` makes is accepted by `Decode`, whatever the receiver's buffer
    -- holds behind it.
    pub decode-encode-response :
        size ≤ length out_buf
        → (buf : Bytes) (n : ℕ) → encode (response count z inq) out_buf size ≡ done (buf, n)
        → (rest : Bytes) (size' : ℕ) (v : VoteInfo)
        → decode (take n buf ++ rest) size' v ≡ rejected v
    decode-encode-response l buf n e rest size' v =
        let tail : Bytes = over (length second) (first ++ 0 ∷ over (length first) out_buf) in
        let b : buf ≡ second ++ 0 ∷ tail = ground (arith, encode-response l) in
        let a : n ≡ length first + length second = ground (arith, encode-response l) in
        rw b (decode-take tail rest n size' v (omega (arith, pos-first)))
