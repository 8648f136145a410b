-- ===== src/Vote/Encoding/Bounds.antt =====
-- How much `Encode` of VoteEncodingText.c writes, and that it writes no newline.
use socket_programming_c.Prelude.{
  ℕ, suc, ◌+◌, ◌-◌, ◌%◌, ◌≤◌, ◌<◌, ◌^◌, ◌≡◌, ◌≢◌, inl, inr, ◌∙◌, [], ◌∷◌, ◌++◌, arith, Bytes, ℤ,
  pos, negsuc, IsInt, length, length-append, length-drop, drop, All, All-append, All-drop,
  Bool-cases, newline, if◌then◌else◌,
}
use socket_programming_c.Exits.{done}
use socket_programming_c.CLib.Numerals.{
  IsDigit, decimal, decimal-IsDigit, decimal_int, length-decimal, length-decimal_int,
}
use socket_programming_c.CLib.Format.{snprintf_fits}
use socket_programming_c.Vote.Protocol.{VoteInfo}
use socket_programming_c.Vote.Encoding.{request_text, count_text, encode}

abbrev pub Clean : Bytes → Type 0
Clean = All (λ c. c ≢ newline)

digits-Clean : (s : Bytes) → All IsDigit s → Clean s
digits-Clean [] h = tt
digits-Clean (c ∷ s) (d, h) = (ground arith, digits-Clean s h)

decimal_int-Clean : (z : ℤ) → Clean (decimal_int z)
unfolding decimal_int
decimal_int-Clean (pos n) = digits-Clean (decimal n) (decimal-IsDigit n)
decimal_int-Clean (negsuc n) =
    (ground arith, digits-Clean (decimal (suc n)) (decimal-IsDigit (suc n)))

pub request_text-Clean : (v : VoteInfo) → Clean (request_text v)
unfolding request_text
request_text-Clean v = ground (arith, decimal_int-Clean v.candidate)

module _ (v : VoteInfo) (h : IsInt v.candidate) (fits : v.count < 2 ^ 64) where
  abbrev first : Bytes
  first = request_text v

  abbrev second : Bytes
  second = count_text v

  -- What a call of `snprintf` leaves in the buffer.
  abbrev over : Bytes → Bytes → Bytes
  over text buf = text ++ 0 ∷ drop (suc (length text)) buf

  first-length : (0 < length first) × (length first ≤ 22)
  unfolding request_text
  first-length = (omega arith, ground (arith, length-decimal_int v.candidate h))

  second-length : length second ≤ 21
  unfolding count_text
  second-length = omega (arith, length-decimal 19 v.count (omega arith))

  first-Clean : Clean first
  first-Clean = request_text-Clean v

  second-Clean : Clean second
  unfolding count_text
  second-Clean = (omega arith, digits-Clean (decimal v.count) (decimal-IsDigit v.count))

  over-Clean : (text buf : Bytes) → Clean text → Clean buf → Clean (over text buf)
  over-Clean text buf t b =
      All-append (λ c. c ≢ newline) text _ t
        (omega arith, All-drop (λ c. c ≢ newline) (suc (length text)) buf b)

  length-over : (text buf : Bytes) → length text < length buf → length (over text buf) ≡ length buf
  length-over text buf l = omega (
    arith,
    length-append text (0 ∷ drop (suc (length text)) buf),
    length-drop (suc (length text)) buf,
  )

  -- The buffer and the size behind `Encode`.
  abbrev encoded : Bytes → Bytes × ℕ
  encoded out_buf =
      if v.is_response
      then (over second (over first out_buf), length first + length second)
      else (over first out_buf, length first)

  module _ (out_buf : Bytes) (size : ℕ) (k : 44 ≤ size) (m : size < 2 ^ 63) where
    module _ (l : size ≤ length out_buf) where
      pub encode-encoded : encode v out_buf size ≡ done (encoded out_buf)
      unfolding encode
      encode-encoded =
          let (p, a) = first-length in
          let b : length second ≤ 21 = second-length in
          let w : length (over first out_buf) ≡ length out_buf =
            length-over first out_buf (omega arith) in
          let one = snprintf_fits out_buf size first (omega arith) (omega arith) in
          let two =
            snprintf_fits (over first out_buf) ((size + 2 ^ 64 - length first) % 2 ^ 64) second
              (omega arith) (omega arith) in
          elim (Bool-cases v.is_response) [ inl r ↦ simp (one, r, two) | inr r ↦ simp (one, r) ]

      -- `Encode` of any int candidate and any count of 64 bits returns a size from 1 to 43, and
      -- leaves the length of the buffer, whose use it is told is 44 bytes at least.
      pub encode-bounds :
          (buf : Bytes) (n : ℕ)
          → encode v out_buf size ≡ done (buf, n)
          → (0 < n) × (n ≤ 43) × (length buf ≡ length out_buf)
      encode-bounds buf n e =
          let (p, a) = first-length in
          let b : length second ≤ 21 = second-length in
          let w : length (over first out_buf) ≡ length out_buf =
            length-over first out_buf (omega arith) in
          let w' : length (over second (over first out_buf)) ≡ length out_buf =
            length-over second (over first out_buf) (omega arith) ∙ w in
          ground (arith, encode-encoded)

      -- A buffer without newlines has none behind it.
      pub encode-Clean :
          (buf : Bytes) (n : ℕ) → encode v out_buf size ≡ done (buf, n) → Clean out_buf → Clean buf
      encode-Clean buf n e c =
          let one : Clean (over first out_buf) = over-Clean first out_buf first-Clean c in
          let two : Clean (over second (over first out_buf)) =
            over-Clean second (over first out_buf) second-Clean one in
          ground (arith, encode-encoded)
