-- ===== src/Vote/Encoding2/Responses.antt =====
-- Responses survive the Encode of VoteEncodingText2.c and the Decode of VoteEncodingText.c.
use socket_programming_c.Prelude.{
  ℕ, suc, ◌+◌, ◌-◌, ◌%◌, ◌^◌, ◌≤◌, ◌<◌, ◌≡◌, refl, sym, ap, ◌∙◌, Bool, true, false, [], ◌∷◌, ◌++◌,
  append_assoc, arith, Bytes, codes, ℤ, residue, IsInt, length, length-append, length-drop, take,
  drop, take-all, take-append, All, leb, le→leb, ◌==◌,
}
use socket_programming_c.Exits.{done}
use socket_programming_c.CLib.Tokens.{IsWord, strtok, strtok_word, strtok-sep, strtok-nul, str_eq}
use socket_programming_c.CLib.Numerals.{
  decimal, decimal-IsNumeral, decimal_int, decimal_int-IsNumeral, length-decimal,
  length-decimal_int, atoi, atoi-decimal_int, strtoll, strtoll-decimal,
}
use socket_programming_c.CLib.Format.{store, cut_text, snprintf, snprintf_fits}
use socket_programming_c.Vote.Protocol.{VoteInfo}
use socket_programming_c.Vote.Encoding.{request_text, count_text}
use socket_programming_c.Vote.Encoding2.{encode_text2}
use socket_programming_c.Vote.Decoding.{
  accepted, checked, next_token, decode_numbers, decode_response, decode,
}
use socket_programming_c.Vote.Decoding.Requests.{letter, decode_prefix}

abbrev pub response : ℕ → ℤ → Bool → VoteInfo
response count z inq = record { count = count; candidate = z; is_inquiry = inq; is_response = true }

next_token-R :
    (v : VoteInfo) (before s : Bytes)
    → next_token v before (b'R' ∷ b' ' ∷ s)
      ≡ accepted (codes "R", (before ++ b'R' ∷ []) ++ 0 ∷ [], s)
unfolding next_token strtok strtok_word
next_token-R v before s = refl

next_token-sep :
    (v : VoteInfo) (c : ℕ) (t before s : Bytes)
    → All (IsWord b' ') (c ∷ t)
    → next_token v before (c ∷ t ++ b' ' ∷ s) ≡ accepted (c ∷ t, before ++ c ∷ t ++ 0 ∷ [], s)
unfolding next_token
next_token-sep v c t before s w = ap (checked v) (strtok-sep b' ' c t before s (omega arith) w)

next_token-nul :
    (v : VoteInfo) (d : ℕ) (u before rest : Bytes)
    → All (IsWord b' ') (d ∷ u)
    → next_token v before (d ∷ u ++ 0 ∷ rest) ≡ accepted (d ∷ u, before ++ d ∷ u, 0 ∷ rest)
unfolding next_token
next_token-nul v d u before rest w = ap (checked v) (strtok-nul b' ' d u before rest w)

decode_response-numbers :
    (v : VoteInfo) (before : Bytes) (c d : ℕ) (t u rest : Bytes)
    → All (IsWord b' ') (c ∷ t)
    → All (IsWord b' ') (d ∷ u)
    → decode_response v (codes "R", before, c ∷ t ++ b' ' ∷ (d ∷ u ++ 0 ∷ rest))
      ≡ accepted (
        record v {
          candidate = atoi (c ∷ t);
          is_response = true;
          count = residue (2 ^ 64) (strtoll (d ∷ u));
        },
        (before ++ c ∷ t ++ 0 ∷ []) ++ d ∷ u ++ 0 ∷ rest,
      )
unfolding decode_response decode_numbers str_eq
decode_response-numbers v before c d t u rest w x =
    rw (next_token-sep (record v { is_response = true }) c t before (d ∷ u ++ 0 ∷ rest) w) (
      rw
        (next_token-nul (record v { is_response = true; candidate = atoi (c ∷ t) }) d u
          (before ++ c ∷ t ++ 0 ∷ []) rest x)
        refl)

count-back : (n : ℕ) → n < 2 ^ 63 → residue (2 ^ 64) (strtoll (decimal n)) ≡ n
count-back n h = rw (strtoll-decimal n) (ground arith)

-- What stands behind the two first tokens of a response.
abbrev response_tail : ℕ → ℤ → Bytes → Bytes
response_tail count z rest = decimal_int z ++ b' ' ∷ (decimal count ++ 0 ∷ rest)

decode-numbers :
    (count : ℕ) (z : ℤ) (inq : Bool) (before rest : Bytes) (v : VoteInfo)
    → count < 2 ^ 63
    → IsInt z
    → (memory : Bytes) × (decode_response
          (record v { is_inquiry = inq })
          (codes "R", before, response_tail count z rest)
        ≡ accepted (response count z inq, memory))
decode-numbers count z inq before rest v h k =
    let (c, t, e, le, w) = decimal_int-IsNumeral z in
    let (d, u, f, lf, x) = decimal-IsNumeral count in
    let back : atoi (c ∷ t) ≡ z = ap atoi (sym e) ∙ atoi-decimal_int z k in
    let number : residue (2 ^ 64) (strtoll (d ∷ u)) ≡ count =
      ap (λ (s : Bytes). residue (2 ^ 64) (strtoll s)) (sym f) ∙ count-back count h in
    (
      (before ++ c ∷ t ++ 0 ∷ []) ++ d ∷ u ++ 0 ∷ rest,
      rw (e, f)
          (decode_response-numbers (record v { is_inquiry = inq }) before c d t u rest (rw e at w)
              (rw f at x)
            ∙ rw (back, number) refl),
    )

pub decode-response_text :
    (count : ℕ) (z : ℤ) (inq : Bool) (rest : Bytes) (m : ℕ) (v : VoteInfo)
    → count < 2 ^ 63
    → IsInt z
    → (memory : Bytes) × (decode
          (codes "Voting " ++ letter inq ∷ b' ' ∷ b'R' ∷ b' ' ∷ response_tail count z rest)
          m
          v
        ≡ accepted (response count z inq, memory))
decode-response_text count z inq rest m v h k =
    let before : Bytes = codes "Voting" ++ 0 ∷ letter inq ∷ 0 ∷ [] in
    let (memory, e) = decode-numbers count z inq ((before ++ b'R' ∷ []) ++ 0 ∷ []) rest v h k in
    (
      memory,
      decode_prefix inq (b'R' ∷ b' ' ∷ response_tail count z rest) m v
          ∙ rw (next_token-R (record v { is_inquiry = inq }) before (response_tail count z rest)) e,
    )

-- `snprintf` behind a text that stands at the start of the buffer.
snprintf-behind :
    (first text tail : Bytes) (size : ℕ)
    → length text < size
    → length text < length tail
    → snprintf (first ++ tail) (length first) size text
      ≡ done (
        (first ++ text) ++ 0 ∷ drop (length first + suc (length text)) (first ++ tail),
        length text,
      )
unfolding snprintf store cut_text
snprintf-behind first text tail size h k =
    let room : (size == 0) ≡ false = ground arith in
    let whole : take (size - 1) text ≡ text = take-all (size - 1) text (omega arith) in
    let n : length (text ++ 0 ∷ []) ≡ suc (length text) =
      omega (arith, length-append text (0 ∷ [])) in
    let ok : leb (length first + suc (length text)) (length (first ++ tail)) ≡ true =
      le→leb _ _ (omega (arith, length-append first tail)) in
    rw (room, whole, n, ok, take-append first tail)
      (ap (λ (b : Bytes). done (b, length text))
        (ap (λ (b : Bytes). first ++ b)
            (append_assoc text (0 ∷ []) (drop (length first + suc (length text)) (first ++ tail)))
          ∙ sym (
              append_assoc first text
                (0 ∷ drop (length first + suc (length text)) (first ++ tail)))))

module _ (count : ℕ) (z : ℤ) (inq : Bool) (fits : count < 2 ^ 63) (h : IsInt z) where
  abbrev first : Bytes
  first = request_text (response count z inq)

  abbrev second : Bytes
  second = count_text (response count z inq)

  length-first : length first ≤ 22
  unfolding request_text
  length-first = omega (arith, length-decimal_int z h)

  length-second : length second ≤ 21
  unfolding count_text
  length-second = omega (arith, length-decimal 19 count (omega arith))

  text-form :
      (rest : Bytes)
      → (first ++ second) ++ 0 ∷ rest
        ≡ codes "Voting " ++ letter inq ∷ b' ' ∷ b'R' ∷ b' ' ∷ response_tail count z rest
  unfolding request_text count_text
  text-form rest =
      ap (λ (b : Bytes). codes "Voting " ++ letter inq ∷ b' ' ∷ b'R' ∷ b' ' ∷ b)
        (append_assoc (decimal_int z) (b' ' ∷ decimal count) (0 ∷ rest))

  encode_text2-response :
      (out_buf : Bytes) (size : ℕ)
      → 44 ≤ size
      → size < 2 ^ 63
      → size ≤ length out_buf
      → (tail : Bytes) × (encode_text2 (response count z inq) out_buf size
          ≡ done ((first ++ second) ++ 0 ∷ tail, length first + length second))
  unfolding encode_text2
  encode_text2-response out_buf size k m l =
      let a : length first ≤ 22 = length-first in
      let b : length second ≤ 21 = length-second in
      let tail : Bytes = 0 ∷ drop (suc (length first)) out_buf in
      let long : length tail ≡ suc (length out_buf - suc (length first)) =
        omega (arith, length-drop (suc (length first)) out_buf) in
      (
        drop (length first + suc (length second)) (first ++ tail),
        rw
            (
              snprintf_fits out_buf size first (omega arith) (omega arith),
              snprintf-behind first second tail ((size + 2 ^ 64 - length first) % 2 ^ 64)
                  (omega arith) (omega arith),
            )
            refl,
      )

-- A response for any int and a count below 2^63, encoded by VoteEncodingText2.c to a buffer of
-- at least 44 bytes, is decoded by VoteEncodingText.c to itself, from what Encode says to send
-- with a NUL behind it, whatever the receiver's buffer holds further on.
pub decode-encode_text2 :
    (count : ℕ) (z : ℤ) (inq : Bool) (out_buf : Bytes) (size : ℕ)
    → count < 2 ^ 63
    → IsInt z
    → 44 ≤ size
    → size < 2 ^ 63
    → size ≤ length out_buf
    → (buf : Bytes) × (n : ℕ) × (encode_text2 (response count z inq) out_buf size ≡ done (buf, n))
      × ((rest : Bytes) (m : ℕ) (v : VoteInfo)
          → (memory : Bytes) × (decode (take n buf ++ 0 ∷ rest) m v
              ≡ accepted (response count z inq, memory)))
decode-encode_text2 count z inq out_buf size c h k m l =
    let (tail, e) = encode_text2-response count z inq c h out_buf size k m l in
    let text : Bytes = request_text (response count z inq) ++ count_text (response count z inq) in
    let n : length (request_text (response count z inq))
          + length (count_text (response count z inq))
        ≡ length text =
      sym
        (length-append (request_text (response count z inq)) (count_text (response count z inq))) in
    (
      text ++ 0 ∷ tail,
      length text,
      rw n at e,
      λ rest m' v.
          let (memory, d) = decode-response_text count z inq rest m' v c h in
          (memory, rw (take-append text (0 ∷ tail), text-form count z inq c h rest) d),
    )
