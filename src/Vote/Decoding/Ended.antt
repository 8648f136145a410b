-- ===== src/Vote/Decoding/Ended.antt =====
-- `Decode` leaves the NUL at the end of a buffer.
use socket_programming_c.Prelude.{
  ℕ, zero, suc, ◌<◌, ◌≡◌, true, false, not, [], ◌∷◌, ◌++◌, arith, Bytes, length, set, ◌==◌,
  Bool-cases, inl, inr,
}
use socket_programming_c.CLib.Tokens.{Strtok, null, token, strtok, strtok_word, str_eq}
use socket_programming_c.CLib.Numerals.{atoi}
use socket_programming_c.Vote.Protocol.{VoteInfo}
use socket_programming_c.Vote.Encoding.{magic, response_str}
use socket_programming_c.Vote.Decoding.{
  checked, next_token, decode_kind, decode_numbers, decode_response, decode,
}
use socket_programming_c.Vote.Decoding.Safety.{HasNul, strtok_step}
use socket_programming_c.Vote.Decoding.Typed.{Returns, Returns-bind, Returns-if, Returns-any}

-- The last byte is there, and a NUL.
abbrev pub EndsNul : Bytes → Type 0
EndsNul [] = ⊥
EndsNul (c ∷ []) = c ≡ 0
EndsNul (c ∷ d ∷ s) = EndsNul (d ∷ s)

EndsNul-tail : (c : ℕ) (s : Bytes) → (c == 0) ≡ false → EndsNul (c ∷ s) → EndsNul s
EndsNul-tail c [] n h = ground arith
EndsNul-tail c (d ∷ s) n h = h

EndsNul-append : (before rest : Bytes) → EndsNul rest → EndsNul (before ++ rest)
EndsNul-append [] rest h = h
EndsNul-append (c ∷ []) [] h = absurd h
EndsNul-append (c ∷ []) (d ∷ rest) h = h
EndsNul-append (c ∷ d ∷ before) rest h = EndsNul-append (d ∷ before) rest h

pub EndsNul-HasNul : (s : Bytes) → EndsNul s → HasNul s
EndsNul-HasNul [] h = h
EndsNul-HasNul (c ∷ []) h = inl h
EndsNul-HasNul (c ∷ d ∷ s) h = inr (EndsNul-HasNul (d ∷ s) h)

-- A store in front of the last byte.
pub EndsNul-set : (s : Bytes) (i v : ℕ) → suc i < length s → EndsNul s → EndsNul (set s i v)
EndsNul-set [] i v l h = h
EndsNul-set (c ∷ []) i v l h = absurd (omega arith)
EndsNul-set (c ∷ d ∷ s) zero v l h = h
EndsNul-set (c ∷ d ∷ []) (suc i) v l h = absurd (omega arith)
EndsNul-set (c ∷ d ∷ e ∷ s) (suc zero) v l h = h
EndsNul-set (c ∷ d ∷ e ∷ s) (suc (suc i)) v l h = EndsNul-set (d ∷ e ∷ s) (suc i) v (omega arith) h

-- The pointer that a call of `strtok` leaves has the NUL behind it.
abbrev Ahead : Strtok → Type 0
Ahead null = Unit
Ahead (token tok before rest) = EndsNul rest
Ahead Strtok.overrun = Unit

strtok_word-Ahead :
    (sep : ℕ) (before tok s : Bytes) → EndsNul s → Ahead (strtok_word sep before tok s)
unfolding strtok_word
strtok_word-Ahead sep before tok [] h = tt
strtok_word-Ahead sep before tok (c ∷ s) h = elim (Bool-cases (c == 0)) [
  | inl z ↦ rw z h
  | inr n ↦ elim (Bool-cases (c == sep)) [
    | inl d ↦ rw (n, d) (EndsNul-tail c s n h)
    | inr w ↦
        rw (n, w)
          (strtok_word-Ahead sep (before ++ c ∷ []) (tok ++ c ∷ []) s (EndsNul-tail c s n h))
  ]
]

strtok-Ahead : (before s : Bytes) → EndsNul s → Ahead (strtok b' ' before s)
strtok-Ahead before [] h = absurd h
strtok-Ahead before (c ∷ s) h = rw strtok_step (elim (Bool-cases (c == b' ')) [
  | inl e ↦ rw e (strtok-Ahead (before ++ c ∷ []) s (EndsNul-tail c s (ground arith) h))
  | inr n ↦ elim (Bool-cases (c == 0)) [
    | inl z ↦ rw (n, z) tt
    | inr w ↦ rw (n, w) (strtok_word-Ahead b' ' before [] (c ∷ s) h)
  ]
])

abbrev Front : Bytes × Bytes × Bytes → Type 0
Front (tok, before, rest) = EndsNul rest

Returns-Ahead : (v : VoteInfo) (t : Strtok) → Ahead t → Returns Front (checked v t)
Returns-Ahead v null h = tt
Returns-Ahead v (token tok before rest) h = h
Returns-Ahead v Strtok.overrun h = tt

next_token-Front :
    (v : VoteInfo) (before rest : Bytes) → EndsNul rest → Returns Front (next_token v before rest)
unfolding next_token
next_token-Front v before rest h =
    Returns-Ahead v (strtok b' ' before rest) (strtok-Ahead before rest h)

abbrev Closed : VoteInfo × Bytes → Type 0
Closed (v, buf) = EndsNul buf

decode_numbers-Closed :
    (v : VoteInfo) (t : Bytes × Bytes × Bytes) → Front t → Returns Closed (decode_numbers v t)
unfolding decode_numbers
decode_numbers-Closed v (tok, before, rest) h =
    let v' : VoteInfo = record v { candidate = atoi tok } in
    Returns-if Closed v.is_response _ _
      (Returns-bind Front Closed (next_token v' before rest) _ (next_token-Front v' before rest h)
        (λ t p. EndsNul-append t.1 t.2 p))
      (EndsNul-append before rest h)

decode_response-Closed :
    (v : VoteInfo) (t : Bytes × Bytes × Bytes) → Front t → Returns Closed (decode_response v t)
unfolding decode_response
decode_response-Closed v (tok, before, rest) h =
    let v' : VoteInfo = record v { is_response = true } in
    Returns-if Closed (str_eq tok response_str) _ _
      (Returns-bind Front Closed (next_token v' before rest) _ (next_token-Front v' before rest h)
        (decode_numbers-Closed v'))
      (decode_numbers-Closed (record v { is_response = false }) (tok, before, rest) h)

pub decode-Closed :
    (in_buf : Bytes) (m : ℕ) (v : VoteInfo) → EndsNul in_buf → Returns Closed (decode in_buf m v)
unfolding decode
decode-Closed in_buf m v h =
    Returns-bind Front Closed (next_token v [] in_buf) _ (next_token-Front v [] in_buf h) λ t p.
      Returns-if Closed (not (str_eq t.0 magic)) _ _ tt (
        Returns-bind Front Closed (next_token v t.1 t.2) _ (next_token-Front v t.1 t.2 p) λ u q.
          Returns-bind (λ v'. Unit) Closed (decode_kind v u.0) _ (Returns-any (decode_kind v u.0))
            λ v' e.
              Returns-bind Front Closed (next_token v' u.1 u.2) _ (next_token-Front v' u.1 u.2 q)
                (decode_response-Closed v'))
