-- ===== src/Vote/Decoding/Safety.antt =====
-- `Decode` stays inside a buffer that holds a NUL.
use socket_programming_c.Prelude.{
  ℕ, ◌≡◌, ◌≢◌, ◌⊎◌, inl, inr, refl, Bool, true, false, not, [], ◌∷◌, ◌++◌, arith, Bytes, Bool-cases,
  if◌then◌else◌, ◌==◌,
}
use socket_programming_c.CLib.Tokens.{Strtok, null, token, strtok, strtok_word, str_eq}
use socket_programming_c.CLib.Numerals.{atoi}
use socket_programming_c.Vote.Protocol.{VoteInfo}
use socket_programming_c.Vote.Encoding.{magic, response_str}
use socket_programming_c.Vote.Decoding.{
  Decoded, checked, accepted, rejected, overrun, ◌>>=◌, next_token, decode_kind, decode_numbers,
  decode_response, decode,
}

abbrev pub HasNul : Bytes → Type 0
HasNul [] = ⊥
HasNul (c ∷ s) = (c ≡ 0) ⊎ HasNul s

-- What a call of `strtok` may return there: the pointer that it leaves is in front of a NUL.
abbrev Inside : Strtok → Type 0
Inside null = Unit
Inside (token tok before rest) = HasNul rest
Inside Strtok.overrun = ⊥

HasNul-tail : (c : ℕ) (s : Bytes) → (c == 0) ≡ false → HasNul (c ∷ s) → HasNul s
HasNul-tail c s n (inl e) = ground arith
HasNul-tail c s n (inr h) = h

strtok_word-Inside :
    (sep : ℕ) (before tok s : Bytes) → HasNul s → Inside (strtok_word sep before tok s)
unfolding strtok_word
strtok_word-Inside sep before tok [] h = absurd h
strtok_word-Inside sep before tok (c ∷ s) h = elim (Bool-cases (c == 0)) [
  | inl z ↦ rw z h
  | inr n ↦ elim (Bool-cases (c == sep)) [
    | inl d ↦ rw (n, d) (HasNul-tail c s n h)
    | inr w ↦
        rw (n, w)
          (strtok_word-Inside sep (before ++ c ∷ []) (tok ++ c ∷ []) s (HasNul-tail c s n h))
  ]
]

pub strtok_step :
    (sep : ℕ) (before : Bytes) (c : ℕ) (s : Bytes)
    → strtok sep before (c ∷ s) ≡ (
        if c == sep
        then strtok sep (before ++ c ∷ []) s
        else if c == 0
        then null
        else strtok_word sep before [] (c ∷ s))
unfolding strtok
strtok_step sep before c s = refl

strtok-Inside : (sep : ℕ) (before s : Bytes) → sep ≢ 0 → HasNul s → Inside (strtok sep before s)
strtok-Inside sep before [] d h = absurd h
strtok-Inside sep before (c ∷ s) d h = rw strtok_step (elim (Bool-cases (c == sep)) [
  | inl e ↦ rw e (strtok-Inside sep (before ++ c ∷ []) s d (HasNul-tail c s (ground arith) h))
  | inr n ↦ elim (Bool-cases (c == 0)) [
    | inl z ↦ rw (n, z) tt
    | inr w ↦ rw (n, w) (strtok_word-Inside sep before [] (c ∷ s) h)
  ]
])

-- The same of the calls in `Decode`.
abbrev Within : Decoded (Bytes × Bytes × Bytes) → Type 0
Within (accepted (tok, before, rest)) = HasNul rest
Within (rejected v) = Unit
Within overrun = ⊥

Within-checked : (v : VoteInfo) (t : Strtok) → Inside t → Within (checked v t)
Within-checked v null h = tt
Within-checked v (token tok before rest) h = h
Within-checked v Strtok.overrun h = h

next_token-Within :
    (v : VoteInfo) (before rest : Bytes) → HasNul rest → Within (next_token v before rest)
next_token-Within v before rest h =
    unfold next_token in Within-checked v _ (strtok-Inside b' ' before rest (omega arith) h)

abbrev Safe {ℓ} : {A : Type ℓ} → Decoded A → Type ℓ
Safe d = d ≢ overrun

-- A call of `strtok` and the rest of `Decode` behind it.
Safe-bind {ℓ} :
    {A : Type ℓ} (d : Decoded (Bytes × Bytes × Bytes)) (f : Bytes × Bytes × Bytes → Decoded A)
    → Within d
    → ((t : Bytes × Bytes × Bytes) → HasNul t.2 → Safe (f t))
    → Safe (d >>= f)
Safe-bind (accepted t) f h k = k t h
Safe-bind (rejected v) f h k = λ e. cc
Safe-bind overrun f h k = absurd h

Safe-then {ℓ} :
    {A : Type ℓ} (d : Decoded VoteInfo) (f : VoteInfo → Decoded A)
    → Safe d
    → ((v : VoteInfo) → Safe (f v))
    → Safe (d >>= f)
Safe-then (accepted v) f h k = k v
Safe-then (rejected v) f h k = λ e. cc
Safe-then overrun f h k = absurd (h refl)

Safe-if {ℓ} :
    {A : Type ℓ} (b : Bool) (d e : Decoded A) → Safe d → Safe e → Safe (if b then d else e)
Safe-if true d e h k = h
Safe-if false d e h k = k

decode_numbers-Safe :
    (v : VoteInfo) (t : Bytes × Bytes × Bytes) → HasNul t.2 → Safe (decode_numbers v t)
unfolding decode_numbers
decode_numbers-Safe v (tok, before, rest) h =
    Safe-if v.is_response _ _
      (Safe-bind (next_token (record v { candidate = atoi tok }) before rest) _
        (next_token-Within (record v { candidate = atoi tok }) before rest h) (λ t _ e. cc))
      (λ e. cc)

decode_response-Safe :
    (v : VoteInfo) (t : Bytes × Bytes × Bytes) → HasNul t.2 → Safe (decode_response v t)
unfolding decode_response
decode_response-Safe v (tok, before, rest) h =
    Safe-if (str_eq tok response_str) _ _
      (Safe-bind (next_token (record v { is_response = true }) before rest) _
        (next_token-Within (record v { is_response = true }) before rest h)
        (decode_numbers-Safe (record v { is_response = true })))
      (decode_numbers-Safe (record v { is_response = false }) (tok, before, rest) h)

decode_kind-Safe : (v : VoteInfo) (tok : Bytes) → Safe (decode_kind v tok)
unfolding decode_kind
decode_kind-Safe v tok = ground arith

-- If the buffer holds a NUL, `Decode` does not read past its end.
pub decode-Safe :
    (in_buf : Bytes) (m : ℕ) (v : VoteInfo) → HasNul in_buf → decode in_buf m v ≢ overrun
unfolding decode
decode-Safe in_buf m v h =
    Safe-bind (next_token v [] in_buf) _ (next_token-Within v [] in_buf h) λ t w.
      Safe-if (not (str_eq t.0 magic)) _ _ (λ e. cc)
        (Safe-bind (next_token v t.1 t.2) _ (next_token-Within v t.1 t.2 w) λ u w'.
          Safe-then (decode_kind v u.0) _ (decode_kind-Safe v u.0) λ v'.
            Safe-bind (next_token v' u.1 u.2) _ (next_token-Within v' u.1 u.2 w')
              (decode_response-Safe v'))

pub HasNul-append : (s rest : Bytes) → HasNul (s ++ 0 ∷ rest)
HasNul-append [] rest = inl refl
HasNul-append (c ∷ s) rest = inr (HasNul-append s rest)
