-- ===== src/CLib/Tokens.antt =====
-- `strtok` and `strcmp` of string.h. A `char *` is what was passed so far of its buffer, and the
-- bytes from the pointer on, so that both together are the buffer. A read past the buffer is
-- `overrun`.
use socket_programming_c.Prelude.{
  ℕ, ◌≡◌, ◌≢◌, refl, Bool, true, false, ◌&&◌, [], ◌∷◌, ◌++◌, append_assoc, append-nil, arith, Bytes,
  All, ◌==◌, if◌then◌else◌,
}

pub data Strtok : Type 0 where
  null : Strtok
  token : Bytes → Bytes → Bytes → Strtok
  overrun : Strtok

-- The bytes of the token, up to a separator, which a NUL replaces, or to a NUL.
unfoldable pub strtok_word : ℕ → Bytes → Bytes → Bytes → Strtok
strtok_word sep before tok [] = overrun
strtok_word sep before tok (c ∷ s) =
    if c == 0
    then token tok before (c ∷ s)
    else if c == sep
    then token tok (before ++ 0 ∷ []) s
    else strtok_word sep (before ++ c ∷ []) (tok ++ c ∷ []) s

-- One call. `token t b r` is the token `t`, and the pointer `b`, `r` at which the next call
-- starts.
unfoldable pub strtok : ℕ → Bytes → Bytes → Strtok
unfolding strtok_word
strtok sep before [] = overrun
strtok sep before (c ∷ s) =
    if c == sep
    then strtok sep (before ++ c ∷ []) s
    else if c == 0
    then null
    else strtok_word sep before [] (c ∷ s)

-- strcmp(a, b) == 0
unfoldable pub str_eq : Bytes → Bytes → Bool
str_eq [] [] = true
str_eq [] (d ∷ b) = false
str_eq (c ∷ a) [] = false
str_eq (c ∷ a) (d ∷ b) = c == d && str_eq a b

pub str_eq-eq : (a b : Bytes) → str_eq a b ≡ true → a ≡ b
unfolding str_eq
str_eq-eq [] [] h = refl
str_eq-eq [] (d ∷ b) h = cc
str_eq-eq (c ∷ a) [] h = cc
str_eq-eq (c ∷ a) (d ∷ b) h = ground (arith, str_eq-eq a b)

-- A byte of a word: no NUL, and not the separator.
abbrev pub IsWord : ℕ → ℕ → Type 0
IsWord sep c = (c ≢ 0) × (c ≢ sep)

module _ (sep : ℕ) where
  strtok_word-nul :
      (w before tok rest : Bytes)
      → All (IsWord sep) w
      → strtok_word sep before tok (w ++ 0 ∷ rest) ≡ token (tok ++ w) (before ++ w) (0 ∷ rest)
  unfolding strtok_word
  strtok_word-nul [] before tok rest h = ground (arith, append-nil tok, append-nil before)
  strtok_word-nul (c ∷ w) before tok rest (p, h) = ground (
    arith,
    strtok_word-nul w (before ++ c ∷ []) (tok ++ c ∷ []) rest,
    append_assoc before (c ∷ []) w,
    append_assoc tok (c ∷ []) w,
  )

  strtok_word-sep :
      (w before tok rest : Bytes)
      → sep ≢ 0
      → All (IsWord sep) w
      → strtok_word sep before tok (w ++ sep ∷ rest) ≡ token (tok ++ w) (before ++ w ++ 0 ∷ []) rest
  unfolding strtok_word
  strtok_word-sep [] before tok rest n h = ground (arith, append-nil tok, append-nil before)
  strtok_word-sep (c ∷ w) before tok rest n (p, h) = ground (
    arith,
    strtok_word-sep w (before ++ c ∷ []) (tok ++ c ∷ []) rest,
    append_assoc before (c ∷ []) w,
    append_assoc tok (c ∷ []) w,
  )

  -- A word that stands at the pointer and ends with a NUL.
  pub strtok-nul :
      (c : ℕ) (w before rest : Bytes)
      → All (IsWord sep) (c ∷ w)
      → strtok sep before (c ∷ w ++ 0 ∷ rest) ≡ token (c ∷ w) (before ++ c ∷ w) (0 ∷ rest)
  unfolding strtok
  strtok-nul c w before rest h = ground (arith, strtok_word-nul (c ∷ w) before [] rest)

  -- A word that stands at the pointer and ends with a separator.
  pub strtok-sep :
      (c : ℕ) (w before rest : Bytes)
      → sep ≢ 0
      → All (IsWord sep) (c ∷ w)
      → strtok sep before (c ∷ w ++ sep ∷ rest) ≡ token (c ∷ w) (before ++ c ∷ w ++ 0 ∷ []) rest
  unfolding strtok
  strtok-sep c w before rest n h = ground (arith, strtok_word-sep (c ∷ w) before [] rest)

  pub strtok_skip :
      (before s : Bytes) → strtok sep before (sep ∷ s) ≡ strtok sep (before ++ sep ∷ []) s
  unfolding strtok
  strtok_skip before s = ground arith
