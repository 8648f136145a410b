-- ===== src/CLib/Numerals.antt =====
-- Decimal text: `%d` and `%llu` of printf, `strtoll` and `atoi` of stdlib.h (`long` has 64 bits).
use socket_programming_c.Prelude.{
  ℕ, zero, suc, ◌+◌, ◌-◌, ◌*◌, ◌/◌, ◌%◌, ◌^◌, ◌≤◌, ◌<◌, ◌≡◌, refl, ap, ◌∙◌, Bool, ◌&&◌, ◌||◌, [],
  ◌∷◌, arith, Bytes, ℤ, pos, negsuc, neg, to_int, IsInt, All, length, ltb, leb, ◌==◌, if◌then◌else◌,
  min, Bool-cases, inl, inr,
}
use native.Mathlib.Nat.{pow-suc}
use socket_programming_c.CLib.Tokens.{IsWord}

-- The digits of `n` in front of `out`; `n` rounds are enough.
digits : ℕ → ℕ → Bytes → Bytes
digits zero n out = (b'0' + n % 10) ∷ out
digits (suc fuel) n out =
    let more = digits fuel (n / 10) ((b'0' + n % 10) ∷ out) in
    if ltb n 10 then (b'0' + n % 10) ∷ out else more

-- `%llu`
unfoldable pub decimal : ℕ → Bytes
unfolding digits
decimal n = digits n n []

-- `%d`
unfoldable pub decimal_int : ℤ → Bytes
unfolding decimal
decimal_int (pos n) = decimal n
decimal_int (negsuc n) = b'-' ∷ decimal (suc n)

unfoldable pub is_digit : ℕ → Bool
is_digit c = leb b'0' c && leb c b'9'

unfoldable pub is_space : ℕ → Bool
is_space c = c == b' ' || (leb 9 c && leb c 13)

-- The value of the digits at the front, behind `n`.
unfoldable pub value : ℕ → Bytes → ℕ
unfolding is_digit
value n [] = n
value n (c ∷ s) = if is_digit c then value (n * 10 + (c - b'0')) s else n

abbrev pub llong_max : ℕ
llong_max = 2 ^ 63 - 1

-- Out of range the nearest limit is returned.
unfoldable pub strtoll_signed : Bytes → ℤ
unfolding value
strtoll_signed [] = pos 0
strtoll_signed (c ∷ s) =
    if c == b'-'
    then neg (min (value 0 s) (suc llong_max))
    else if c == b'+'
    then pos (min (value 0 s) llong_max)
    else pos (min (value 0 (c ∷ s)) llong_max)

-- strtoll(s, NULL, 10)
unfoldable pub strtoll : Bytes → ℤ
unfolding strtoll_signed is_space
strtoll [] = pos 0
strtoll (c ∷ s) = if is_space c then strtoll s else strtoll_signed (c ∷ s)

unfoldable pub atoi : Bytes → ℤ
unfolding strtoll
atoi s = to_int (strtoll s)

abbrev pub IsDigit : ℕ → Type 0
IsDigit c = (b'0' ≤ c) × (c ≤ b'9')

digits-IsDigit : (f n : ℕ) (out : Bytes) → All IsDigit out → All IsDigit (digits f n out)
unfolding digits
digits-IsDigit zero n out h = ground arith
digits-IsDigit (suc f) n out h = ground (arith, digits-IsDigit f (n / 10) ((b'0' + n % 10) ∷ out))

pub decimal-IsDigit : (n : ℕ) → All IsDigit (decimal n)
unfolding decimal
decimal-IsDigit n = digits-IsDigit n n [] tt

digits-cons : (f n : ℕ) (out : Bytes) → (c : ℕ) × (s : Bytes) × (digits f n out ≡ c ∷ s)
unfolding digits
digits-cons zero n out = (b'0' + n % 10, out, refl)
digits-cons (suc f) n out = elim (Bool-cases (ltb n 10)) [
  | inl last ↦ (b'0' + n % 10, out, rw last)
  | inr more ↦ rw more (digits-cons f (n / 10) ((b'0' + n % 10) ∷ out))
]

pub decimal-cons : (n : ℕ) → (c : ℕ) × (s : Bytes) × (decimal n ≡ c ∷ s)
unfolding decimal
decimal-cons n = digits-cons n n []

value-digits : (f n : ℕ) (out : Bytes) → n ≤ f → value 0 (digits f n out) ≡ value n out
unfolding digits value
value-digits zero n out h = ground arith
value-digits (suc f) n out h = ground (arith, value-digits f (n / 10) ((b'0' + n % 10) ∷ out))

pub value-decimal : (n : ℕ) → value 0 (decimal n) ≡ n
unfolding decimal
value-decimal n = value-digits n n [] (omega arith) ∙ (unfold value in refl)

pub strtoll-digits :
    (s : Bytes) (c : ℕ) (t : Bytes)
    → s ≡ c ∷ t
    → All IsDigit s
    → strtoll s ≡ pos (min (value 0 s) llong_max)
unfolding strtoll
strtoll-digits s c t e h = rw e (strtoll-cons c t (rw e at h))
  where
    strtoll-cons :
        (c : ℕ) (t : Bytes)
        → All IsDigit (c ∷ t)
        → strtoll (c ∷ t) ≡ pos (min (value 0 (c ∷ t)) llong_max)
    strtoll-cons c t h = ground arith

-- What is printed by `%llu` is read back, up to the largest `long long`.
pub strtoll-decimal : (n : ℕ) → strtoll (decimal n) ≡ pos (min n llong_max)
strtoll-decimal n =
    let (c, t, e) = decimal-cons n in
    strtoll-digits (decimal n) c t e (decimal-IsDigit n)
    ∙ ap (λ (m : ℕ). pos (min m llong_max)) (value-decimal n)

strtoll-minus : (n : ℕ) → strtoll (b'-' ∷ decimal n) ≡ neg (min n (suc llong_max))
strtoll-minus n = unfold strtoll in ground (arith, value-decimal n)

-- What is printed by `%d` is read back.
pub atoi-decimal_int : (z : ℤ) → IsInt z → atoi (decimal_int z) ≡ z
unfolding decimal_int atoi
atoi-decimal_int (pos n) h = ground (arith, strtoll-decimal n)
atoi-decimal_int (negsuc n) h = ground (arith, strtoll-minus (suc n))

-- A text of `%d` or `%llu` is one word, and neither empty nor a letter.
abbrev pub IsNumeral : Bytes → Type 0
IsNumeral s = (c : ℕ) × (t : Bytes) × (s ≡ c ∷ t) × (c ≤ b'9') × All (IsWord b' ') s

pub IsDigit-IsWord : (s : Bytes) → All IsDigit s → All (IsWord b' ') s
IsDigit-IsWord [] h = tt
IsDigit-IsWord (c ∷ s) (p, h) = (omega arith, IsDigit-IsWord s h)

pub head-le : {s : Bytes} {c : ℕ} {t : Bytes} → s ≡ c ∷ t → All IsDigit s → c ≤ b'9'
head-le {s = []} e h = cc
head-le {s = d ∷ s} e h = ground arith

pub decimal-IsNumeral : (n : ℕ) → IsNumeral (decimal n)
decimal-IsNumeral n =
    let (c, t, e) = decimal-cons n in
    (c, t, e, head-le e (decimal-IsDigit n), IsDigit-IsWord (decimal n) (decimal-IsDigit n))

pub decimal_int-IsNumeral : (z : ℤ) → IsNumeral (decimal_int z)
unfolding decimal_int
decimal_int-IsNumeral (pos n) = decimal-IsNumeral n
decimal_int-IsNumeral (negsuc n) =
    (b'-', decimal (suc n), refl, omega arith, (omega arith, (decimal-IsNumeral (suc n)).4))

length-digits :
    (k f n : ℕ) (out : Bytes)
    → n ≤ f
    → n < 10 ^ suc k
    → length (digits f n out) ≤ suc k + length out
unfolding digits
length-digits k zero n out h b = omega arith
length-digits zero (suc f) n out h b = ground arith
length-digits (suc k) (suc f) n out h b =
    let b' : n < 10 ^ suc k * 10 = rw pow-suc at b in
    ground (arith, length-digits k f (n / 10) ((b'0' + n % 10) ∷ out))

pub length-decimal : (k n : ℕ) → n < 10 ^ suc k → length (decimal n) ≤ suc k
unfolding decimal
length-decimal k n b = omega (arith, length-digits k n n [] (omega arith) b)

pub length-decimal_int : (z : ℤ) → IsInt z → length (decimal_int z) ≤ 11
unfolding decimal_int
length-decimal_int (pos n) h = omega (arith, length-decimal 9 n (omega arith))
length-decimal_int (negsuc n) h = omega (arith, length-decimal 9 (suc n) (omega arith))
