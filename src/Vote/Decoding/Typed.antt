-- ===== src/Vote/Decoding/Typed.antt =====
-- What `Decode` stores is in the range of the fields' types, and the buffer keeps its length.
use socket_programming_c.Prelude.{
  ℕ, ◌+◌, ◌^◌, ◌<◌, ◌≡◌, Bool, true, false, Bytes, IsInt, length, if◌then◌else◌,
}
use socket_programming_c.CLib.Tokens.{Strtok, null, token}
use socket_programming_c.Vote.Protocol.{VoteInfo}
use socket_programming_c.Vote.Decoding.{Decoded, accepted, rejected, overrun, ◌>>=◌}

-- A call of `strtok` keeps the `n` bytes of the buffer.
abbrev Whole : ℕ → Strtok → Type 0
Whole n null = Unit
Whole n (token tok before rest) = length before + length rest ≡ n
Whole n Strtok.overrun = Unit

-- What a part of `Decode` that is accepted returns.
abbrev pub Returns {ℓ} : {A : Type ℓ} → (A → Type 0) → Decoded A → Type 0
Returns P (accepted a) = P a
Returns P (rejected v) = Unit
Returns P overrun = Unit

pub Returns-bind {ℓ κ} :
    {A : Type ℓ} {B : Type κ} (P : A → Type 0) (Q : B → Type 0) (d : Decoded A) (f : A → Decoded B)
    → Returns P d
    → ((a : A) → P a → Returns Q (f a))
    → Returns Q (d >>= f)
Returns-bind P Q (accepted a) f h k = k a h
Returns-bind P Q (rejected v) f h k = tt
Returns-bind P Q overrun f h k = tt

pub Returns-if {ℓ} :
    {A : Type ℓ} (P : A → Type 0) (b : Bool) (d e : Decoded A)
    → Returns P d
    → Returns P e
    → Returns P (if b then d else e)
Returns-if P true d e h k = h
Returns-if P false d e h k = k

pub Returns-any {ℓ} : {A : Type ℓ} (d : Decoded A) → Returns (λ a. Unit) d
Returns-any (accepted a) = tt
Returns-any (rejected v) = tt
Returns-any overrun = tt

-- A pointer into a buffer of `n` bytes.
abbrev Pointer : ℕ → Bytes × Bytes × Bytes → Type 0
Pointer n (tok, before, rest) = length before + length rest ≡ n

-- A result of `Decode` on a buffer of `n` bytes.
abbrev pub Stored : ℕ → VoteInfo × Bytes → Type 0
Stored n (v, buf) = IsInt v.candidate × (v.count < 2 ^ 64) × (length buf ≡ n)
