-- ===== src/Exits.antt =====
-- How a run of the programs ends, and Sockets_in_C/ch05/VoteServer/src/Exit.c.
-- Both functions of Exit.c print to stderr and end the process, so a caller's code behind them is
-- not reached.
use mathlib.Core.Path.{subst}
use socket_programming_c.Prelude.{
  ◌≡◌, ◌≢◌, refl, [], ◌∷◌, ◌++◌, Bool, true, false, if◌then◌else◌, Bytes, codes, newline,
}

-- `exit_failure` and `exit_success` hold what was printed to stderr last. `undefined` is an
-- access outside a buffer.
pub data Run {ℓ} (A : Type ℓ) : Type ℓ where
  done : A → Run A
  exit_failure : Bytes → Run A
  exit_success : Bytes → Run A
  undefined : Run A
  out_of_fuel : Run A

infixl 5 ◌>>=◌
abbrev pub ◌>>=◌ {ℓ κ} : {A : Type ℓ} {B : Type κ} → Run A → (A → Run B) → Run B
done a >>= f = f a
exit_failure t >>= f = exit_failure t
exit_success t >>= f = exit_success t
undefined >>= f = undefined
out_of_fuel >>= f = out_of_fuel

-- `perror` adds the text of the error that the last call left in errno.
unfoldable pub exit_with_system_msg {ℓ} : {A : Type ℓ} → Bytes → Bytes → Run A
exit_with_system_msg msg reason = exit_failure (msg ++ codes ": " ++ reason ++ newline ∷ [])

unfoldable pub exit_with_user_msg {ℓ} : {A : Type ℓ} → Bytes → Bytes → Run A
exit_with_user_msg msg detail = exit_failure (msg ++ codes ": " ++ detail ++ newline ∷ [])

-- Inversion of a run that returns.
pub >>=-eq-done {ℓ κ} :
    {A : Type ℓ} {B : Type κ} (m : Run A) (f : A → Run B) {b : B}
    → (m >>= f) ≡ done b
    → (a : A) × (m ≡ done a) × (f a ≡ done b)
>>=-eq-done (done a) f h = (a, refl, h)
>>=-eq-done (exit_failure t) f h = cc
>>=-eq-done (exit_success t) f h = cc
>>=-eq-done undefined f h = cc
>>=-eq-done out_of_fuel f h = cc

pub done-injective {ℓ} : {A : Type ℓ} {a b : A} → done a ≡ done b → a ≡ b
done-injective e = cc

-- Inversion of a guard.
pub guard-eq-done {ℓ} :
    {A : Type ℓ} (b : Bool) (m : Run A) (msg detail : Bytes) {a : A}
    → (if b then m else exit_with_user_msg msg detail) ≡ done a
    → (b ≡ true) × (m ≡ done a)
unfolding exit_with_user_msg
guard-eq-done true m msg detail h = (refl, h)
guard-eq-done false m msg detail h = absurd (cc)

-- A run that has fuel enough.
abbrev pub Ends {ℓ} : {A : Type ℓ} → Run A → Type ℓ
Ends m = m ≢ out_of_fuel

pub Ends-bind {ℓ} :
    {A B : Type ℓ} (m : Run A) (f : A → Run B)
    → Ends m
    → ((a : A) → m ≡ done a → Ends (f a))
    → Ends (m >>= f)
Ends-bind (done a) f h k = k a refl
Ends-bind (exit_failure t) f h k = λ e. cc
Ends-bind (exit_success t) f h k = λ e. cc
Ends-bind undefined f h k = λ e. cc
Ends-bind out_of_fuel f h k = absurd (h refl)

pub Ends-if {ℓ} :
    {A : Type ℓ} (b : Bool) (m n : Run A) → Ends m → Ends n → Ends (if b then m else n)
Ends-if true m n h k = h
Ends-if false m n h k = k

-- A run that returns does so with `P`; it may exit, and nothing in it is undefined or lacks fuel.
abbrev pub Keeps {ℓ} : {A : Type ℓ} → (A → Type 0) → Run A → Type 0
Keeps P (done a) = P a
Keeps P (exit_failure t) = Unit
Keeps P (exit_success t) = Unit
Keeps P undefined = ⊥
Keeps P out_of_fuel = ⊥

pub Keeps-bind {ℓ} :
    {A B : Type ℓ} (P : A → Type 0) (Q : B → Type 0) (m : Run A) (f : A → Run B)
    → Keeps P m
    → ((a : A) → P a → Keeps Q (f a))
    → Keeps Q (m >>= f)
Keeps-bind P Q (done a) f h k = k a h
Keeps-bind P Q (exit_failure t) f h k = tt
Keeps-bind P Q (exit_success t) f h k = tt
Keeps-bind P Q undefined f h k = absurd h
Keeps-bind P Q out_of_fuel f h k = absurd h

pub Keeps-done {ℓ} :
    {A : Type ℓ} (P : A → Type 0) (m : Run A) (a : A) → Keeps P m → m ≡ done a → P a
Keeps-done P (done b) a h e = subst P (done-injective e) h
Keeps-done P (exit_failure t) a h e = absurd (cc)
Keeps-done P (exit_success t) a h e = absurd (cc)
Keeps-done P undefined a h e = absurd h
Keeps-done P out_of_fuel a h e = absurd h

-- `Keeps-bind`, with what `m` was.
pub Keeps-found {ℓ} :
    {A B : Type ℓ} (P : A → Type 0) (Q : B → Type 0) (m : Run A) (f : A → Run B)
    → Keeps P m
    → ((a : A) → m ≡ done a → P a → Keeps Q (f a))
    → Keeps Q (m >>= f)
Keeps-found P Q (done a) f h k = k a refl h
Keeps-found P Q (exit_failure t) f h k = tt
Keeps-found P Q (exit_success t) f h k = tt
Keeps-found P Q undefined f h k = absurd h
Keeps-found P Q out_of_fuel f h k = absurd h

-- A run in which nothing is undefined, and that has `P` if it returns. It may lack fuel.
abbrev pub Stays {ℓ} : {A : Type ℓ} → (A → Type 0) → Run A → Type 0
Stays P (done a) = P a
Stays P (exit_failure t) = Unit
Stays P (exit_success t) = Unit
Stays P undefined = ⊥
Stays P out_of_fuel = Unit

pub Stays-bind {ℓ} :
    {A B : Type ℓ} (P : A → Type 0) (Q : B → Type 0) (m : Run A) (f : A → Run B)
    → Stays P m
    → ((a : A) → P a → Stays Q (f a))
    → Stays Q (m >>= f)
Stays-bind P Q (done a) f h k = k a h
Stays-bind P Q (exit_failure t) f h k = tt
Stays-bind P Q (exit_success t) f h k = tt
Stays-bind P Q undefined f h k = absurd h
Stays-bind P Q out_of_fuel f h k = tt

pub Stays-if {ℓ} :
    {A : Type ℓ} (P : A → Type 0) (b : Bool) (m n : Run A)
    → (b ≡ true → Stays P m)
    → (b ≡ false → Stays P n)
    → Stays P (if b then m else n)
Stays-if P true m n h k = h refl
Stays-if P false m n h k = k refl

pub Stays-Defined {ℓ} : {A : Type ℓ} (P : A → Type 0) (m : Run A) → Stays P m → m ≢ undefined
Stays-Defined P (done a) h = λ e. cc
Stays-Defined P (exit_failure t) h = λ e. cc
Stays-Defined P (exit_success t) h = λ e. cc
Stays-Defined P undefined h = absurd h
Stays-Defined P out_of_fuel h = λ e. cc
