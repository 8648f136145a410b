-- ===== src/Poll/Table/Perms.antt =====
-- Removing an entry by moving the last one into its place, up to the order.
use mathlib.Core.List.{Perm, perm_append_singleton}
use mathlib.Core.List.Perm
use socket_programming_c.Prelude.{
  ℕ, zero, suc, ◌≤◌, ◌<◌, ◌≡◌, refl, ap, List, [], ◌∷◌, ◌++◌, some, arith, length, get_elem?, set,
}

module _ {ℓ} {A : Type ℓ} where
  -- At the place of the last one itself nothing is written.
  pub swap_remove-perm :
      (xs : List A) (z : A) (i : ℕ) (p : A)
      → get_elem? (xs ++ z ∷ []) i ≡ some p
      → Perm (p ∷ set xs i z) (xs ++ z ∷ [])
  swap_remove-perm [] z zero p e = let q : z ≡ p = ground arith in rw q (Perm.refl (p ∷ []))
  swap_remove-perm [] z (suc i) p e = absurd (cc)
  swap_remove-perm (x ∷ xs) z zero p e =
      let q : x ≡ p = ground arith in rw q (Perm.cons p (Perm.symm (perm_append_singleton z xs)))
  swap_remove-perm (x ∷ xs) z (suc i) p e =
      Perm.trans (Perm.swap x p (set xs i z)) (Perm.cons x (swap_remove-perm xs z i p e))

  pub get_elem?-length : (xs ys : List A) (y : A) → get_elem? (xs ++ y ∷ ys) (length xs) ≡ some y
  get_elem?-length [] ys y = refl
  get_elem?-length (x ∷ xs) ys y = get_elem?-length xs ys y

  -- A write up to the last entry in use, in front of the others.
  pub set-last :
      (xs ys : List A) (z : A) (i : ℕ)
      → i ≤ length xs
      → set (xs ++ z ∷ ys) i z ≡ set xs i z ++ z ∷ ys
  set-last [] ys z zero h = refl
  set-last [] ys z (suc i) h = elim h [ ]
  set-last (x ∷ xs) ys z zero h = refl
  set-last (x ∷ xs) ys z (suc i) h = ap (λ (t : List A). x ∷ t) (set-last xs ys z i (omega arith))

  -- A list with an entry `i` ends with some entry, at `i` or behind it.
  pub last_of :
      (xs : List A) (i : ℕ)
      → i < length xs
      → (ys : List A) × (z : A) × (xs ≡ ys ++ z ∷ []) × (i ≤ length ys)
  last_of [] i h = elim h [ ]
  last_of (x ∷ []) i h = ([], x, refl, omega arith)
  last_of (x ∷ y ∷ xs) zero h =
      let (ys, z, e, l) = last_of (y ∷ xs) 0 (omega arith) in
      (x ∷ ys, z, ap (λ (t : List A). x ∷ t) e, omega arith)
  last_of (x ∷ y ∷ xs) (suc i) h =
      let (ys, z, e, l) = last_of (y ∷ xs) i (omega arith) in
      (x ∷ ys, z, ap (λ (t : List A). x ∷ t) e, omega arith)
