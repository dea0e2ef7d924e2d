-- ===== src/Base/Eq.antt =====
-- Types whose values the program compares with `==`.
use Prim.Native.Nat.{ℕ}
use mathlib.Core.Path.{◌≡◌, refl}
use mathlib.Core.Logic.{◌↔◌}
use mathlib.Core.Bool.{Bool, true, false, ◌&&◌, ◌||◌}
use mathlib.Core.List.{List, [], ◌∷◌}
use native.Mathlib.Omega.{arith}
use specode_review.Base.Tests.{nat_eq}

pub record Equal {ℓ} (A : Type ℓ) : Type ℓ where
  pub equals : A → A → Bool
  pub equals_iff : (a b : A) → (equals a b ≡ true) ↔ (a ≡ b)

module _ {ℓ} {A : Type ℓ} ⦃class : Equal A⦄ where
  -- Python's `==` on values of one type.
  infix 50 ◌==◌
  abbrev pub ◌==◌ : (left right : A) → Bool
  left == right = class.equals left right

pub nat_eq_iff : (a b : ℕ) → (nat_eq a b ≡ true) ↔ (a ≡ b)
nat_eq_iff a b = ground arith

instance abbrev pub nat_equal : Equal ℕ
nat_equal = record { equals = nat_eq; equals_iff = nat_eq_iff }

module _ {ℓ} {A : Type ℓ} ⦃class : Equal A⦄ where
  -- `value in values`
  abbrev pub contains : List A → A → Bool
  contains [] a = false
  contains (x ∷ xs) a = (x == a) || contains xs a

  abbrev pub list_eq : List A → List A → Bool
  list_eq [] [] = true
  list_eq [] (y ∷ ys) = false
  list_eq (x ∷ xs) [] = false
  list_eq (x ∷ xs) (y ∷ ys) = (x == y) && list_eq xs ys

  pub list_eq_iff : (xs ys : List A) → (list_eq xs ys ≡ true) ↔ (xs ≡ ys)
  list_eq_iff [] [] = ((λ h. refl), (λ h. refl))
  list_eq_iff [] (y ∷ ys) = ground arith
  list_eq_iff (x ∷ xs) [] = ground arith
  list_eq_iff (x ∷ xs) (y ∷ ys) = ground (arith, class.equals_iff x y, list_eq_iff xs ys)
