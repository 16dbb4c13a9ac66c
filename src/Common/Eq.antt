-- ===== src/Common/Eq.antt =====
-- Equality of keys as an interface, `Eq` of Rust: a Boolean test that decides equality.
use Prim.Native.Nat.{ℕ}
use Prim.Native.String.{String}
use mathlib.Core.Path.{◌≡◌, refl}
use mathlib.Core.Logic.{◌↔◌, ◌≢◌, inl, inr}
use mathlib.Core.Bool.{Bool, true, false, ◌&&◌}
use mathlib.Core.List.{List, [], ◌∷◌}
use native.Mathlib.Omega.{arith}
use text.Mathlib.Text.{◌==◌ as str_eq}
use text.Mathlib.TextEquality.{eq_iff as str_eq_iff}
use msim_dap.Common.Tests.{nat_beq, nat_beq_iff, Bool-cases}
use msim_dap.Common.Int.{ℤ, pos, negsuc}

pub record HasEq {ℓ} (A : Type ℓ) : Type ℓ where
  pub eq : A → A → Bool
  pub eq_iff : (x y : A) → (eq x y ≡ true) ↔ (x ≡ y)

module _ {ℓ} {A : Type ℓ} ⦃e : HasEq A⦄ where
  infix 50 ◌==◌
  abbrev pub ◌==◌ : A → A → Bool
  x == y = e.eq x y

  pub same : (a b : A) → (a == b) ≡ true → a ≡ b
  same a b = (e.eq_iff a b).0

  pub eq_self : (a : A) → (a == a) ≡ true
  eq_self a = (e.eq_iff a a).1 refl

  pub differ : (a b : A) → a ≢ b → (a == b) ≡ false
  differ a b h = elim (Bool-cases (a == b)) [ inl p ↦ absurd (h (same a b p)) | inr p ↦ p ]

  abbrev list_beq : List A → List A → Bool
  list_beq [] [] = true
  list_beq [] (y ∷ ys) = false
  list_beq (x ∷ xs) [] = false
  list_beq (x ∷ xs) (y ∷ ys) = (x == y) && list_beq xs ys

  pub list_beq_iff : (xs ys : List A) → (list_beq xs ys ≡ true) ↔ (xs ≡ ys)
  list_beq_iff [] [] = (λ h. refl, λ h. refl)
  list_beq_iff [] (y ∷ ys) = (λ h. cc, λ h. cc)
  list_beq_iff (x ∷ xs) [] = (λ h. cc, λ h. cc)
  list_beq_iff (x ∷ xs) (y ∷ ys) = (
    λ h. ground (arith, e.eq_iff x y, list_beq_iff xs ys),
    λ h. ground (arith, e.eq_iff x y, list_beq_iff xs ys),
  )

instance abbrev pub list_eq {ℓ} : {A : Type ℓ} ⦃e : HasEq A⦄ → HasEq (List A)
list_eq = record { eq_iff = list_beq_iff; eq = list_beq }

module _ {ℓ κ} {A : Type ℓ} {B : Type κ} ⦃d : HasEq A⦄ ⦃e : HasEq B⦄ where
  abbrev pair_beq : A × B → A × B → Bool
  pair_beq (a, b) (c, d) = (a == c) && (b == d)

  pub pair_beq_iff : (p q : A × B) → (pair_beq p q ≡ true) ↔ (p ≡ q)
  pair_beq_iff (a, b) (a', b') = (
    λ h. ground (arith, d.eq_iff a a', e.eq_iff b b'),
    λ h. ground (arith, d.eq_iff a a', e.eq_iff b b'),
  )

instance abbrev pub pair_eq {ℓ κ} :
    {A : Type ℓ} {B : Type κ} ⦃d : HasEq A⦄ ⦃e : HasEq B⦄ → HasEq (A × B)
pair_eq = record { eq_iff = pair_beq_iff; eq = pair_beq }

instance abbrev pub string_eq : HasEq String
string_eq = record { eq_iff = str_eq_iff; eq = str_eq }

abbrev int_beq : ℤ → ℤ → Bool
int_beq (pos a) (pos b) = nat_beq a b
int_beq (pos a) (negsuc b) = false
int_beq (negsuc a) (pos b) = false
int_beq (negsuc a) (negsuc b) = nat_beq a b

pub int_beq_iff : (a b : ℤ) → (int_beq a b ≡ true) ↔ (a ≡ b)
int_beq_iff (pos a) (pos b) = ground arith
int_beq_iff (pos a) (negsuc b) = ground arith
int_beq_iff (negsuc a) (pos b) = ground arith
int_beq_iff (negsuc a) (negsuc b) = ground arith

instance abbrev pub int_eq : HasEq ℤ
int_eq = record { eq_iff = int_beq_iff; eq = int_beq }

instance abbrev pub nat_eq : HasEq ℕ
nat_eq = record { eq_iff = nat_beq_iff; eq = nat_beq }
