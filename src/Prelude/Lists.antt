-- ===== src/Prelude/Lists.antt =====
-- Lists measured by native numbers, Boolean tests on lists, and predicates by recursion.
use Prim.Native.Nat.{ℕ, suc, ◌+◌, ◌≤◌}
use mathlib.Core.Path.{◌≡◌, refl}
use mathlib.Core.Logic.{◌↔◌, inl, inr}
use mathlib.Core.Bool.{Bool, true, false, ◌&&◌, ◌||◌, not}
use mathlib.Core.List.{List, [], ◌∷◌, ◌++◌}
use native.Mathlib.Omega.{arith}
use hungrx_agent.Prelude.Tests.{if◌then◌else◌, Bool-cases}

module _ {ℓ} {A : Type ℓ} where
  abbrev pub length : List A → ℕ
  length [] = 0
  length (x ∷ xs) = suc (length xs)

  -- `not xs` of a Python list
  abbrev pub is_empty : List A → Bool
  is_empty [] = true
  is_empty (x ∷ xs) = false

  -- `any(p(x) for x in xs)`
  unfoldable pub any : (A → Bool) → List A → Bool
  any p [] = false
  any p (x ∷ xs) = p x || any p xs

  -- `[x for x in xs if p(x)]`
  unfoldable pub keep_if : (A → Bool) → List A → List A
  keep_if p [] = []
  keep_if p (x ∷ xs) = let rest = keep_if p xs in if p x then x ∷ rest else rest

  abbrev pub All {κ} : (A → Type κ) → List A → Type κ
  All P [] = Unit
  All P (x ∷ xs) = P x × All P xs

  pub length-append : (xs ys : List A) → length (xs ++ ys) ≡ length xs + length ys
  length-append [] ys = omega arith
  length-append (x ∷ xs) ys = omega (arith, length-append xs ys)

  pub keep_if-append :
      (p : A → Bool) (xs ys : List A) → keep_if p (xs ++ ys) ≡ keep_if p xs ++ keep_if p ys
  unfolding keep_if
  keep_if-append p [] ys = refl
  keep_if-append p (x ∷ xs) ys = ground (arith, keep_if-append p xs ys)

  pub length-keep_if : (p : A → Bool) (xs : List A) → length (keep_if p xs) ≤ length xs
  unfolding keep_if
  length-keep_if p [] = omega arith
  length-keep_if p (x ∷ xs) = ground (arith, length-keep_if p xs)

  pub length-partition :
      (p : A → Bool) (xs : List A)
      → length (keep_if p xs) + length (keep_if (λ x. not (p x)) xs) ≡ length xs
  unfolding keep_if
  length-partition p [] = omega arith
  length-partition p (x ∷ xs) = ground (arith, length-partition p xs)

module _ {ℓ} {A : Type ℓ} where
  pub All-append {κ} : (P : A → Type κ) (xs ys : List A) → All P xs → All P ys → All P (xs ++ ys)
  All-append P [] ys hx hy = hy
  All-append P (x ∷ xs) ys hx hy = (hx.0, All-append P xs ys hx.1 hy)

  pub All-append_left {κ} : (P : A → Type κ) (xs ys : List A) → All P (xs ++ ys) → All P xs
  All-append_left P [] ys h = tt
  All-append_left P (x ∷ xs) ys h = (h.0, All-append_left P xs ys h.1)

  pub All-append_right {κ} : (P : A → Type κ) (xs ys : List A) → All P (xs ++ ys) → All P ys
  All-append_right P [] ys h = h
  All-append_right P (x ∷ xs) ys h = All-append_right P xs ys h.1

  pub All-map_pred {κ μ} :
      (P : A → Type κ) (Q : A → Type μ) (f : (a : A) → P a → Q a) (xs : List A)
      → All P xs
      → All Q xs
  All-map_pred P Q f [] h = tt
  All-map_pred P Q f (x ∷ xs) h = (f x h.0, All-map_pred P Q f xs h.1)

  pub All-keep_if : (p : A → Bool) (xs : List A) → All (λ x. p x ≡ true) (keep_if p xs)
  unfolding keep_if
  All-keep_if p [] = tt
  All-keep_if p (x ∷ xs) = ground (arith, All-keep_if p xs)

  pub All-append_iff {κ} :
      (P : A → Type κ) (xs ys : List A) → All P (xs ++ ys) ↔ (All P xs × All P ys)
  All-append_iff P xs ys = (
    λ h. (All-append_left P xs ys h, All-append_right P xs ys h),
    λ h. All-append P xs ys h.0 h.1,
  )

  pub is_empty-keep_if :
      (p : A → Bool) (xs : List A) → (is_empty (keep_if p xs) ≡ true) ↔ All (λ x. p x ≡ false) xs
  unfolding keep_if
  is_empty-keep_if p [] = (λ e. tt, λ h. refl)
  is_empty-keep_if p (x ∷ xs) = elim (Bool-cases (p x)) [
    | inl e ↦ rw e (λ h. absurd (cc h), λ h. absurd (cc h.0))
    | inr e ↦ rw e (λ h. (refl, (is_empty-keep_if p xs).0 h), λ h. (is_empty-keep_if p xs).1 h.1)
  ]

  pub is_empty-append : (xs ys : List A) → is_empty (xs ++ ys) ≡ (is_empty xs && is_empty ys)
  is_empty-append [] ys = refl
  is_empty-append (x ∷ xs) ys = refl

  -- A first part that is known to satisfy `P` can be left out.
  pub All-append_known {κ} :
      (P : A → Type κ) (xs ys : List A) → All P xs → All P (xs ++ ys) ↔ All P ys
  All-append_known P xs ys h = (All-append_right P xs ys, All-append P xs ys h)
