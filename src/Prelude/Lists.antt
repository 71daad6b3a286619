-- ===== src/Prelude/Lists.antt =====
-- Lists over the native numbers, Boolean search and filtering.
use Prim.Native.Nat.{ℕ, suc, ◌+◌}
use mathlib.Core.Path.{◌≡◌, refl}
use mathlib.Core.Bool.{Bool, true, false, ◌||◌}
use mathlib.Core.List.{List, [], ◌∷◌, ◌++◌}
use mathlib.Core.Option.{Option, none, some}
use native.Mathlib.Omega.{arith}
use authd.Prelude.Tests.{if◌then◌else◌, Eq, ◌==◌}

module _ {ℓ} {A : Type ℓ} where
  abbrev pub length : List A → ℕ
  length [] = 0
  length (x ∷ xs) = suc (length xs)

  -- whether some element passes
  abbrev pub any : (A → Bool) → List A → Bool
  any p [] = false
  any p (x ∷ xs) = p x || any p xs

  -- the first element that passes
  abbrev pub find : (A → Bool) → List A → Option A
  find p [] = none
  find p (x ∷ xs) = if p x then some x else find p xs

  -- the elements that pass, in order
  abbrev pub select : (A → Bool) → List A → List A
  select p [] = []
  select p (x ∷ xs) = let rest = select p xs in if p x then x ∷ rest else rest

  -- every element that passes is replaced by `y`
  abbrev pub replace : (A → Bool) → A → List A → List A
  replace p y [] = []
  replace p y (x ∷ xs) = (if p x then y else x) ∷ replace p y xs

  pub length-append : (xs ys : List A) → length (xs ++ ys) ≡ length xs + length ys
  length-append [] ys = omega arith
  length-append (x ∷ xs) ys = omega (arith, length-append xs ys)

  pub any-append : (p : A → Bool) (xs ys : List A) → any p (xs ++ ys) ≡ (any p xs || any p ys)
  any-append p [] ys = refl
  any-append p (x ∷ xs) ys = ground (arith, any-append p xs ys)

  pub find-append_none :
      (p : A → Bool) (xs ys : List A) → any p xs ≡ false → find p (xs ++ ys) ≡ find p ys
  find-append_none p [] ys h = refl
  find-append_none p (x ∷ xs) ys h = ground (arith, find-append_none p xs ys)

  pub find-none_of_any : (p : A → Bool) (xs : List A) → any p xs ≡ false → find p xs ≡ none
  find-none_of_any p [] h = refl
  find-none_of_any p (x ∷ xs) h = ground (arith, find-none_of_any p xs)

  pub any-false_of_find : (p : A → Bool) (xs : List A) → find p xs ≡ none → any p xs ≡ false
  any-false_of_find p [] h = refl
  any-false_of_find p (x ∷ xs) h = ground (arith, any-false_of_find p xs)

  pub any_of_find : (p : A → Bool) (xs : List A) (x : A) → find p xs ≡ some x → any p xs ≡ true
  any_of_find p [] x h = ground arith
  any_of_find p (y ∷ xs) x h = ground (arith, any_of_find p xs x)

  -- what `find` returns passes
  pub find_passes : (p : A → Bool) (xs : List A) (x : A) → find p xs ≡ some x → p x ≡ true
  find_passes p [] x h = ground arith
  find_passes p (y ∷ xs) x h = ground (arith, find_passes p xs x)

module _ {ℓ} {A : Type ℓ} ⦃e : Eq A⦄ where
  -- slices.Contains
  abbrev pub contains : List A → A → Bool
  contains xs a = any (λ x. x == a) xs
