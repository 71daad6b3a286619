-- ===== src/SliceUtils.antt =====
-- internal/sliceutils/sliceutils.go.
use authd.Prelude.{
  ◌≡◌, refl, Bool, true, false, not, ◌&&◌, Option, none, some, List, [], ◌∷◌, arith, Eq, ◌==◌, Dict,
  lookup, insert, lookup-insert, lookup-empty, contains, if◌then◌else◌, select, ap,
}

abbrev pub found : Option (Unit {0}) → Bool
found none = false
found (some _) = true

module _ {ℓ} {T : Type ℓ} ⦃e : Eq T⦄ where
  -- `setB[item] = struct{}{}` for each item
  unfoldable pub to_set : List T → Dict T (Unit {0})
  to_set [] = []
  to_set (item ∷ items) = insert item tt (to_set items)

  abbrev pub difference_loop : Dict T (Unit {0}) → List T → List T
  difference_loop set [] = []
  difference_loop set (item ∷ items) =
      let rest = difference_loop set items in
      if not (found (lookup item set)) then item ∷ rest else rest

  unfoldable pub difference : List T → List T → List T
  difference a b = difference_loop (to_set b) a

  abbrev pub intersection_loop : Dict T (Unit {0}) → List T → List T
  intersection_loop set [] = []
  intersection_loop set (item ∷ items) =
      let rest = intersection_loop set items in
      if found (lookup item set) then item ∷ rest else rest

  unfoldable pub intersection : List T → List T → List T
  intersection a b = intersection_loop (to_set b) a

  -- The set has the items of the list.
  found-to_set : (x : T) (b : List T) → found (lookup x (to_set b)) ≡ contains b x
  unfolding to_set
  found-to_set x [] = ground (arith, lookup-empty {V = Unit {0}} x)
  found-to_set x (item ∷ items) =
      ground (arith, lookup-insert item x tt (to_set items), found-to_set x items)

  -- The elements of `a` that are not in `b`, in the order and as often as they stand in `a`.
  pub difference-eq-select : (a b : List T) → difference a b ≡ select (λ x. not (contains b x)) a
  unfolding difference
  difference-eq-select [] b = refl
  difference-eq-select (x ∷ a) b = ground (arith, found-to_set x b, difference-eq-select a b)

  pub intersection-eq-select : (a b : List T) → intersection a b ≡ select (contains b) a
  unfolding intersection
  intersection-eq-select [] b = refl
  intersection-eq-select (x ∷ a) b = ground (arith, found-to_set x b, intersection-eq-select a b)

  contains_respects : (p : T → Bool) (x y : T) → (y == x) ≡ true → p y ≡ p x
  contains_respects p x y h = ap p ((e.equals_iff y x).0 h)

  contains-select :
      (p : T → Bool) (a : List T) (x : T) → contains (select p a) x ≡ (contains a x && p x)
  contains-select p [] x = refl
  contains-select p (y ∷ a) x = ground (arith, contains-select p a x, contains_respects p x y)

  -- The difference has what is in the first list and not in the second, and the intersection what is in
  -- both.
  pub difference-intersection_mem :
      (a b : List T) (x : T)
      → (contains (difference a b) x ≡ (contains a x && not (contains b x)))
        × (contains (intersection a b) x ≡ (contains a x && contains b x))
  difference-intersection_mem a b x = (
    rw difference-eq-select (contains-select (λ y. not (contains b y)) a x),
    rw intersection-eq-select (contains-select (contains b) a x),
  )
