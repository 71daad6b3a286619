-- ===== src/Prelude/Keys.antt =====
-- Rows that a key or a test tells apart, and properties of all rows: what inserting, replacing and
-- selecting keep.
use mathlib.Core.Path.{◌≡◌, refl, subst, ◌∙◌}
use mathlib.Core.Logic.{inl, inr}
use mathlib.Core.Option.{some}
use mathlib.Core.Bool.{Bool, true, false, not, ◌&&◌, ◌||◌}
use mathlib.Core.List.{List, [], ◌∷◌, ◌++◌}
use native.Mathlib.Omega.{arith}
use authd.Prelude.Tests.{Eq, ◌==◌, Bool-cases, if◌then◌else◌}
use authd.Prelude.Lists.{any, find, select, replace, any-append}

module _ {ℓ} {A : Type ℓ} where
  abbrev pub All {κ} : (A → Type κ) → List A → Type κ
  All P [] = Unit
  All P (x ∷ xs) = P x × All P xs

  -- no two elements pass the test together
  abbrev pub Unique : (A → A → Bool) → List A → Type 0
  Unique same [] = Unit {0}
  Unique same (x ∷ xs) = (any (λ y. same y x) xs ≡ false) × Unique same xs

module _ {ℓ κ} {A : Type ℓ} (P : A → Type κ) where
  pub All-append_one : (x : A) (xs : List A) → All P xs → P x → All P (xs ++ x ∷ [])
  All-append_one x [] h p = (p, tt)
  All-append_one x (y ∷ xs) h p = (h.0, All-append_one x xs h.1 p)

  All-if : (b : Bool) (x : A) (xs : List A) → P x → All P xs → All P (if b then x ∷ xs else xs)
  All-if true x xs p h = (p, h)
  All-if false x xs p h = h

  pub All-select : (q : A → Bool) (xs : List A) → All P xs → All P (select q xs)
  All-select q [] h = tt
  All-select q (x ∷ xs) h = All-if (q x) x (select q xs) h.0 (All-select q xs h.1)

  pub All-imp {μ} : (Q : A → Type μ) (xs : List A) → ((x : A) → P x → Q x) → All P xs → All Q xs
  All-imp Q [] f h = tt
  All-imp Q (x ∷ xs) f h = (f x h.0, All-imp Q xs f h.1)

module _ {ℓ} {A : Type ℓ} where
  pub any-select-false :
      (p q : A → Bool) (xs : List A) → any p xs ≡ false → any p (select q xs) ≡ false
  any-select-false p q [] h = refl
  any-select-false p q (x ∷ xs) h = ground (arith, any-select-false p q xs)

  pub any-replace-false :
      (p q : A → Bool) (y : A) (xs : List A)
      → any p xs ≡ false
      → p y ≡ false
      → any p (replace q y xs) ≡ false
  any-replace-false p q y [] h e = refl
  any-replace-false p q y (x ∷ xs) h e = ground (arith, any-replace-false p q y xs)

  pub replace_absent : (q : A → Bool) (y : A) (xs : List A) → any q xs ≡ false → replace q y xs ≡ xs
  replace_absent q y [] h = refl
  replace_absent q y (x ∷ xs) h = ground (arith, replace_absent q y xs)

  pub any_of_except :
      (p q : A → Bool) (xs : List A)
      → any (λ r. p r && not (q r)) xs ≡ false
      → any q xs ≡ false
      → any p xs ≡ false
  any_of_except p q [] h e = refl
  any_of_except p q (x ∷ xs) h e = ground (arith, any_of_except p q xs)

  pub any-false-tail :
      (p : A → Bool) (x : A) (xs : List A)
      → any p (x ∷ xs) ≡ false
      → (p x ≡ false) × (any p xs ≡ false)
  any-false-tail p x xs h = ground arith

  pub any-false_right :
      (p q : A → Bool) (xs : List A) → any (λ r. p r || q r) xs ≡ false → any q xs ≡ false
  any-false_right p q [] h = refl
  any-false_right p q (x ∷ xs) h = ground (arith, any-false_right p q xs)

  pub any-false_left :
      (p q : A → Bool) (xs : List A) → any (λ r. p r || q r) xs ≡ false → any p xs ≡ false
  any-false_left p q [] h = refl
  any-false_left p q (x ∷ xs) h = ground (arith, any-false_left p q xs)

  pub select-not_absent :
      (p : A → Bool) (xs : List A) → any p xs ≡ false → select (λ x. not (p x)) xs ≡ xs
  select-not_absent p [] h = refl
  select-not_absent p (x ∷ xs) h = ground (arith, select-not_absent p xs)

  pub select-append :
      (p : A → Bool) (xs ys : List A) → select p (xs ++ ys) ≡ select p xs ++ select p ys
  select-append p [] ys = refl
  select-append p (x ∷ xs) ys = ground (arith, select-append p xs ys)

  pub select-select-not : (p : A → Bool) (xs : List A) → select p (select (λ x. not (p x)) xs) ≡ []
  select-select-not p [] = refl
  select-select-not p (x ∷ xs) = ground (arith, select-select-not p xs)

  pub select_idem : (p : A → Bool) (xs : List A) → select p (select p xs) ≡ select p xs
  select_idem p [] = refl
  select_idem p (x ∷ xs) = ground (arith, select_idem p xs)

  pub any-never : (p : A → Bool) (xs : List A) → any (λ r. p r && not (p r)) xs ≡ false
  any-never p [] = refl
  any-never p (x ∷ xs) = ground (arith, any-never p xs)

  pub Unique-select :
      (same : A → A → Bool) (q : A → Bool) (xs : List A)
      → Unique same xs
      → Unique same (select q xs)
  Unique-select same q [] h = tt
  Unique-select same q (x ∷ xs) h =
      ground (arith, Unique-select same q xs h.1, any-select-false (λ y. same y x) q xs h.0)

  pub Unique-append_one :
      (same : A → A → Bool) (x : A) (xs : List A)
      → ((y : A) → same y x ≡ false → same x y ≡ false)
      → Unique same xs
      → any (λ y. same y x) xs ≡ false
      → Unique same (xs ++ x ∷ [])
  Unique-append_one same x [] s h e = (refl, tt)
  Unique-append_one same x (y ∷ xs) s h e = (
    ground (arith, any-append (λ z. same z y) xs (x ∷ []), s y),
    Unique-append_one same x xs s h.1 (ground arith),
  )

pub ==_false_symm {ℓ} : {K : Type ℓ} ⦃e : Eq K⦄ (a b : K) → (a == b) ≡ false → (b == a) ≡ false
==_false_symm ⦃e⦄ a b h = ground (arith, e.equals_iff a b, e.equals_iff b a)

module _ {ℓ κ} {A : Type ℓ} {K : Type κ} ⦃e : Eq K⦄ where
  abbrev pub UniqueBy : (A → K) → List A → Type 0
  UniqueBy key = Unique (λ y x. key y == key x)

  -- Where the keys of a row in the list are asked for, adding a row keeps the answer.
  pub any_key-append :
      (key : A → K) (x : A) (xs : List A) (k : K)
      → any (λ r. key r == k) xs ≡ true
      → any (λ r. key r == k) (xs ++ x ∷ []) ≡ true
  any_key-append key x xs k h = ground (arith, any-append (λ r. key r == k) xs (x ∷ []))

  pub UniqueBy-append_one :
      (key : A → K) (x : A) (xs : List A)
      → UniqueBy key xs
      → any (λ y. key y == key x) xs ≡ false
      → UniqueBy key (xs ++ x ∷ [])
  UniqueBy-append_one key x xs =
      Unique-append_one (λ y z. key y == key z) x xs (λ y. ==_false_symm (key y) (key x))

module _ {ℓ κ} {A : Type ℓ} {J : Type κ} ⦃d : Eq J⦄ (pk : A → J) where
  -- Replacing the row of a primary key, where no other row has the new row's other key.
  pub UniqueBy-replace {μ} :
      {K : Type μ} ⦃e : Eq K⦄ (key : A → K) (u : A) (xs : List A)
      → UniqueBy pk xs
      → UniqueBy key xs
      → any (λ r. key r == key u && not (pk r == pk u)) xs ≡ false
      → UniqueBy key (replace (λ r. pk r == pk u) u xs)
  UniqueBy-replace key u [] up uk h = tt
  UniqueBy-replace key u (x ∷ xs) up uk h =
      let (hx, hs) = any-false-tail (λ r. key r == key u && not (pk r == pk u)) x xs h in
      elim (Bool-cases (pk x == pk u)) [
        | inl hit ↦
            let absent : any (λ r. pk r == pk u) xs ≡ false =
              subst (λ k. any (λ r. pk r == k) xs ≡ false) ((d.equals_iff (pk x) (pk u)).0 hit)
                up.0 in
            rw (hit, replace_absent (λ r. pk r == pk u) u xs absent)
              (any_of_except (λ r. key r == key u) (λ r. pk r == pk u) xs hs absent, uk.1)
        | inr miss ↦
            let other : (key u == key x) ≡ false = ==_false_symm (key x) (key u) (ground arith) in
            rw miss (
              any-replace-false (λ r. key r == key x) (λ r. pk r == pk u) u xs uk.0 other,
              UniqueBy-replace key u xs up.1 uk.1 hs,
            )
      ]

  -- The replacement changes no row's primary key.
  pub any-replace_key :
      (k : J) (u : A) (xs : List A)
      → any (λ r. pk r == k) (replace (λ r. pk r == pk u) u xs) ≡ any (λ r. pk r == k) xs
  any-replace_key k u [] = refl
  any-replace_key k u (x ∷ xs) = ground (arith, d.equals_iff (pk x) (pk u), any-replace_key k u xs)

  pub any_key-replace :
      (u : A) (xs : List A) (k : J)
      → any (λ r. pk r == k) xs ≡ true
      → any (λ r. pk r == k) (replace (λ r. pk r == pk u) u xs) ≡ true
  any_key-replace u xs k h = any-replace_key k u xs ∙ h

  pub find-replace_self :
      (u : A) (xs : List A)
      → any (λ r. pk r == pk u) xs ≡ true
      → find (λ r. pk r == pk u) (replace (λ r. pk r == pk u) u xs) ≡ some u
  find-replace_self u [] h = ground arith
  find-replace_self u (x ∷ xs) h =
      ground (arith, d.equals_iff (pk u) (pk u), find-replace_self u xs)

  pub find-replace_ne :
      (k : J) (u : A) (xs : List A)
      → (pk u == k) ≡ false
      → find (λ r. pk r == k) (replace (λ r. pk r == pk u) u xs) ≡ find (λ r. pk r == k) xs
  find-replace_ne k u [] h = refl
  find-replace_ne k u (x ∷ xs) h =
      ground (arith, d.equals_iff (pk x) (pk u), find-replace_ne k u xs)
