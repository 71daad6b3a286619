-- ===== src/Prelude/Dicts.antt =====
-- Go's `map[K]V` as an association list: a write replaces, `delete` drops, the order is not kept.
use mathlib.Core.Path.{◌≡◌, refl}
use mathlib.Core.List.{List, [], ◌∷◌}
use mathlib.Core.Option.{Option, none, some}
use native.Mathlib.Omega.{arith}
use Prim.Native.Nat.{◌+◌}
use authd.Prelude.Lists.{length}
use authd.Prelude.Tests.{if◌then◌else◌, Eq, ◌==◌}

abbrev pub Dict {ℓ κ} : Type ℓ → Type κ → Type (ℓ ⊔ κ)
Dict K V = List (K × V)

module _ {ℓ κ} {K : Type ℓ} {V : Type κ} ⦃e : Eq K⦄ where
  -- `v, ok := m[k]`
  unfoldable pub lookup : K → Dict K V → Option V
  lookup k [] = none
  lookup k ((j, v) ∷ m) = if j == k then some v else lookup k m

  -- `delete(m, k)`
  unfoldable pub erase : K → Dict K V → Dict K V
  erase k [] = []
  erase k ((j, v) ∷ m) = let rest = erase k m in if j == k then rest else (j, v) ∷ rest

  -- `m[k] = v`
  unfoldable pub insert : K → V → Dict K V → Dict K V
  insert k v m = (k, v) ∷ erase k m

  pub lookup-erase :
      (k j : K) (m : Dict K V) → lookup j (erase k m) ≡ (if k == j then none else lookup j m)
  unfolding lookup erase
  lookup-erase k j [] = ground arith
  lookup-erase k j ((i, v) ∷ m) =
      ground (arith, lookup-erase k j m, e.equals_iff i k, e.equals_iff i j, e.equals_iff k j)

  pub lookup-insert :
      (k j : K) (v : V) (m : Dict K V)
      → lookup j (insert k v m) ≡ (if k == j then some v else lookup j m)
  unfolding lookup insert
  lookup-insert k j v m = ground (arith, lookup-erase k j m)

  pub lookup-empty : (k : K) → lookup k [] ≡ none
  unfolding lookup
  lookup-empty k = refl

  -- no key stands twice
  abbrev pub Distinct : Dict K V → Type κ
  Distinct [] = Unit
  Distinct ((k, v) ∷ m) = (lookup k m ≡ none) × Distinct m

  pub erase_absent : (k : K) (m : Dict K V) → lookup k m ≡ none → erase k m ≡ m
  unfolding lookup erase
  erase_absent k [] h = refl
  erase_absent k ((j, v) ∷ m) h = ground (arith, erase_absent k m)

  -- A new key's entry, deleted again.
  pub erase-insert_fresh :
      (k : K) (v : V) (m : Dict K V) → lookup k m ≡ none → erase k (insert k v m) ≡ m
  unfolding insert erase
  erase-insert_fresh k v m h = ground (arith, e.equals_iff k k, erase_absent k m h)

  pub erase-Distinct : (k : K) (m : Dict K V) → Distinct m → Distinct (erase k m)
  unfolding erase
  erase-Distinct k [] h = tt
  erase-Distinct k ((j, v) ∷ m) h = ground (arith, erase-Distinct k m h.1, lookup-erase k j m)

  pub insert-Distinct : (k : K) (v : V) (m : Dict K V) → Distinct m → Distinct (insert k v m)
  unfolding insert
  insert-Distinct k v m h =
      (ground (arith, lookup-erase k k m, e.equals_iff k k), erase-Distinct k m h)

  pub length-insert_fresh :
      (k : K) (v : V) (m : Dict K V) → lookup k m ≡ none → length (insert k v m) ≡ length m + 1
  unfolding insert
  length-insert_fresh k v m h = ground (arith, erase_absent k m h)

  pub length-erase :
      (k : K) (v : V) (m : Dict K V)
      → Distinct m
      → lookup k m ≡ some v
      → length (erase k m) + 1 ≡ length m
  unfolding lookup erase
  length-erase k v [] d h = ground arith
  length-erase k v ((j, w) ∷ m) d h =
      ground (arith, length-erase k v m d.1, erase_absent k m, e.equals_iff j k)
