-- ===== src/Prelude/Upserts.antt =====
-- A table after an `INSERT`, or an `UPDATE … WHERE` on the primary key, of one row.
use mathlib.Core.Path.{◌≡◌, ◌∙◌}
use mathlib.Core.Logic.{◌⊎◌, inl, inr}
use mathlib.Core.Bool.{Bool, false}
use mathlib.Core.List.{List, [], ◌∷◌, ◌++◌}
use mathlib.Core.Option.{some}
use native.Mathlib.Omega.{arith}
use authd.Prelude.Tests.{Eq, ◌==◌, Bool-cases, ==_refl}
use authd.Prelude.Lists.{any, find, replace, find-append_none}
use authd.Prelude.Keys.{any-replace_key, find-replace_self, find-replace_ne}

-- The row is found under its key, or (after an update of a key that is not there) no row is; what is
-- found under every other key is as it was.
pub record Upserted {ℓ κ} {A : Type ℓ} {K : Type κ} ⦃e : Eq K⦄ (pk : A → K) (u : A) (xs ys : List A)
    : Type (ℓ ⊔ κ) where
  pub stored : (find (λ r. pk r == pk u) ys ≡ some u) ⊎ (any (λ r. pk r == pk u) ys ≡ false)
  pub others : (k : K) → (pk u == k) ≡ false → find (λ r. pk r == k) ys ≡ find (λ r. pk r == k) xs

module _ {ℓ} {A : Type ℓ} where
  pub find-append_skip :
      (p : A → Bool) (x : A) (xs : List A) → p x ≡ false → find p (xs ++ x ∷ []) ≡ find p xs
  find-append_skip p x [] h = ground arith
  find-append_skip p x (y ∷ xs) h = ground (arith, find-append_skip p x xs)

module _ {ℓ κ} {A : Type ℓ} {K : Type κ} ⦃e : Eq K⦄ (pk : A → K) (u : A) (xs : List A) where
  pub Upserted-append : any (λ r. pk r == pk u) xs ≡ false → Upserted pk u xs (xs ++ u ∷ [])
  Upserted-append fresh = record {
    stored =
        inl
          (find-append_none (λ r. pk r == pk u) xs (u ∷ []) fresh ∙ ground (arith, ==_refl (pk u)));
    others = λ k h. find-append_skip (λ r. pk r == k) u xs h;
  }

  pub Upserted-replace : Upserted pk u xs (replace (λ r. pk r == pk u) u xs)
  Upserted-replace = record {
    stored = elim (Bool-cases (any (λ r. pk r == pk u) xs)) [
      | inl there ↦ inl (find-replace_self pk u xs there)
      | inr absent ↦ inr (any-replace_key pk (pk u) u xs ∙ absent)
    ];
    others = λ k h. find-replace_ne pk k u xs h;
  }
