-- ===== src/TempEntries/Indexes.antt =====
-- The records of internal/users/tempentries are maps by ID with further maps from a text to the ID.
-- Here: when such a map agrees with the records, and what adding and deleting keep.
use authd.Prelude.{
  ℕ, ◌≡◌, Option, none, some, arith, Eq, nat_eq, Dict, lookup, insert, erase, lookup-insert,
  lookup-erase,
}

module _ {ℓ κ} {V : Type ℓ} {K : Type κ} ⦃e : Eq K⦄ (f : V → K) where
  -- the text of the record at an ID
  abbrev pub text_at : Option V → Option K
  text_at none = none
  text_at (some v) = some (f v)

  pub record Indexes (records : Dict ℕ V) (index : Dict K ℕ) : Type (ℓ ⊔ κ) where
    pub forward : (k : ℕ) (v : V) → lookup k records ≡ some v → lookup (f v) index ≡ some k
    pub backward : (t : K) (k : ℕ) → lookup t index ≡ some k → text_at (lookup k records) ≡ some t

  module _ (records : Dict ℕ V) (index : Dict K ℕ) (x : Indexes records index) (id : ℕ)
      (v : V) where
    pub insert-Indexes :
        lookup id records ≡ none
        → lookup (f v) index ≡ none
        → Indexes (insert id v records) (insert (f v) id index)
    insert-Indexes free new = record {
      forward = λ k w h. ground (
        arith,
        lookup-insert id k v records,
        lookup-insert (f v) (f w) id index,
        x.forward k w,
        e.equals_iff (f v) (f w),
        e.equals_iff (f v) (f v),
      );
      backward = λ t k h. ground (
        arith,
        lookup-insert id k v records,
        lookup-insert (f v) t id index,
        x.backward t k,
        e.equals_iff (f v) t,
      );
    }

    pub erase-Indexes : lookup id records ≡ some v → Indexes (erase id records) (erase (f v) index)
    erase-Indexes there = record {
      forward = λ k w h. ground (
        arith,
        lookup-erase id k records,
        lookup-erase (f v) (f w) index,
        x.forward k w,
        x.forward id v there,
        e.equals_iff (f v) (f w),
      );
      backward = λ t k h. ground (
        arith,
        lookup-erase id k records,
        lookup-erase (f v) t index,
        x.backward t k,
        there,
        e.equals_iff (f v) t,
      );
    }
