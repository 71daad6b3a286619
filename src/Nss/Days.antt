-- ===== src/Nss/Days.antt =====
-- convertToNumberOfDays of internal/services/nss/nss.go, from Go's 64-bit int to an int32.
use authd.Prelude.{
  ℕ, ◌-◌, ◌%◌, ◌^◌, ◌≤◌, ◌<◌, ltb, if◌then◌else◌, ℤ, pos, negsuc, ◌≡◌, arith, refl, Bool, true,
  false,
}

abbrev pub max_int32 : ℕ
max_int32 = 2 ^ 31 - 1

-- `int32(i)` keeps the low 32 bits; those of -(n + 1) are the inverted ones of n.
abbrev pub low_bits : ℕ → ℤ
low_bits r = if ltb max_int32 r then pos (2 ^ 32 - 1 - r) else negsuc r

unfoldable pub convert_to_number_of_days : ℤ → ℤ
convert_to_number_of_days (pos n) = if ltb max_int32 n then pos max_int32 else pos n
convert_to_number_of_days (negsuc n) = low_bits (n % 2 ^ 32)

-- within the bounds of an int32
abbrev pub IsInt32 : ℤ → Type 0
IsInt32 (pos n) = n ≤ max_int32
IsInt32 (negsuc n) = n ≤ max_int32

-- The number itself where an int32 holds it, and the greatest int32 above that.
abbrev pub Clamps : ℤ → ℤ → Type 0
Clamps (pos n) d = (n ≤ max_int32 → d ≡ pos n) × (max_int32 < n → d ≡ pos max_int32)
Clamps (negsuc n) d = n ≤ max_int32 → d ≡ negsuc n

if-IsInt32 :
    (b : Bool) (x y : ℤ)
    → (b ≡ true → IsInt32 x)
    → (b ≡ false → IsInt32 y)
    → IsInt32 (if b then x else y)
if-IsInt32 true x y h k = h refl
if-IsInt32 false x y h k = k refl

-- The number of days is always an int32: the same number where an int32 holds it, and the greatest
-- int32 for any number above that.
pub convert_to_number_of_days_bounds :
    (i : ℤ) → IsInt32 (convert_to_number_of_days i) × Clamps i (convert_to_number_of_days i)
unfolding convert_to_number_of_days
convert_to_number_of_days_bounds (pos n) = (
  if-IsInt32 (ltb max_int32 n) (pos max_int32) (pos n) (λ h. omega arith) (λ h. ground arith),
  (λ below. ground arith, λ above. ground arith),
)
convert_to_number_of_days_bounds (negsuc n) =
    let r = n % 2 ^ 32 in
    (
      if-IsInt32 (ltb max_int32 r) (pos (2 ^ 32 - 1 - r)) (negsuc r) (λ h. ground arith)
          (λ h. ground arith),
      λ below. let same : n % 2 ^ 32 ≡ n = omega arith in ground (arith, same),
    )
