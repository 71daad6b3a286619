-- ===== src/IdGenerator/Bounds.antt =====
-- internal/users/idgenerator/idgenerator.go: where the generated IDs lie.
use authd.Prelude.{ℕ, ◌+◌, ◌%◌, ◌^◌, ◌≤◌, ◌<◌, ◌≡◌, ap, arith}
use authd.Errors.{Result, ok}
use authd.IdGenerator.{IdGenerator, u32, id_range, generate_uid}

in_range :
    (min_id max_id n : ℕ)
    → min_id ≤ max_id
    → max_id < 2 ^ 32
    → n ≤ id_range min_id max_id
    → ((n % u32 + min_id) % u32 ≡ n + min_id) × (n + min_id ≤ max_id)
unfolding id_range
in_range min_id max_id n h bound below = omega arith

-- Within a range of 32-bit numbers that is in order, for a random number below the bound that is asked
-- for, the generated UID is the number counted from the lower end, and lies in the range.
pub generate_uid_bounds :
    (g : IdGenerator) (rand_int : ℕ → Result ℕ) (n : ℕ)
    → g.uid_min ≤ g.uid_max
    → g.uid_max < 2 ^ 32
    → n ≤ id_range g.uid_min g.uid_max
    → rand_int (id_range g.uid_min g.uid_max + 1) ≡ ok n
    → (generate_uid g rand_int ≡ ok (n + g.uid_min)) × (n + g.uid_min ≤ g.uid_max)
unfolding generate_uid
generate_uid_bounds g rand_int n h bound below drawn = (
  rw drawn (ap ok (in_range g.uid_min g.uid_max n h bound below).0),
  (in_range g.uid_min g.uid_max n h bound below).1,
)
