-- ===== src/IdGenerator.antt =====
-- internal/users/idgenerator/idgenerator.go. The random number in [0, diff] is an input.
pub mod Bounds
mod Examples
use authd.Prelude.{ℕ, ◌+◌, ◌-◌, ◌%◌, ◌^◌}
use authd.Errors.{Result, ok, ◌>>=◌}

pub record IdGenerator : Type 0 where
  pub uid_min : ℕ
  pub uid_max : ℕ
  pub gid_min : ℕ
  pub gid_max : ℕ

abbrev pub u32 : ℕ
u32 = 2 ^ 32

-- `maxID - minID` on uint32; `rand.Int` is asked for a number below one more than that.
unfoldable pub id_range : ℕ → ℕ → ℕ
id_range min_id max_id = (max_id + u32 - min_id) % u32

-- `uint32(nBig.Int64()) + minID`
unfoldable pub generate_id : ℕ → ℕ → (ℕ → Result ℕ) → Result ℕ
generate_id min_id max_id rand_int = do
  n ← rand_int (id_range min_id max_id + 1)
  ok ((n % u32 + min_id) % u32)

unfoldable pub generate_uid : IdGenerator → (ℕ → Result ℕ) → Result ℕ
unfolding generate_id
generate_uid g rand_int = generate_id g.uid_min g.uid_max rand_int

unfoldable pub generate_gid : IdGenerator → (ℕ → Result ℕ) → Result ℕ
unfolding generate_id
generate_gid g rand_int = generate_id g.gid_min g.gid_max rand_int
