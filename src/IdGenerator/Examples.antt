-- ===== src/IdGenerator/Examples.antt =====
-- One generated UID.
use authd.Prelude.{◌+◌, ◌≤◌, ◌≡◌, refl, arith}
use authd.Errors.{ok}
use authd.IdGenerator.{IdGenerator, id_range, generate_uid}
use authd.IdGenerator.Bounds.{generate_uid_bounds}

abbrev generator : IdGenerator
generator = record {
  uid_min = 1000000000;
  uid_max = 1999999999;
  gid_min = 1000000000;
  gid_max = 1999999999;
}

drawn_below : 7 ≤ id_range generator.uid_min generator.uid_max
unfolding id_range
drawn_below = omega arith

generate_uid_bounds_example :
    (generate_uid generator (λ _. ok 7) ≡ ok (7 + generator.uid_min))
    × (7 + generator.uid_min ≤ generator.uid_max)
generate_uid_bounds_example =
    generate_uid_bounds generator (λ _. ok 7) 7 (omega arith) (omega arith) drawn_below refl
