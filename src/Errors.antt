-- ===== src/Errors.antt =====
-- Go's `(value, error)` results. An error is known by the place that makes it; messages and wrapping
-- are left out, and `errors.Is(err, NoDataFoundError{})` is `is_no_data`.
use authd.Prelude.{◌≡◌, refl, ◌⊎◌, inl, inr, Bool, true, false}

pub data Error : Type 0 where
  no_data_found : Error
  query_error constraint_error transaction_error : Error
  uid_in_use gid_in_use : Error
  empty_username empty_group_name exists_on_system group_name_conflict : Error
  generate_error random_error entries_error already_exists not_unique : Error
  name_too_long too_many_users : Error
  file_error malformed_entry gpasswd_error no_existing_users : Error
  invalid_config index_out_of_range stat_error : Error
  unknown_broker no_session_id broker_error invalid_layout invalid_mode missing_key : Error
  invalid_access invalid_json invalid_user_info unexpected_data : Error
  no_validator unknown_layout unrecognized_field missing_field invalid_value : Error
  no_brokerer invalid_argument not_found permission_denied not_root lookup_error : Error

pub data Result {ℓ} (A : Type ℓ) : Type ℓ where
  ok : A → Result A
  err : Error → Result A

infixl 5 ◌>>=◌
abbrev pub ◌>>=◌ {ℓ κ} : {A : Type ℓ} {B : Type κ} → Result A → (A → Result B) → Result B
ok a >>= f = f a
err e >>= f = err e

-- `if cond { return err }`
abbrev pub fail_if : Bool → Error → Result (Unit {0})
fail_if true e = err e
fail_if false e = ok tt

infixl 5 ◌>>◌
abbrev pub ◌>>◌ {ℓ} : {B : Type ℓ} → Result (Unit {0}) → Result B → Result B
m >> k = m >>= λ _. k

abbrev pub is_no_data : Error → Bool
is_no_data no_data_found = true
is_no_data _ = false

module _ {ℓ} {A : Type ℓ} where
  abbrev pub is_ok : Result A → Bool
  is_ok (ok a) = true
  is_ok (err e) = false

  -- `if err != nil && !errors.Is(err, NoDataFoundError{}) { return err }`, with the value that the
  -- result has where nothing was found.
  abbrev pub or_default : A → Result A → Result A
  or_default a (ok b) = ok b
  or_default a (err e) = elim (is_no_data e) [ true ↦ ok a | false ↦ err e ]

  pub Result-cases : (r : Result A) → ((a : A) × (r ≡ ok a)) ⊎ ((e : Error) × (r ≡ err e))
  Result-cases (ok a) = inl (a, refl)
  Result-cases (err e) = inr (e, refl)

-- Inversion of a successful bind.
pub >>=-eq-ok {ℓ κ} :
    {A : Type ℓ} {B : Type κ} (m : Result A) (f : A → Result B) (b : B)
    → (m >>= f) ≡ ok b
    → (a : A) × (m ≡ ok a) × (f a ≡ ok b)
>>=-eq-ok (ok a) f b h = (a, refl, h)
>>=-eq-ok (err e) f b h = cc

pub fail_if-eq-ok {ℓ} :
    {A : Type ℓ} (b : Bool) (e : Error) (m : Result A) (a : A)
    → (fail_if b e >> m) ≡ ok a
    → (b ≡ false) × (m ≡ ok a)
fail_if-eq-ok true e m a h = cc
fail_if-eq-ok false e m a h = (refl, h)

pub ok-eq {ℓ} : {A : Type ℓ} (a b : A) → ok a ≡ ok b → a ≡ b
ok-eq a b h = cc
