-- ===== src/TempEntries/Records.antt =====
-- internal/users/tempentries/tempentries.go: the three kinds of records together.
pub mod Replaced
use mathlib.Core.Option
use authd.Prelude.{ℕ, String, true, false, Option, none, some, List, [], ◌∷◌, if◌then◌else◌}
use authd.Errors.{Result, ok, err, already_exists, not_unique, is_no_data}
use authd.Types.{UserEntry}
use authd.TempEntries.Attempts.{UserAttempt, GroupAttempt}
use authd.TempEntries.Users
use authd.TempEntries.PreAuth
use authd.TempEntries.Groups
use authd.TempEntries.Users.{TemporaryUserRecords}
use authd.TempEntries.PreAuth.{PreAuthUserRecords}
use authd.TempEntries.Groups.{TemporaryGroupRecords}

pub record TemporaryRecords : Type 0 where
  pub temporary_users : TemporaryUserRecords
  pub pre_auth_users : PreAuthUserRecords
  pub temporary_groups : TemporaryGroupRecords

abbrev pub new_temporary_records : TemporaryRecords
new_temporary_records = record {
  temporary_users = Users.new_temporary_user_records;
  pre_auth_users = PreAuth.new_pre_auth_user_records;
  temporary_groups = Groups.new_temporary_group_records;
}

-- `if errors.Is(err, NoDataFoundError{}) { … }`
abbrev pub or_else {ℓ} : {A : Type ℓ} → Result A → Result A → Result A
or_else (ok a) other = ok a
or_else (err e) other = if is_no_data e then other else err e

unfoldable pub user_by_id : TemporaryRecords → ℕ → Result UserEntry
user_by_id r uid =
    or_else (Users.user_by_id r.temporary_users uid) (PreAuth.user_by_id r.pre_auth_users uid)

unfoldable pub user_by_name : TemporaryRecords → String → Result UserEntry
user_by_name r name =
    or_else (Users.user_by_name r.temporary_users name) (PreAuth.user_by_name r.pre_auth_users name)

-- The temporary user is added, the pre-auth user goes, and then the system is asked. Of a round's
-- inputs the generated UID is not read.
unfoldable pub replace_pre_auth_user :
    TemporaryRecords → UserEntry → String → UserAttempt → Result ℕ × TemporaryRecords
replace_pre_auth_user r user name a =
    elim (Users.add_temporary_user r.temporary_users user.uid name a.random) [
      | err e ↦ (err e, r)
      | ok (tmp_id, added) ↦
          let pre_auth = PreAuth.delete_pre_auth_user r.pre_auth_users user.uid in
          let cleaned = record r {
            temporary_users = Users.delete_temporary_user added user.uid;
            pre_auth_users = pre_auth;
          } in
          elim (Users.unique_name_and_uid a.entries name user.uid tmp_id) [
            | err e ↦ (err e, cleaned)
            | ok false ↦ (err not_unique, cleaned)
            | ok true ↦
                (ok user.uid, record r { temporary_users = added; pre_auth_users = pre_auth })
          ]
    ]

abbrev with_temporary_users :
    TemporaryRecords → Result ℕ × TemporaryUserRecords → Result ℕ × TemporaryRecords
with_temporary_users r (result, users) = (result, record r { temporary_users = users })

-- where no temporary user has the name
unfoldable pub register_new_user :
    TemporaryRecords → String → List UserAttempt → Option (Result ℕ × TemporaryRecords)
register_new_user r name attempts = elim (PreAuth.user_by_login r.pre_auth_users name) [
  | ok user ↦ elim attempts [ [] ↦ none | a ∷ _ ↦ some (replace_pre_auth_user r user name a) ]
  | err e ↦
      if is_no_data e
      then Option.map (with_temporary_users r)
          (Users.register_unique r.temporary_users name attempts)
      else some (err e, r)
]

unfoldable pub register_user :
    TemporaryRecords → String → List UserAttempt → Option (Result ℕ × TemporaryRecords)
register_user r name attempts = elim (Users.user_by_name r.temporary_users name) [
  | ok user ↦ some (err already_exists, r)
  | err e ↦ if is_no_data e then register_new_user r name attempts else some (err e, r)
]

abbrev with_temporary_groups :
    TemporaryRecords → Result ℕ × TemporaryGroupRecords → Result ℕ × TemporaryRecords
with_temporary_groups r (result, groups) = (result, record r { temporary_groups = groups })

-- RegisterGroup and RegisterPreAuthUser of the embedded records.
unfoldable pub register_group :
    TemporaryRecords → String → List GroupAttempt → Option (Result ℕ × TemporaryRecords)
register_group r name attempts =
    Option.map (with_temporary_groups r) (Groups.register_group r.temporary_groups name attempts)

abbrev with_pre_auth_users :
    TemporaryRecords → Result ℕ × PreAuthUserRecords → Result ℕ × TemporaryRecords
with_pre_auth_users r (result, users) = (result, record r { pre_auth_users = users })

unfoldable pub register_pre_auth_user :
    TemporaryRecords → String → List UserAttempt → Option (Result ℕ × TemporaryRecords)
register_pre_auth_user r name attempts =
    Option.map (with_pre_auth_users r)
      (PreAuth.register_pre_auth_user r.pre_auth_users name attempts)
