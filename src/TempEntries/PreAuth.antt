-- ===== src/TempEntries/PreAuth.antt =====
-- internal/users/tempentries/preauth.go: users that have not authenticated yet.
pub mod Consistent
pub mod Registration
pub mod Registered
pub mod Returns
pub mod Collision
use Prim.Native.String.{◌++◌, len}
use authd.Prelude.{
  ℕ, ◌+◌, ◌-◌, String, Bool, true, false, not, ◌&&◌, Option, none, some, List, [], ◌∷◌, ◌==◌,
  nat_eq, string_eq, if◌then◌else◌, Dict, lookup, insert, erase, ltb, leb,
}
use authd.Errors.{
  Result, ok, err, no_data_found, random_error, name_too_long, too_many_users, is_no_data, ◌>>=◌,
}
use authd.LocalEntries.Entries.{Passwd}
use authd.Types.{UserEntry}
use authd.TempEntries.Attempts.{UserAttempt}

abbrev pub max_pre_auth_users : ℕ
max_pre_auth_users = 4096

pub record PreAuthUser : Type 0 where
  pub name : String
  pub login_name : String
  pub uid : ℕ

-- `num_users` is Go's `int`: it is at most `max_pre_auth_users` and is decremented only after an
-- increment, so a number stands for it.
pub record PreAuthUserRecords : Type 0 where
  pub users : Dict ℕ PreAuthUser
  pub uid_by_name : Dict String ℕ
  pub uid_by_login : Dict String ℕ
  pub num_users : ℕ

abbrev pub new_pre_auth_user_records : PreAuthUserRecords
new_pre_auth_user_records = record {
  users = [];
  uid_by_name = [];
  uid_by_login = [];
  num_users = 0;
}

unfoldable pub pre_auth_user_entry : PreAuthUser → UserEntry
pre_auth_user_entry u = record {
  name = u.name;
  uid = u.uid;
  gid = 0;
  gecos = u.login_name;
  dir = "/nonexistent";
  shell = "/usr/sbin/nologin";
}

unfoldable pub user_by_id : PreAuthUserRecords → ℕ → Result UserEntry
unfolding pre_auth_user_entry
user_by_id r uid = elim (lookup uid r.users) [
  | none ↦ err no_data_found
  | some u ↦ ok (pre_auth_user_entry u)
]

unfoldable pub user_by_name : PreAuthUserRecords → String → Result UserEntry
user_by_name r name = elim (lookup name r.uid_by_name) [
  | none ↦ err no_data_found
  | some uid ↦ user_by_id r uid
]

unfoldable pub user_by_login : PreAuthUserRecords → String → Result UserEntry
user_by_login r login_name = elim (lookup login_name r.uid_by_login) [
  | none ↦ err no_data_found
  | some uid ↦ user_by_id r uid
]

-- the loop of isUniqueUID
unfoldable pub unique_among : List Passwd → ℕ → String → Bool
unique_among [] uid tmp_name = true
unique_among (entry ∷ entries) uid tmp_name =
    let rest = unique_among entries uid tmp_name in
    if entry.uid == uid && not (entry.name == tmp_name) then false else rest

unfoldable pub is_unique_uid : Result (List Passwd) → ℕ → String → Result Bool
is_unique_uid listed uid tmp_name = do entries ← listed; ok (unique_among entries uid tmp_name)

-- An entry that the UID, the name or the login had is overwritten, and counted again.
unfoldable pub add_pre_auth_user :
    PreAuthUserRecords → ℕ → String → Result String → Result (String × PreAuthUserRecords)
add_pre_auth_user r uid login_name (err e) = err random_error
add_pre_auth_user r uid login_name (ok bytes) =
    let name = "authd-pre-auth-user-" ++ bytes in
    ok (
      name,
      record {
        users = insert uid (record { name = name; login_name = login_name; uid = uid }) r.users;
        uid_by_name = insert name uid r.uid_by_name;
        uid_by_login = insert login_name uid r.uid_by_login;
        num_users = r.num_users + 1;
      },
    )

unfoldable pub delete_pre_auth_user : PreAuthUserRecords → ℕ → PreAuthUserRecords
delete_pre_auth_user r uid = elim (lookup uid r.users) [
  | none ↦ r
  | some u ↦ record {
    users = erase uid r.users;
    uid_by_name = erase u.name r.uid_by_name;
    uid_by_login = erase u.login_name r.uid_by_login;
    num_users = r.num_users - 1;
  }
]

-- The loop of RegisterPreAuthUser. `none`: the script has run out and it still runs.
unfoldable pub register_unique :
    PreAuthUserRecords → String → List UserAttempt → Option (Result ℕ × PreAuthUserRecords)
register_unique r login_name [] = none
register_unique r login_name (a ∷ rest) = elim a.generated [
  | err e ↦ some (err e, r)
  | ok uid ↦ elim (add_pre_auth_user r uid login_name a.random) [
    | err e ↦ some (err e, r)
    | ok (tmp_name, added) ↦ elim (is_unique_uid a.entries uid tmp_name) [
      | err e ↦ some (err e, delete_pre_auth_user added uid)
      | ok true ↦ some (ok uid, added)
      | ok false ↦ register_unique (delete_pre_auth_user added uid) login_name rest
    ]
  ]
]

unfoldable pub register_pre_auth_user :
    PreAuthUserRecords → String → List UserAttempt → Option (Result ℕ × PreAuthUserRecords)
register_pre_auth_user r login_name attempts =
    if ltb 256 (len login_name)
    then some (err name_too_long, r)
    else if leb max_pre_auth_users r.num_users
    then some (err too_many_users, r)
    else elim (user_by_login r login_name) [
      | ok user ↦ some (ok user.uid, r)
      | err e ↦ if is_no_data e then register_unique r login_name attempts else some (err e, r)
    ]
