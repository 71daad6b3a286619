-- ===== src/TempEntries/Users.antt =====
-- internal/users/tempentries/users.go. The locks are left out: each function is one critical section.
use Prim.Native.String.{◌++◌}
use authd.Prelude.{
  ℕ, String, Bool, true, false, not, ◌&&◌, Option, none, some, List, [], ◌∷◌, ◌==◌, nat_eq,
  string_eq, if◌then◌else◌, Dict, lookup, insert, erase,
}
use authd.Errors.{Result, ok, err, no_data_found, already_exists, random_error, ◌>>=◌}
use authd.LocalEntries.Entries.{Passwd}
use authd.Types.{UserEntry}
use authd.TempEntries.Attempts.{UserAttempt}

pub record UserRecord : Type 0 where
  pub name : String
  pub uid : ℕ
  pub gecos : String

pub record TemporaryUserRecords : Type 0 where
  pub users : Dict ℕ UserRecord
  pub uid_by_name : Dict String ℕ

abbrev pub new_temporary_user_records : TemporaryUserRecords
new_temporary_user_records = record { users = []; uid_by_name = [] }

unfoldable pub user_entry : UserRecord → UserEntry
user_entry u = record {
  name = u.name;
  uid = u.uid;
  gid = 0;
  gecos = u.gecos;
  dir = "/nonexistent";
  shell = "/usr/sbin/nologin";
}

unfoldable pub user_by_id : TemporaryUserRecords → ℕ → Result UserEntry
unfolding user_entry
user_by_id r uid = elim (lookup uid r.users) [
  | none ↦ err no_data_found
  | some u ↦ ok (user_entry u)
]

unfoldable pub user_by_name : TemporaryUserRecords → String → Result UserEntry
user_by_name r name = elim (lookup name r.uid_by_name) [
  | none ↦ err no_data_found
  | some uid ↦ user_by_id r uid
]

-- the loop of uniqueNameAndUID
unfoldable pub unique_among : List Passwd → String → ℕ → String → Result Bool
unique_among [] name uid tmp_id = ok true
unique_among (entry ∷ entries) name uid tmp_id =
    let rest = unique_among entries name uid tmp_id in
    if entry.name == name && not (entry.uid == uid)
    then err already_exists
    else if entry.uid == uid && not (entry.gecos == tmp_id)
    then ok false
    else rest

unfoldable pub unique_name_and_uid : Result (List Passwd) → String → ℕ → String → Result Bool
unique_name_and_uid listed name uid tmp_id = do
  entries ← listed
  unique_among entries name uid tmp_id

-- `random` is what `rand.Read` gives, in hexadecimal. An entry that the UID or the name had is
-- overwritten.
unfoldable pub add_temporary_user :
    TemporaryUserRecords → ℕ → String → Result String → Result (String × TemporaryUserRecords)
add_temporary_user r uid name (err e) = err random_error
add_temporary_user r uid name (ok bytes) =
    let tmp_id = "authd-temp-user-" ++ bytes in
    ok (
      tmp_id,
      record {
        users = insert uid (record { name = name; uid = uid; gecos = tmp_id }) r.users;
        uid_by_name = insert name uid r.uid_by_name;
      },
    )

unfoldable pub delete_temporary_user : TemporaryUserRecords → ℕ → TemporaryUserRecords
delete_temporary_user r uid = elim (lookup uid r.users) [
  | none ↦ r
  | some u ↦ record { users = erase uid r.users; uid_by_name = erase u.name r.uid_by_name }
]

-- The loop of RegisterUser (tempentries.go). `none`: the script has run out and it still runs. The
-- cleanup function that it returns is `delete_temporary_user` at the UID.
unfoldable pub register_unique :
    TemporaryUserRecords → String → List UserAttempt → Option (Result ℕ × TemporaryUserRecords)
register_unique r name [] = none
register_unique r name (a ∷ rest) = elim a.generated [
  | err e ↦ some (err e, r)
  | ok uid ↦ elim (add_temporary_user r uid name a.random) [
    | err e ↦ some (err e, r)
    | ok (tmp_id, added) ↦ elim (unique_name_and_uid a.entries name uid tmp_id) [
      | err e ↦ some (err e, delete_temporary_user added uid)
      | ok true ↦ some (ok uid, added)
      | ok false ↦ register_unique (delete_temporary_user added uid) name rest
    ]
  ]
]
