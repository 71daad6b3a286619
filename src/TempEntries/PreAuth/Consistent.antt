-- ===== src/TempEntries/PreAuth/Consistent.antt =====
-- The invariant of the pre-auth user records of internal/users/tempentries/preauth.go.
use Prim.Native.String.{◌++◌}
use authd.Prelude.{
  ℕ, ◌+◌, ◌-◌, sym, String, ◌≡◌, none, some, arith, nat_eq, string_eq, lookup, insert, erase,
  lookup-insert, lookup-erase, erase-insert_fresh, Distinct, insert-Distinct, erase-Distinct,
  length, length-insert_fresh, length-erase, lookup-empty, subst, Option-cases, inl, inr,
}
use authd.TempEntries.Indexes.{Indexes, insert-Indexes, erase-Indexes}
use authd.TempEntries.PreAuth.{
  PreAuthUser, PreAuthUserRecords, new_pre_auth_user_records, delete_pre_auth_user,
}

abbrev pub name_of : PreAuthUser → String
name_of u = u.name

abbrev pub login_of : PreAuthUser → String
login_of u = u.login_name

-- The three maps agree, each record stands under its own UID, and `num_users` counts the records.
pub record IsConsistent (r : PreAuthUserRecords) : Type 0 where
  pub names : Indexes name_of r.users r.uid_by_name
  pub logins : Indexes login_of r.users r.uid_by_login
  pub uids : (k : ℕ) (u : PreAuthUser) → lookup k r.users ≡ some u → u.uid ≡ k
  pub distinct : Distinct r.users
  pub counted : r.num_users ≡ length r.users

abbrev pub random_name : String → String
random_name bytes = "authd-pre-auth-user-" ++ bytes

abbrev pub new_user : ℕ → String → String → PreAuthUser
new_user uid login bytes = record { name = random_name bytes; login_name = login; uid = uid }

-- what `add_pre_auth_user` makes of the records
abbrev pub added : PreAuthUserRecords → ℕ → String → String → PreAuthUserRecords
added r uid login bytes = record {
  users = insert uid (new_user uid login bytes) r.users;
  uid_by_name = insert (random_name bytes) uid r.uid_by_name;
  uid_by_login = insert login uid r.uid_by_login;
  num_users = r.num_users + 1;
}

-- Nothing stands under the UID, the name or the login yet.
pub record IsFresh (r : PreAuthUserRecords) (uid : ℕ) (login bytes : String) : Type 0 where
  pub free_uid : lookup uid r.users ≡ none
  pub free_name : lookup (random_name bytes) r.uid_by_name ≡ none
  pub free_login : lookup login r.uid_by_login ≡ none

module _ (r : PreAuthUserRecords) (uid : ℕ) (login bytes : String)
    (f : IsFresh r uid login bytes) where
  pub added-IsConsistent : IsConsistent r → IsConsistent (added r uid login bytes)
  added-IsConsistent c = record {
    names =
        insert-Indexes name_of r.users r.uid_by_name c.names uid (new_user uid login bytes)
          f.free_uid f.free_name;
    logins =
        insert-Indexes login_of r.users r.uid_by_login c.logins uid (new_user uid login bytes)
          f.free_uid f.free_login;
    uids =
        λ k u h. ground (arith, lookup-insert uid k (new_user uid login bytes) r.users, c.uids k u);
    distinct = insert-Distinct uid (new_user uid login bytes) r.users c.distinct;
    counted =
        omega
          (arith, c.counted, length-insert_fresh uid (new_user uid login bytes) r.users f.free_uid);
  }

  -- The cleanup after a round that was not unique takes back all of the round.
  pub delete-added : delete_pre_auth_user (added r uid login bytes) uid ≡ r
  unfolding delete_pre_auth_user
  delete-added = ground (
    arith,
    lookup-insert uid uid (new_user uid login bytes) r.users,
    erase-insert_fresh uid (new_user uid login bytes) r.users f.free_uid,
    erase-insert_fresh (random_name bytes) uid r.uid_by_name f.free_name,
    erase-insert_fresh login uid r.uid_by_login f.free_login,
  )

pub new-IsConsistent : IsConsistent new_pre_auth_user_records
new-IsConsistent = record {
  names = record {
    forward = λ k u h. ground (arith, lookup-empty {V = PreAuthUser} k);
    backward = λ t k h. ground (arith, lookup-empty {V = ℕ} t);
  };
  logins = record {
    forward = λ k u h. ground (arith, lookup-empty {V = PreAuthUser} k);
    backward = λ t k h. ground (arith, lookup-empty {V = ℕ} t);
  };
  uids = λ k u h. ground (arith, lookup-empty {V = PreAuthUser} k);
  distinct = tt;
  counted = omega arith;
}

abbrev removed : PreAuthUserRecords → ℕ → PreAuthUser → PreAuthUserRecords
removed r uid u = record {
  users = erase uid r.users;
  uid_by_name = erase u.name r.uid_by_name;
  uid_by_login = erase u.login_name r.uid_by_login;
  num_users = r.num_users - 1;
}

pub delete_absent :
    (r : PreAuthUserRecords) (uid : ℕ) → lookup uid r.users ≡ none → delete_pre_auth_user r uid ≡ r
unfolding delete_pre_auth_user
delete_absent r uid h = ground arith

pub delete_there :
    (r : PreAuthUserRecords) (uid : ℕ) (u : PreAuthUser)
    → lookup uid r.users ≡ some u
    → delete_pre_auth_user r uid ≡ removed r uid u
unfolding delete_pre_auth_user
delete_there r uid u h = ground arith

removed-IsConsistent :
    (r : PreAuthUserRecords) (uid : ℕ) (u : PreAuthUser)
    → lookup uid r.users ≡ some u
    → IsConsistent r
    → IsConsistent (removed r uid u)
removed-IsConsistent r uid u h c = record {
  names = erase-Indexes name_of r.users r.uid_by_name c.names uid u h;
  logins = erase-Indexes login_of r.users r.uid_by_login c.logins uid u h;
  uids = λ k w e. ground (arith, lookup-erase uid k r.users, c.uids k w);
  distinct = erase-Distinct uid r.users c.distinct;
  counted = omega (arith, c.counted, length-erase uid u r.users c.distinct h);
}

-- Deleting keeps the records consistent, whatever the UID.
pub delete-IsConsistent :
    (r : PreAuthUserRecords) (uid : ℕ) → IsConsistent r → IsConsistent (delete_pre_auth_user r uid)
delete-IsConsistent r uid c = elim (Option-cases (lookup uid r.users)) [
  | inl e ↦ subst IsConsistent (sym (delete_absent r uid e)) c
  | inr (u, e) ↦
      subst IsConsistent (sym (delete_there r uid u e)) (removed-IsConsistent r uid u e c)
]
