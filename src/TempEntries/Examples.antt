-- ===== src/TempEntries/Examples.antt =====
-- A first pre-auth user, and a second one under the same UID.
use authd.Prelude.{
  ◌≢◌, ℕ, ◌≡◌, refl, none, some, [], ◌∷◌, inl, lookup, insert, erase, lookup-empty, nat_eq,
  string_eq, ◌≤◌, arith,
}
use authd.Errors.{ok, err, no_data_found, generate_error}
use authd.TempEntries.Attempts.{UserAttempt}
use authd.TempEntries.PreAuth.{
  PreAuthUser, PreAuthUserRecords, new_pre_auth_user_records, add_pre_auth_user,
  delete_pre_auth_user, is_unique_uid, unique_among, register_unique, register_pre_auth_user,
  user_by_login, user_by_id, max_pre_auth_users, pre_auth_user_entry,
}
use authd.TempEntries.PreAuth.Consistent.{IsConsistent, new-IsConsistent, added, new_user}
use authd.TempEntries.PreAuth.Registered.{
  FreshIds, Answers, register_pre_auth_user-IsConsistent, register_pre_auth_user-Answers,
}
use authd.Types.{UserEntry}
use authd.TempEntries.Users
use authd.TempEntries.Records.{
  TemporaryRecords, new_temporary_records, register_user, register_new_user, replace_pre_auth_user,
}
use authd.TempEntries.Records.Replaced.{register_user_keeps_uid}
use authd.TempEntries.PreAuth.Returns.{register_pre_auth_user_returns}
use authd.TempEntries.PreAuth.Collision.{register_unique_collides, cleanup_loses_record}

abbrev pub attempt : UserAttempt
attempt = record { generated = ok 1000000007; random = ok "00ff"; entries = ok [] }

abbrev pub one_user : PreAuthUserRecords
one_user = added new_pre_auth_user_records 1000000007 "alice" "00ff"

register_alice :
    register_pre_auth_user new_pre_auth_user_records "alice" (attempt ∷ [])
    ≡ some (ok 1000000007, one_user)
unfolding register_pre_auth_user register_unique add_pre_auth_user is_unique_uid unique_among
    user_by_login user_by_id lookup
register_alice = refl

pub fresh_attempt : FreshIds new_pre_auth_user_records (attempt ∷ [])
fresh_attempt = (λ uid _. lookup-empty {V = PreAuthUser} uid, λ bytes _. lookup-empty {V = ℕ} _, tt)

register_pre_auth_user-IsConsistent_example :
    IsConsistent one_user × (one_user.num_users ≤ max_pre_auth_users)
register_pre_auth_user-IsConsistent_example =
    register_pre_auth_user-IsConsistent new_pre_auth_user_records "alice" (attempt ∷ [])
      (ok 1000000007) one_user new-IsConsistent (omega arith) fresh_attempt register_alice

register_pre_auth_user-Answers_example :
    Answers new_pre_auth_user_records "alice" (ok 1000000007) one_user
register_pre_auth_user-Answers_example =
    register_pre_auth_user-Answers new_pre_auth_user_records "alice" (attempt ∷ []) (ok 1000000007)
      one_user new-IsConsistent fresh_attempt register_alice

register_pre_auth_user_returns_example :
    register_pre_auth_user new_pre_auth_user_records "alice" (attempt ∷ []) ≢ none
register_pre_auth_user_returns_example =
    register_pre_auth_user_returns new_pre_auth_user_records "alice" (attempt ∷ [])
      (inl (1000000007, "00ff", [], refl, refl, refl, refl))

one_user-there : lookup 1000000007 one_user.users ≡ some (new_user 1000000007 "alice" "00ff")
unfolding lookup insert erase
one_user-there = refl

one_user-listed : lookup "alice" one_user.uid_by_login ≡ some 1000000007
unfolding lookup insert erase
one_user-listed = refl

abbrev same_uid : UserAttempt
same_uid = record { generated = ok 1000000007; random = ok "1234"; entries = ok [] }

register_unique_collides_example :
    (register_unique one_user "bob" (same_uid ∷ [])
      ≡ some (ok 1000000007, added one_user 1000000007 "bob" "1234"))
    × (user_by_login (added one_user 1000000007 "bob" "1234") "alice"
        ≡ user_by_login (added one_user 1000000007 "bob" "1234") "bob")
register_unique_collides_example =
    register_unique_collides one_user (new_user 1000000007 "alice" "00ff") 1000000007 "bob" "1234"
      [] [] one_user-there one_user-listed refl refl

abbrev taken_uid : UserAttempt
taken_uid = record same_uid {
  entries = ok (record { name = "carol"; uid = 1000000007; gecos = "" } ∷ []);
}

abbrev no_uid : UserAttempt
no_uid = record same_uid { generated = err generate_error }

cleanup_loses_record_example :
    (user_by_login one_user "alice" ≡ ok (pre_auth_user_entry (new_user 1000000007 "alice" "00ff")))
    × ((r' : PreAuthUserRecords) × (register_unique one_user "bob" (taken_uid ∷ no_uid ∷ [])
          ≡ some (err generate_error, r'))
        × (user_by_login r' "alice" ≡ err no_data_found)
        × (r'.num_users ≡ one_user.num_users))
cleanup_loses_record_example =
    cleanup_loses_record one_user (new_user 1000000007 "alice" "00ff") 1000000007 "bob" "1234"
      (record { name = "carol"; uid = 1000000007; gecos = "" } ∷ []) generate_error no_uid []
      one_user-there one_user-listed refl refl refl

abbrev one_record : TemporaryRecords
one_record = record new_temporary_records { pre_auth_users = one_user }

abbrev listed : UserAttempt
listed = record attempt { random = ok "abcd" }

abbrev replaced_record : TemporaryRecords
replaced_record = record new_temporary_records {
  temporary_users = record {
    users =
        (1000000007, record { name = "alice"; uid = 1000000007; gecos = "authd-temp-user-abcd" })
        ∷ [];
    uid_by_name = ("alice", 1000000007) ∷ [];
  };
  pre_auth_users = record { users = []; uid_by_name = []; uid_by_login = []; num_users = 0 };
}

alice_pre_auth :
    user_by_login one_record.pre_auth_users "alice"
    ≡ ok (pre_auth_user_entry (new_user 1000000007 "alice" "00ff"))
unfolding user_by_login user_by_id pre_auth_user_entry lookup insert erase
alice_pre_auth = refl

alice_registered :
    register_user one_record "alice" (listed ∷ []) ≡ some (ok 1000000007, replaced_record)
unfolding register_user register_new_user replace_pre_auth_user Users.user_by_name user_by_login
    user_by_id pre_auth_user_entry Users.add_temporary_user Users.unique_name_and_uid
    Users.unique_among delete_pre_auth_user lookup insert erase
alice_registered = refl

register_user_keeps_uid_example :
    ((pre_auth_user_entry (new_user 1000000007 "alice" "00ff")).uid ≡ 1000000007)
    × ((entry : UserEntry) × (Users.user_by_name replaced_record.temporary_users "alice" ≡ ok entry)
        × (entry.uid ≡ 1000000007))
    × (lookup 1000000007 replaced_record.pre_auth_users.users ≡ none)
register_user_keeps_uid_example =
    register_user_keeps_uid one_record replaced_record
      (pre_auth_user_entry (new_user 1000000007 "alice" "00ff")) "alice" (listed ∷ []) 1000000007
      alice_pre_auth alice_registered
