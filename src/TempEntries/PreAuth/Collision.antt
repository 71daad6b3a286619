-- ===== src/TempEntries/PreAuth/Collision.antt =====
-- What internal/users/tempentries/preauth.go does where a generated UID is that of a pre-auth user.
use authd.Prelude.{
  ℕ, String, ◌≡◌, true, false, some, List, ◌∷◌, arith, ◌==◌, nat_eq, string_eq, lookup, insert,
  lookup-insert, any, eq_iff, lookup-erase,
}
use authd.Errors.{Error, ok, err, no_data_found}
use authd.LocalEntries.Entries.{Passwd}
use authd.TempEntries.Attempts.{UserAttempt}
use authd.TempEntries.PreAuth.{
  PreAuthUser, PreAuthUserRecords, add_pre_auth_user, delete_pre_auth_user, is_unique_uid,
  register_unique, user_by_login, user_by_id, pre_auth_user_entry,
}
use authd.TempEntries.PreAuth.Consistent.{added, random_name, new_user}
use authd.TempEntries.PreAuth.Registration.{taken_by_other, unique_among-any}

-- Where the generated UID is that of a pre-auth user with another login, and the entries of the system
-- do not list it (authd's own service lists no temporary users), RegisterPreAuthUser's loop returns it:
-- both logins then have the new user's record.
pub register_unique_collides :
    (r : PreAuthUserRecords) (old : PreAuthUser) (uid : ℕ) (login bytes : String)
    (entries : List Passwd) (rest : List UserAttempt)
    → lookup uid r.users ≡ some old
    → lookup old.login_name r.uid_by_login ≡ some uid
    → (login == old.login_name) ≡ false
    → any (taken_by_other uid (random_name bytes)) entries ≡ false
    → (register_unique r login
          (record { generated = ok uid; random = ok bytes; entries = ok entries } ∷ rest)
        ≡ some (ok uid, added r uid login bytes))
      × (user_by_login (added r uid login bytes) old.login_name
          ≡ user_by_login (added r uid login bytes) login)
unfolding register_unique add_pre_auth_user is_unique_uid user_by_login
register_unique_collides r old uid login bytes entries rest there listed other free = (
  ground (arith, unique_among-any entries uid (random_name bytes)),
  ground (
    arith,
    lookup-insert login old.login_name uid r.uid_by_login,
    lookup-insert login login uid r.uid_by_login,
    eq_iff login login,
  ),
)

-- what undoing a round does whose UID another login has
undo_loses :
    (r : PreAuthUserRecords) (old : PreAuthUser) (uid : ℕ) (login bytes : String)
    → lookup old.login_name r.uid_by_login ≡ some uid
    → (login == old.login_name) ≡ false
    → (user_by_login (delete_pre_auth_user (added r uid login bytes) uid) old.login_name
        ≡ err no_data_found)
      × ((delete_pre_auth_user (added r uid login bytes) uid).num_users ≡ r.num_users)
unfolding user_by_login user_by_id delete_pre_auth_user
undo_loses r old uid login bytes listed other = (
  ground (
    arith,
    lookup-insert uid uid (new_user uid login bytes) r.users,
    lookup-erase login old.login_name (insert login uid r.uid_by_login),
    lookup-insert login old.login_name uid r.uid_by_login,
    lookup-erase uid uid (insert uid (new_user uid login bytes) r.users),
  ),
  ground (arith, lookup-insert uid uid (new_user uid login bytes) r.users),
)

-- Where the generated UID is that of a pre-auth user with another login, the entries of the system list
-- it under another name, and no second UID can be generated: RegisterPreAuthUser's loop returns an
-- error, and the other login, which was found before, is not found any more, though the counter still
-- counts it.
pub cleanup_loses_record :
    (r : PreAuthUserRecords) (old : PreAuthUser) (uid : ℕ) (login bytes : String)
    (entries : List Passwd) (e : Error) (second : UserAttempt) (rest : List UserAttempt)
    → lookup uid r.users ≡ some old
    → lookup old.login_name r.uid_by_login ≡ some uid
    → (login == old.login_name) ≡ false
    → any (taken_by_other uid (random_name bytes)) entries ≡ true
    → second.generated ≡ err e
    → (user_by_login r old.login_name ≡ ok (pre_auth_user_entry old))
      × ((r' : PreAuthUserRecords) × (register_unique r login (
              record { generated = ok uid; random = ok bytes; entries = ok entries }
              ∷ second
              ∷ rest)
            ≡ some (err e, r'))
          × (user_by_login r' old.login_name ≡ err no_data_found)
          × (r'.num_users ≡ r.num_users))
unfolding register_unique add_pre_auth_user is_unique_uid user_by_login user_by_id
cleanup_loses_record r old uid login bytes entries e second rest there listed other taken failed =
    let (lost, counted) = undo_loses r old uid login bytes listed other in
    (
      ground arith,
      (
        delete_pre_auth_user (added r uid login bytes) uid,
        ground (arith, unique_among-any entries uid (random_name bytes)),
        lost,
        counted,
      ),
    )
