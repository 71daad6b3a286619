-- ===== src/TempEntries/Records/Replaced.antt =====
-- RegisterUser of internal/users/tempentries/tempentries.go for a login that has a pre-auth user.
use Prim.Native.String.{◌++◌}
use authd.Prelude.{
  ℕ, String, ◌≡◌, none, some, List, [], ◌∷◌, arith, nat_eq, string_eq, lookup, insert,
  lookup-insert, lookup-erase, eq_iff, inl, inr, Option-cases, Bool-cases, subst,
}
use authd.Errors.{ok, Result-cases}
use authd.Types.{UserEntry}
use authd.TempEntries.Attempts.{UserAttempt}
use authd.TempEntries.Users
use authd.TempEntries.PreAuth
use authd.TempEntries.Records.{
  TemporaryRecords, register_user, register_new_user, replace_pre_auth_user,
}

deleted_gone :
    (r : PreAuth.PreAuthUserRecords) (uid : ℕ)
    → lookup uid (PreAuth.delete_pre_auth_user r uid).users ≡ none
unfolding PreAuth.delete_pre_auth_user
deleted_gone r uid = ground (arith, lookup-erase uid uid r.users, Option-cases (lookup uid r.users))

abbrev temporary : ℕ → String → String → Users.UserRecord
temporary uid name bytes = record { name = name; uid = uid; gecos = "authd-temp-user-" ++ bytes }

abbrev with_user : Users.TemporaryUserRecords → ℕ → String → String → Users.TemporaryUserRecords
with_user r uid name bytes = record {
  users = insert uid (temporary uid name bytes) r.users;
  uid_by_name = insert name uid r.uid_by_name;
}

with_user_found :
    (r : Users.TemporaryUserRecords) (uid : ℕ) (name bytes : String)
    → Users.user_by_name (with_user r uid name bytes) name
      ≡ ok (Users.user_entry (temporary uid name bytes))
unfolding Users.user_by_name Users.user_by_id
with_user_found r uid name bytes = ground (
  arith,
  lookup-insert name name uid r.uid_by_name,
  lookup-insert uid uid (temporary uid name bytes) r.users,
  eq_iff name name,
)

-- A replacement that succeeds.
replaced :
    (r r' : TemporaryRecords) (user : UserEntry) (name : String) (a : UserAttempt) (uid : ℕ)
    → replace_pre_auth_user r user name a ≡ (ok uid, r')
    → (user.uid ≡ uid)
      × ((bytes : String) × (with_user r.temporary_users user.uid name bytes ≡ r'.temporary_users))
      × (PreAuth.delete_pre_auth_user r.pre_auth_users user.uid ≡ r'.pre_auth_users)
unfolding replace_pre_auth_user Users.add_temporary_user
replaced r r' user name a uid h = elim (Result-cases a.random) [
  | inr (e, failed) ↦ ground arith
  | inl (bytes, n) ↦
      elim (Result-cases
        (Users.unique_name_and_uid a.entries name user.uid ("authd-temp-user-" ++ bytes))) [
          | inr (e, failed) ↦ ground arith
          | inl (unique, u) ↦ elim (Bool-cases unique) [
            | inr taken ↦ ground arith
            | inl free ↦ (ground arith, (bytes, ground arith), ground arith)
          ]
        ]
]

-- the round that a registration of a pre-auth user's login takes
replacement :
    (r r' : TemporaryRecords) (user : UserEntry) (name : String) (attempts : List UserAttempt)
    (uid : ℕ)
    → PreAuth.user_by_login r.pre_auth_users name ≡ ok user
    → register_user r name attempts ≡ some (ok uid, r')
    → (a : UserAttempt) × (replace_pre_auth_user r user name a ≡ (ok uid, r'))
unfolding register_user register_new_user
replacement r r' user name [] uid known h = ground arith
replacement r r' user name (a ∷ rest) uid known h = (a, ground arith)

-- Where RegisterUser succeeds for a login that a pre-auth user has, it returns that user's UID; the name
-- is then that of a temporary user with this UID, and no pre-auth user has the UID any more.
pub register_user_keeps_uid :
    (r r' : TemporaryRecords) (user : UserEntry) (name : String) (attempts : List UserAttempt)
    (uid : ℕ)
    → PreAuth.user_by_login r.pre_auth_users name ≡ ok user
    → register_user r name attempts ≡ some (ok uid, r')
    → (user.uid ≡ uid)
      × ((entry : UserEntry) × (Users.user_by_name r'.temporary_users name ≡ ok entry)
          × (entry.uid ≡ uid))
      × (lookup uid r'.pre_auth_users.users ≡ none)
unfolding Users.user_entry
register_user_keeps_uid r r' user name attempts uid known h =
    let (a, ran) = replacement r r' user name attempts uid known h in
    let (same, (bytes, users), pre_auth) = replaced r r' user name a uid ran in
    (
      same,
      (
        Users.user_entry (temporary user.uid name bytes),
        subst
            (λ (x : Users.TemporaryUserRecords).
              Users.user_by_name x name ≡ ok (Users.user_entry (temporary user.uid name bytes)))
            users (with_user_found r.temporary_users user.uid name bytes),
        same,
      ),
      subst (λ k. lookup k r'.pre_auth_users.users ≡ none) same
          (subst (λ (x : PreAuth.PreAuthUserRecords). lookup user.uid x.users ≡ none) pre_auth
            (deleted_gone r.pre_auth_users user.uid)),
    )
