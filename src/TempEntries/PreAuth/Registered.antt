-- ===== src/TempEntries/PreAuth/Registered.antt =====
-- RegisterPreAuthUser of internal/users/tempentries/preauth.go as its callers see it.
use Prim.Native.String.{len}
use authd.Prelude.{
  ℕ, ◌≤◌, ◌<◌, String, ◌≡◌, refl, false, none, some, List, [], ◌∷◌, arith, ◌==◌, nat_eq, string_eq,
  lookup, lookup-insert, ◌⊎◌, inl, inr, eq_iff, subst, sym, Option-cases, Bool-cases, ◌∙◌, ap, ltb,
  leb,
}
use authd.Errors.{
  Error, Result, ok, err, no_data_found, too_many_users, Result-cases, is_no_data, name_too_long,
}
use authd.Types.{UserEntry}
use authd.TempEntries.Attempts.{UserAttempt}
use authd.TempEntries.PreAuth.{
  PreAuthUser, PreAuthUserRecords, register_unique, register_pre_auth_user, user_by_login,
  user_by_id, max_pre_auth_users, pre_auth_user_entry,
}
use authd.TempEntries.PreAuth.Consistent.{
  IsConsistent, IsFresh, added, random_name, added-IsConsistent, new_user,
}
use authd.TempEntries.PreAuth.Registration.{AllFresh, Outcome, register_unique-Outcome}

-- The generator and the source of random names give, at every round of the script, a UID and a name
-- that no pre-auth user has.
abbrev pub FreshIds : PreAuthUserRecords → List UserAttempt → Type 0
FreshIds r [] = Unit {0}
FreshIds r (a ∷ rest) =
    ((uid : ℕ) → a.generated ≡ ok uid → lookup uid r.users ≡ none)
    × ((bytes : String) → a.random ≡ ok bytes → lookup (random_name bytes) r.uid_by_name ≡ none)
    × FreshIds r rest

all_fresh :
    (r : PreAuthUserRecords) (login : String) (attempts : List UserAttempt)
    → FreshIds r attempts
    → lookup login r.uid_by_login ≡ none
    → AllFresh r login attempts
all_fresh r login [] f h = tt
all_fresh r login (a ∷ rest) f h = (
  λ uid bytes g n. record { free_uid = f.0 uid g; free_name = f.1 bytes n; free_login = h },
  all_fresh r login rest f.2 h,
)

-- Where a login's entry is dangling there would be no record under its UID, against consistency.
login_free :
    (r : PreAuthUserRecords) (login : String) (e : Error)
    → IsConsistent r
    → user_by_login r login ≡ err e
    → (lookup login r.uid_by_login ≡ none) × (e ≡ no_data_found)
unfolding user_by_login user_by_id
login_free r login e c h = elim (Option-cases (lookup login r.uid_by_login)) [
  | inl absent ↦ (absent, ground arith)
  | inr (uid, there) ↦ ground (arith, c.logins.backward login uid there)
]

-- A call refuses, or finds the login, or runs the loop.
call_cases :
    (r : PreAuthUserRecords) (login : String) (attempts : List UserAttempt) (result : Result ℕ)
    (r' : PreAuthUserRecords)
    → register_pre_auth_user r login attempts ≡ some (result, r')
    → ((e : Error) × (result ≡ err e) × (r ≡ r'))
      ⊎ (((u : UserEntry) × (user_by_login r login ≡ ok u) × (result ≡ ok u.uid) × (r ≡ r'))
          ⊎ ((e : Error) × (user_by_login r login ≡ err e)
              × (r.num_users < max_pre_auth_users)
              × (register_unique r login attempts ≡ some (result, r'))))
unfolding register_pre_auth_user
call_cases r login attempts result r' h = elim (Bool-cases (ltb 256 (len login))) [
  | inl long ↦ inl (name_too_long, ground arith, ground arith)
  | inr short ↦ elim (Bool-cases (leb max_pre_auth_users r.num_users)) [
    | inl full ↦ inl (too_many_users, ground arith, ground arith)
    | inr room ↦ elim (Result-cases (user_by_login r login)) [
      | inl (u, e) ↦ inr (inl (u, e, ground arith, ground arith))
      | inr (x, e) ↦ elim (Bool-cases (is_no_data x)) [
        | inl no_data ↦ inr (inr (x, e, ground arith, ground arith))
        | inr other ↦ inl (x, ground arith, ground arith)
      ]
    ]
  ]
]

-- the loop, for a login that is not registered
loop_outcome :
    (r : PreAuthUserRecords) (login : String) (attempts : List UserAttempt) (result : Result ℕ)
    (r' : PreAuthUserRecords) (e : Error)
    → IsConsistent r
    → FreshIds r attempts
    → user_by_login r login ≡ err e
    → register_unique r login attempts ≡ some (result, r')
    → Outcome r login attempts result r'
loop_outcome r login attempts result r' e c f missing h =
    register_unique-Outcome r login attempts result r'
      (all_fresh r login attempts f (login_free r login e c missing).0) h

Outcome-IsConsistent :
    (r : PreAuthUserRecords) (login : String) (attempts : List UserAttempt) (result : Result ℕ)
    (r' : PreAuthUserRecords)
    → IsConsistent r
    → r.num_users < max_pre_auth_users
    → Outcome r login attempts result r'
    → IsConsistent r' × (r'.num_users ≤ max_pre_auth_users)
Outcome-IsConsistent r login attempts (err e) r' c room same =
    subst (λ (x : PreAuthUserRecords). IsConsistent x × (x.num_users ≤ max_pre_auth_users)) same
      (c, omega arith)
Outcome-IsConsistent r login attempts (ok uid) r' c room (bytes, entries, f, _, _, same) =
    subst (λ (x : PreAuthUserRecords). IsConsistent x × (x.num_users ≤ max_pre_auth_users)) same
      (added-IsConsistent r uid login bytes f c, omega arith)

-- From consistent records, with at most 4096 users, and IDs and names that are fresh at every round, a
-- call of RegisterPreAuthUser leaves consistent records, with at most 4096 users: the three maps
-- agree, every record stands under its own UID, and the counter is the number of records.
pub register_pre_auth_user-IsConsistent :
    (r : PreAuthUserRecords) (login : String) (attempts : List UserAttempt) (result : Result ℕ)
    (r' : PreAuthUserRecords)
    → IsConsistent r
    → r.num_users ≤ max_pre_auth_users
    → FreshIds r attempts
    → register_pre_auth_user r login attempts ≡ some (result, r')
    → IsConsistent r' × (r'.num_users ≤ max_pre_auth_users)
register_pre_auth_user-IsConsistent r login attempts result r' c bound f h =
    elim (call_cases r login attempts result r' h) [
      | inl (_, _, same) ↦
          subst (λ (x : PreAuthUserRecords). IsConsistent x × (x.num_users ≤ max_pre_auth_users))
            same (c, bound)
      | inr (inl (_, _, _, same)) ↦
          subst (λ (x : PreAuthUserRecords). IsConsistent x × (x.num_users ≤ max_pre_auth_users))
            same (c, bound)
      | inr (inr (e, missing, room, loop)) ↦
          Outcome-IsConsistent r login attempts result r' c room
            (loop_outcome r login attempts result r' e c f missing loop)
    ]

-- What the records `r'` after a call say, beside the records `r` before it.
abbrev pub Answers : PreAuthUserRecords → String → Result ℕ → PreAuthUserRecords → Type 0
Answers r login (err e) r' = r ≡ r'
Answers r login (ok uid) r' =
    ((u : PreAuthUser) × (user_by_login r' login ≡ ok (pre_auth_user_entry u))
      × (u.login_name ≡ login)
      × (u.uid ≡ uid))
    × ((j : String) → (login == j) ≡ false → user_by_login r' j ≡ user_by_login r j)

login_found :
    (r : PreAuthUserRecords) (login : String) (entry : UserEntry)
    → IsConsistent r
    → user_by_login r login ≡ ok entry
    → (u : PreAuthUser) × (entry ≡ pre_auth_user_entry u)
      × (u.login_name ≡ login)
      × (lookup u.uid r.users ≡ some u)
unfolding user_by_login user_by_id
login_found r login entry c h = elim (Option-cases (lookup login r.uid_by_login)) [
  | inl absent ↦ ground arith
  | inr (uid, there) ↦ elim (Option-cases (lookup uid r.users)) [
    | inl none_there ↦ ground arith
    | inr (u, record_there) ↦ (
      u,
      ground arith,
      ground (arith, c.logins.backward login uid there),
      ground (arith, c.uids uid u record_there),
    )
  ]
]

added-Answers :
    (r : PreAuthUserRecords) (login : String) (uid : ℕ) (bytes : String)
    → IsConsistent r
    → IsFresh r uid login bytes
    → Answers r login (ok uid) (added r uid login bytes)
unfolding user_by_login user_by_id
added-Answers r login uid bytes c f = (
  (
    new_user uid login bytes,
    ground (
      arith,
      lookup-insert login login uid r.uid_by_login,
      eq_iff login login,
      lookup-insert uid uid (new_user uid login bytes) r.users,
    ),
    refl,
    refl,
  ),
  λ j other. elim (Option-cases (lookup j r.uid_by_login)) [
    | inl absent ↦ ground (arith, lookup-insert login j uid r.uid_by_login)
    | inr (k, there) ↦ ground (
      arith,
      lookup-insert login j uid r.uid_by_login,
      lookup-insert uid k (new_user uid login bytes) r.users,
      c.logins.backward j k,
    )
  ],
)

Outcome-Answers :
    (r : PreAuthUserRecords) (login : String) (attempts : List UserAttempt) (result : Result ℕ)
    (r' : PreAuthUserRecords)
    → IsConsistent r
    → Outcome r login attempts result r'
    → Answers r login result r'
Outcome-Answers r login attempts (err e) r' c same = same
Outcome-Answers r login attempts (ok uid) r' c (bytes, entries, f, _, _, same) =
    subst (Answers r login (ok uid)) same (added-Answers r login uid bytes c f)

-- the answer where the login has a record already
found-Answers :
    (r : PreAuthUserRecords) (login : String) (entry : UserEntry) (result : Result ℕ)
    (r' : PreAuthUserRecords)
    → IsConsistent r
    → user_by_login r login ≡ ok entry
    → result ≡ ok entry.uid
    → r ≡ r'
    → Answers r login result r'
unfolding pre_auth_user_entry
found-Answers r login entry result r' c found answer same =
    let (u, e, named, there) = login_found r login entry c found in
    subst (λ x. Answers r login x r') (sym answer)
      (subst (Answers r login (ok entry.uid)) same
        ((u, found ∙ ap ok e, named, ap (λ (x : UserEntry). x.uid) (sym e)), λ j _. refl))

-- From consistent records and with fresh IDs and names: where RegisterPreAuthUser returns a UID, the
-- login is found under that UID, and every other login is found as before; where it returns an error,
-- the records are exactly those before the call.
pub register_pre_auth_user-Answers :
    (r : PreAuthUserRecords) (login : String) (attempts : List UserAttempt) (result : Result ℕ)
    (r' : PreAuthUserRecords)
    → IsConsistent r
    → FreshIds r attempts
    → register_pre_auth_user r login attempts ≡ some (result, r')
    → Answers r login result r'
register_pre_auth_user-Answers r login attempts result r' c f h =
    elim (call_cases r login attempts result r' h) [
      | inl (e, answer, same) ↦ subst (λ x. Answers r login x r') (sym answer) same
      | inr (inl (entry, found, answer, same)) ↦
          found-Answers r login entry result r' c found answer same
      | inr (inr (e, missing, room, loop)) ↦
          Outcome-Answers r login attempts result r' c
            (loop_outcome r login attempts result r' e c f missing loop)
    ]
