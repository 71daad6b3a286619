-- ===== src/TempEntries/Returns.antt =====
-- When the registration loops of internal/users/tempentries for temporary users and groups end.
use Prim.Native.String.{◌++◌}
use authd.Prelude.{
  ◌≢◌, ℕ, String, ◌≡◌, Bool, false, not, ◌&&◌, none, List, [], ◌∷◌, arith, ◌==◌, nat_eq, string_eq,
  any, ◌⊎◌, inl, inr, Option-cases, insert,
}
use authd.Errors.{ok, Result-cases}
use authd.LocalEntries.Entries.{Passwd, Group}
use authd.TempEntries.Attempts.{Attempt, UserAttempt, GroupAttempt}
use authd.TempEntries.Users
use authd.TempEntries.Groups
use authd.TempEntries.Users.{TemporaryUserRecords}
use authd.TempEntries.Groups.{TemporaryGroupRecords}
use authd.TempEntries.PreAuth.{user_by_login}
use authd.TempEntries.Records.{TemporaryRecords, register_new_user, register_user, register_group}

-- a listed user with the UID that is not the temporary one
abbrev pub taken_uid : ℕ → String → Passwd → Bool
taken_uid uid tmp_id e = e.uid == uid && not (e.gecos == tmp_id)

abbrev pub taken_gid : ℕ → String → Group → Bool
taken_gid gid tmp_id e = e.gid == gid && not (e.passwd == tmp_id)

-- Some round generates an ID and a name, and the entries are listed without another one that has the ID.
abbrev pub SomeFree : {E : Type 0} → (ℕ → String → E → Bool) → String → List (Attempt E) → Type 0
SomeFree taken prefix [] = ⊥
SomeFree {E = E} taken prefix (a ∷ rest) =
    ((id : ℕ) × (bytes : String) × (entries : List E) × (a.generated ≡ ok id)
      × (a.random ≡ ok bytes)
      × (a.entries ≡ ok entries)
      × (any (taken id (prefix ++ bytes)) entries ≡ false))
    ⊎ SomeFree taken prefix rest

abbrev pub UserSettles : List UserAttempt → Type 0
UserSettles attempts = SomeFree taken_uid "authd-temp-user-" attempts

abbrev pub GroupSettles : List GroupAttempt → Type 0
GroupSettles attempts = SomeFree taken_gid "authd-temp-group-" attempts

user_unique :
    (entries : List Passwd) (name : String) (uid : ℕ) (tmp_id : String)
    → any (taken_uid uid tmp_id) entries ≡ false
    → Users.unique_among entries name uid tmp_id ≢ ok false
unfolding Users.unique_among
user_unique [] name uid tmp_id free = λ p. ground arith
user_unique (e ∷ entries) name uid tmp_id free =
    λ p. ground (arith, user_unique entries name uid tmp_id)

group_unique :
    (entries : List Group) (name : String) (gid : ℕ) (tmp_id : String)
    → any (taken_gid gid tmp_id) entries ≡ false
    → Groups.unique_among entries name gid tmp_id ≢ ok false
unfolding Groups.unique_among
group_unique [] name gid tmp_id free = λ p. ground arith
group_unique (e ∷ entries) name gid tmp_id free =
    λ p. ground (arith, group_unique entries name gid tmp_id)

user_round-ne-none :
    (r : TemporaryUserRecords) (name : String) (a : UserAttempt) (rest : List UserAttempt)
    → ((uid : ℕ) × (bytes : String) × (entries : List Passwd) × (a.generated ≡ ok uid)
        × (a.random ≡ ok bytes)
        × (a.entries ≡ ok entries)
        × (any (taken_uid uid ("authd-temp-user-" ++ bytes)) entries ≡ false))
      ⊎ ((s : TemporaryUserRecords) → Users.register_unique s name rest ≢ none)
    → Users.register_unique r name (a ∷ rest) ≢ none
unfolding Users.register_unique Users.add_temporary_user Users.unique_name_and_uid
user_round-ne-none r name a rest (inl (uid, bytes, entries, g, n, l, free)) =
    λ p. ground (arith, user_unique entries name uid ("authd-temp-user-" ++ bytes) free)
user_round-ne-none r name a rest (inr next) = λ p. elim (Result-cases a.generated) [
  | inr (e, failed) ↦ ground arith
  | inl (uid, g) ↦ elim (Result-cases a.random) [
    | inr (e, failed) ↦ ground arith
    | inl (bytes, n) ↦
        let added : TemporaryUserRecords = record {
          users =
              insert uid (record { name = name; uid = uid; gecos = "authd-temp-user-" ++ bytes })
                r.users;
          uid_by_name = insert name uid r.uid_by_name;
        } in
        ground (arith, next (Users.delete_temporary_user added uid))
  ]
]

user_loop-ne-none :
    (r : TemporaryUserRecords) (name : String) (attempts : List UserAttempt)
    → UserSettles attempts
    → Users.register_unique r name attempts ≢ none
user_loop-ne-none r name [] h = absurd h
user_loop-ne-none r name (a ∷ rest) (inl here) = user_round-ne-none r name a rest (inl here)
user_loop-ne-none r name (a ∷ rest) (inr there) =
    user_round-ne-none r name a rest (inr λ s. user_loop-ne-none s name rest there)

group_round-ne-none :
    (r : TemporaryGroupRecords) (name : String) (a : GroupAttempt) (rest : List GroupAttempt)
    → ((gid : ℕ) × (bytes : String) × (entries : List Group) × (a.generated ≡ ok gid)
        × (a.random ≡ ok bytes)
        × (a.entries ≡ ok entries)
        × (any (taken_gid gid ("authd-temp-group-" ++ bytes)) entries ≡ false))
      ⊎ ((s : TemporaryGroupRecords) → Groups.register_unique s name rest ≢ none)
    → Groups.register_unique r name (a ∷ rest) ≢ none
unfolding Groups.register_unique Groups.add_temporary_group Groups.unique_name_and_gid
group_round-ne-none r name a rest (inl (gid, bytes, entries, g, n, l, free)) =
    λ p. ground (arith, group_unique entries name gid ("authd-temp-group-" ++ bytes) free)
group_round-ne-none r name a rest (inr next) = λ p. elim (Result-cases a.generated) [
  | inr (e, failed) ↦ ground arith
  | inl (gid, g) ↦ elim (Result-cases a.random) [
    | inr (e, failed) ↦ ground arith
    | inl (bytes, n) ↦
        let added : TemporaryGroupRecords = record {
          groups =
              insert gid (record { name = name; gid = gid; passwd = "authd-temp-group-" ++ bytes })
                r.groups;
          gid_by_name = insert name gid r.gid_by_name;
        } in
        ground (arith, next (Groups.delete_temporary_group added gid))
  ]
]

group_loop-ne-none :
    (r : TemporaryGroupRecords) (name : String) (attempts : List GroupAttempt)
    → GroupSettles attempts
    → Groups.register_unique r name attempts ≢ none
group_loop-ne-none r name [] h = absurd h
group_loop-ne-none r name (a ∷ rest) (inl here) = group_round-ne-none r name a rest (inl here)
group_loop-ne-none r name (a ∷ rest) (inr there) =
    group_round-ne-none r name a rest (inr λ s. group_loop-ne-none s name rest there)

-- a script that settles has a round
replace-ne-none :
    (r : TemporaryRecords) (name : String) (attempts : List UserAttempt)
    → UserSettles attempts
    → register_new_user r name attempts ≢ none
unfolding register_new_user
replace-ne-none r name [] h = absurd h
replace-ne-none r name (a ∷ rest) h = λ p. ground (
  arith,
  user_loop-ne-none r.temporary_users name (a ∷ rest) h,
  Result-cases (user_by_login r.pre_auth_users name),
  Option-cases (Users.register_unique r.temporary_users name (a ∷ rest)),
)

pub register_user-ne-none :
    (r : TemporaryRecords) (name : String) (attempts : List UserAttempt)
    → UserSettles attempts
    → register_user r name attempts ≢ none
unfolding register_user
register_user-ne-none r name attempts h = λ p. ground (arith, replace-ne-none r name attempts h)

pub register_group-ne-none :
    (r : TemporaryRecords) (name : String) (attempts : List GroupAttempt)
    → GroupSettles attempts
    → register_group r name attempts ≢ none
unfolding register_group Groups.register_group
register_group-ne-none r name attempts h = λ p. ground (
  arith,
  group_loop-ne-none r.temporary_groups name attempts h,
  Option-cases (Groups.register_unique r.temporary_groups name attempts),
)
