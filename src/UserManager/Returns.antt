-- ===== src/UserManager/Returns.antt =====
-- When UpdateUser of internal/users/manager.go returns.
use authd.Prelude.{◌≢◌, String, none, List, [], ◌∷◌, arith, string_eq, Option-cases, inl, inr}
use authd.Errors.{ok, err, Result-cases}
use authd.Types.{UserInfo, GroupInfo}
use authd.Db.Tables.{Conn}
use authd.Db.Users.{user_by_name}
use authd.TempEntries.Records.{register_user, register_group}
use authd.TempEntries.Returns.{
  UserSettles, GroupSettles, register_user-ne-none, register_group-ne-none,
}
use authd.UserManager.State.{Manager, System}
use authd.UserManager.Groups.{
  Progress, assign_gid, prepare_group, prepare_groups, private_group_info, start, find_group,
}
use authd.UserManager.Update.{resolve_uid, update_with, update_user}

-- The rounds for the user, and those for each group, settle.
abbrev pub Settle : System → Type 0
Settle sys =
    UserSettles sys.user_attempts × ((name : String) → GroupSettles (sys.group_attempts name))

assign_gid-ne-none :
    (db : Conn) (sys : System) (g : GroupInfo) (p : Progress)
    → Settle sys
    → assign_gid db sys g p ≢ none
unfolding assign_gid
assign_gid-ne-none db sys g p h = λ q. ground (
  arith,
  register_group-ne-none p.records g.name (sys.group_attempts g.name) (h.1 g.name),
  Result-cases (find_group db g),
  Option-cases (register_group p.records g.name (sys.group_attempts g.name)),
)

prepare_group-ne-none :
    (db : Conn) (sys : System) (g : GroupInfo) (p : Progress)
    → Settle sys
    → prepare_group db sys g p ≢ none
unfolding prepare_group
prepare_group-ne-none db sys g p h = λ q. ground (arith, assign_gid-ne-none db sys g p h)

prepare_groups-ne-none :
    (db : Conn) (sys : System) (gs : List GroupInfo) (p : Progress)
    → Settle sys
    → prepare_groups db sys gs p ≢ none
unfolding prepare_groups
prepare_groups-ne-none db sys [] p h = λ q. ground arith
prepare_groups-ne-none db sys (g ∷ gs) p h = λ q. elim (Option-cases (prepare_group db sys g p)) [
  | inl running ↦ prepare_group-ne-none db sys g p h running
  | inr ((err e, p'), done) ↦ ground arith
  | inr ((ok _, p'), done) ↦ prepare_groups-ne-none db sys gs p' h (ground arith)
]

resolve_uid-ne-none :
    (m : Manager) (sys : System) (name : String) → Settle sys → resolve_uid m sys name ≢ none
unfolding resolve_uid
resolve_uid-ne-none m sys name h = λ q. ground (
  arith,
  register_user-ne-none m.temporary_records name sys.user_attempts h.0,
  Result-cases (user_by_name m.db name),
  Option-cases (register_user m.temporary_records name sys.user_attempts),
)

-- UpdateUser returns, whatever the database, the records and the user info, where each registration loop
-- has a round in which an ID and a name are generated and no other listed user or group has the ID.
pub update_user_returns :
    (m : Manager) (sys : System) (u : UserInfo) → Settle sys → update_user m sys u ≢ none
unfolding update_user update_with
update_user_returns m sys u h = λ q. elim (Option-cases (resolve_uid m sys u.name)) [
  | inl running ↦ resolve_uid-ne-none m sys u.name h running
  | inr ((err e, records), resolved) ↦ ground arith
  | inr ((ok (uid, registered), records), resolved) ↦
      elim (Option-cases
        (prepare_groups m.db sys (private_group_info u.name ∷ u.groups) (start records))) [
          | inl running ↦
              prepare_groups-ne-none m.db sys (private_group_info u.name ∷ u.groups) (start records)
                h running
          | inr ((err e, p), prepared) ↦ ground arith
          | inr ((ok _, p), prepared) ↦ ground arith
        ]
]
