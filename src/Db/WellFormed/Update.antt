-- ===== src/Db/WellFormed/Update.antt =====
-- UpdateUserEntry of internal/users/db/update.go and the invariant of the tables.
use authd.Prelude.{ℕ, String, ◌≡◌, List, [], ◌∷◌, subst}
use authd.Errors.{ok, or_default, >>=-eq-ok, ok-eq}
use authd.Db.Tables.{UserRow, GroupRow, Conn}
use authd.Db.Memberships.{
  remove_user_from_all_groups, add_user_to_group, remove_user_from_all_local_groups,
  add_user_to_local_group,
}
use authd.Db.Update.{
  keep_dir, handle_group_update, handle_groups_update, add_user_to_groups,
  handle_users_to_groups_update, add_user_to_local_groups, handle_users_to_local_groups_update,
  update_in, update_user_entry,
}
use authd.Db.Effects.Update.{
  handle_user_update_effect, handle_group_update_effect, update_in_effect, in_transaction_cases,
  body-ok,
}
use authd.Db.Invariant.{Good, IsWellFormed}
use authd.Db.WellFormed.Users.{upsert_user-IsWellFormed}
use authd.Db.WellFormed.Groups.{upsert_group-IsWellFormed}
use authd.Db.WellFormed.Memberships.{
  add_user_to_group-IsWellFormed, remove_user_from_all_groups-IsWellFormed,
  add_user_to_local_group-IsWellFormed, remove_user_from_all_local_groups-IsWellFormed,
}

groups-IsWellFormed :
    (c : Conn) (gs : List GroupRow) (c' : Conn)
    → handle_groups_update c gs ≡ ok c'
    → Good c
    → Good c'
unfolding handle_groups_update
groups-IsWellFormed c [] c' h w = subst Good (ok-eq c c' h) w
groups-IsWellFormed c (g ∷ gs) c' h w =
    let (c₁, e, rest) = >>=-eq-ok (handle_group_update c g) _ c' h in
    let (_, _, _, stored) = handle_group_update_effect c g c₁ e in
    groups-IsWellFormed c₁ gs c' rest (upsert_group-IsWellFormed c g c₁ stored w)

add_groups-IsWellFormed :
    (c : Conn) (uid : ℕ) (gs : List GroupRow) (c' : Conn)
    → add_user_to_groups c uid gs ≡ ok c'
    → Good c
    → Good c'
unfolding add_user_to_groups
add_groups-IsWellFormed c uid [] c' h w = subst Good (ok-eq c c' h) w
add_groups-IsWellFormed c uid (g ∷ gs) c' h w =
    let (c₁, e, rest) = >>=-eq-ok (add_user_to_group c uid g.gid) _ c' h in
    add_groups-IsWellFormed c₁ uid gs c' rest (add_user_to_group-IsWellFormed c uid g.gid c₁ e w)

add_local_groups-IsWellFormed :
    (c : Conn) (uid : ℕ) (gs : List String) (c' : Conn)
    → add_user_to_local_groups c uid gs ≡ ok c'
    → Good c
    → Good c'
unfolding add_user_to_local_groups
add_local_groups-IsWellFormed c uid [] c' h w = subst Good (ok-eq c c' h) w
add_local_groups-IsWellFormed c uid (g ∷ gs) c' h w =
    let (c₁, e, rest) = >>=-eq-ok (add_user_to_local_group c uid g) _ c' h in
    add_local_groups-IsWellFormed c₁ uid gs c' rest
      (add_user_to_local_group-IsWellFormed c uid g c₁ e w)

user_to_groups-IsWellFormed :
    (c : Conn) (uid : ℕ) (gs : List GroupRow) (c' : Conn)
    → handle_users_to_groups_update c uid gs ≡ ok c'
    → Good c
    → Good c'
unfolding handle_users_to_groups_update
user_to_groups-IsWellFormed c uid gs c' h w =
    let (c₁, e, rest) = >>=-eq-ok (or_default c (remove_user_from_all_groups c uid)) _ c' h in
    add_groups-IsWellFormed c₁ uid gs c' rest
      (remove_user_from_all_groups-IsWellFormed c uid c₁ e w)

user_to_local_groups-IsWellFormed :
    (c : Conn) (uid : ℕ) (gs : List String) (c' : Conn)
    → handle_users_to_local_groups_update c uid gs ≡ ok c'
    → Good c
    → Good c'
unfolding handle_users_to_local_groups_update
user_to_local_groups-IsWellFormed c uid gs c' h w =
    let (c₁, e, rest) = >>=-eq-ok (remove_user_from_all_local_groups c uid) _ c' h in
    add_local_groups-IsWellFormed c₁ uid gs c' rest
      (remove_user_from_all_local_groups-IsWellFormed c uid c₁ e w)

update_in-IsWellFormed :
    (user : UserRow) (groups : List GroupRow) (local_groups : List String) (c c' : Conn)
    → update_in user groups local_groups c ≡ ok c'
    → Good c
    → Good c'
update_in-IsWellFormed user groups local_groups c c' h w =
    let (c₁, c₂, c₃, e₁, e₂, e₃, e₄) = update_in_effect user groups local_groups c c' h in
    let (existing, _, _, stored) = handle_user_update_effect c user c₁ e₁ in
    let w₁ = upsert_user-IsWellFormed c (keep_dir existing user) c₁ stored w in
    let w₂ = groups-IsWellFormed c₁ groups c₂ e₂ w₁ in
    let w₃ = user_to_groups-IsWellFormed c₂ user.uid groups c₃ e₃ w₂ in
    user_to_local_groups-IsWellFormed c₃ user.uid local_groups c' e₄ w₃

-- UpdateUserEntry keeps the tables well-formed, whether it succeeds or fails at any statement: no two
-- users share a UID or a name, no two groups share a GID, a name or a UGID, no membership stands
-- twice, and every membership is that of a stored user, in a stored group.
pub update_user_entry-IsWellFormed :
    (c : Conn) (user : UserRow) (groups : List GroupRow) (local_groups : List String)
    → IsWellFormed c.tables
    → IsWellFormed (update_user_entry c user groups local_groups).1.tables
unfolding update_user_entry
update_user_entry-IsWellFormed c user groups local_groups w =
    in_transaction_cases c _ Good w λ _ c' h.
      update_in-IsWellFormed user groups local_groups c c'
        (body-ok (update_in user groups local_groups c) _ c' h) w
