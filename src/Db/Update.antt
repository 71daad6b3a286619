-- ===== src/Db/Update.antt =====
-- internal/users/db/update.go: UpdateUserEntry and its four steps.
use authd.Prelude.{ℕ, String, not, ◌&&◌, List, [], ◌∷◌, ◌==◌, string_eq, if◌then◌else◌}
use authd.Errors.{Result, ok, uid_in_use, gid_in_use, ◌>>=◌, ◌>>◌, fail_if, or_default}
use authd.Db.Tables.{UserRow, GroupRow, Conn, no_user, no_group, in_transaction}
use authd.Db.Users.{user_by_id, insert_or_update_user_by_id}
use authd.Db.Groups.{group_by_id, insert_or_update_group_by_id}
use authd.Db.Memberships.{
  remove_user_from_all_groups, add_user_to_group, remove_user_from_all_local_groups,
  add_user_to_local_group,
}

-- the home directory of the database is kept
abbrev pub keep_dir : UserRow → UserRow → UserRow
keep_dir existing u =
    if not (existing.dir == "") && not (existing.dir == u.dir)
    then record u { dir = existing.dir }
    else u

unfoldable pub handle_user_update : Conn → UserRow → Result Conn
handle_user_update c u = do
  existing ← or_default no_user (user_by_id c u.uid)
  fail_if (not (existing.name == "") && not (existing.name == u.name)) uid_in_use
  insert_or_update_user_by_id c (keep_dir existing u)

-- Where no group has the GID, `existing` is the zero row, whose UGID is empty.
unfoldable pub handle_group_update : Conn → GroupRow → Result Conn
handle_group_update c group = do
  existing ← or_default no_group (group_by_id c group.gid)
  fail_if (not (existing.ugid == "") && not (existing.ugid == group.ugid)) gid_in_use
  insert_or_update_group_by_id c group

unfoldable pub handle_groups_update : Conn → List GroupRow → Result Conn
handle_groups_update c [] = ok c
handle_groups_update c (group ∷ groups) = do
  c' ← handle_group_update c group
  handle_groups_update c' groups

unfoldable pub add_user_to_groups : Conn → ℕ → List GroupRow → Result Conn
add_user_to_groups c uid [] = ok c
add_user_to_groups c uid (group ∷ groups) = do
  c' ← add_user_to_group c uid group.gid
  add_user_to_groups c' uid groups

unfoldable pub handle_users_to_groups_update : Conn → ℕ → List GroupRow → Result Conn
handle_users_to_groups_update c uid groups = do
  c' ← or_default c (remove_user_from_all_groups c uid)
  add_user_to_groups c' uid groups

unfoldable pub add_user_to_local_groups : Conn → ℕ → List String → Result Conn
add_user_to_local_groups c uid [] = ok c
add_user_to_local_groups c uid (group ∷ groups) = do
  c' ← add_user_to_local_group c uid group
  add_user_to_local_groups c' uid groups

unfoldable pub handle_users_to_local_groups_update : Conn → ℕ → List String → Result Conn
handle_users_to_local_groups_update c uid local_groups = do
  c' ← remove_user_from_all_local_groups c uid
  add_user_to_local_groups c' uid local_groups

-- the body of the transaction
unfoldable pub update_in : UserRow → List GroupRow → List String → Conn → Result Conn
update_in user authd_groups local_groups tx = do
  tx₁ ← handle_user_update tx user
  tx₂ ← handle_groups_update tx₁ authd_groups
  tx₃ ← handle_users_to_groups_update tx₂ user.uid authd_groups
  handle_users_to_local_groups_update tx₃ user.uid local_groups

unfoldable pub update_user_entry :
    Conn → UserRow → List GroupRow → List String → Result (Unit {0}) × Conn
update_user_entry c user authd_groups local_groups =
    in_transaction c λ tx. do tx' ← update_in user authd_groups local_groups tx; ok (tt, tx')
