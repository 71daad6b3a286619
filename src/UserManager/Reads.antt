-- ===== src/UserManager/Reads.antt =====
-- The reads of internal/users/manager.go, which the NSS service gives out, and the conversions of
-- defs.go.
use authd.Prelude.{ℕ, String, List, [], ◌∷◌, negsuc}
use authd.Errors.{Result, ok, ◌>>=◌}
use authd.Types.{UserEntry, GroupEntry, ShadowEntry}
use authd.Db.Tables.{UserRow, GroupWithMembers}
use authd.Db.Users
use authd.Db.Groups.{group_with_members_by_id, group_with_members_by_name, all_groups_with_members}
use authd.TempEntries.Records
use authd.TempEntries.Records.{or_else}
use authd.TempEntries.Groups
use authd.UserManager.State.{Manager}

unfoldable pub user_entry_from_user_row : UserRow → UserEntry
user_entry_from_user_row u = record {
  name = u.name;
  uid = u.uid;
  gid = u.gid;
  gecos = u.gecos;
  dir = u.dir;
  shell = u.shell;
}

-- -1 stands for an unset age.
unfoldable pub shadow_entry_from_user_row : UserRow → ShadowEntry
shadow_entry_from_user_row u = record {
  name = u.name;
  last_pwd_change = negsuc 0;
  max_pwd_age = negsuc 0;
  pwd_warn_period = negsuc 0;
  pwd_inactivity = negsuc 0;
  min_pwd_age = negsuc 0;
  expiration_date = negsuc 0;
}

unfoldable pub group_entry_from_group_with_members : GroupWithMembers → GroupEntry
group_entry_from_group_with_members g = record {
  name = g.group.name;
  gid = g.group.gid;
  users = g.users;
  passwd = "";
}

unfoldable pub broker_for_user : Manager → String → Result String
broker_for_user m username = do u ← Users.user_by_name m.db username; ok u.broker_id

unfoldable pub user_by_name : Manager → String → Result UserEntry
user_by_name m name =
    or_else (do u ← Users.user_by_name m.db name; ok (user_entry_from_user_row u))
      (Records.user_by_name m.temporary_records name)

unfoldable pub user_by_id : Manager → ℕ → Result UserEntry
user_by_id m uid =
    or_else (do u ← Users.user_by_id m.db uid; ok (user_entry_from_user_row u))
      (Records.user_by_id m.temporary_records uid)

abbrev each {ℓ} : {A B : Type ℓ} → (A → B) → List A → List B
each f [] = []
each f (x ∷ xs) = f x ∷ each f xs

-- The temporary users are left out.
unfoldable pub all_users : Manager → Result (List UserEntry)
all_users m = do us ← Users.all_users m.db; ok (each user_entry_from_user_row us)

unfoldable pub group_by_name : Manager → String → Result GroupEntry
group_by_name m name =
    or_else
      (do g ← (group_with_members_by_name m.db name).0; ok (group_entry_from_group_with_members g))
      (Groups.group_by_name m.temporary_records.temporary_groups name)

unfoldable pub group_by_id : Manager → ℕ → Result GroupEntry
group_by_id m gid =
    or_else
      (do g ← (group_with_members_by_id m.db gid).0; ok (group_entry_from_group_with_members g))
      (Groups.group_by_id m.temporary_records.temporary_groups gid)

unfoldable pub all_groups : Manager → Result (List GroupEntry)
all_groups m = do
  gs ← (all_groups_with_members m.db).0
  ok (each group_entry_from_group_with_members gs)

unfoldable pub shadow_by_name : Manager → String → Result ShadowEntry
shadow_by_name m name = do u ← Users.user_by_name m.db name; ok (shadow_entry_from_user_row u)

unfoldable pub all_shadows : Manager → Result (List ShadowEntry)
all_shadows m = do us ← Users.all_users m.db; ok (each shadow_entry_from_user_row us)
