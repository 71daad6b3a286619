-- ===== src/Db/Examples.antt =====
-- A small database with one user in one group, and UpdateUserEntry on it.
use mathlib.Core.List.{reverse, reverse_perm}
use authd.Prelude.{◌≡◌, refl, false, [], ◌∷◌, nat_eq, string_eq}
use authd.Errors.{ok, or_default}
use authd.Db.Tables.{
  RowOrder, Conn, Tables, UserRow, GroupRow, no_user, in_transaction, commit_or_roll_back,
}
use authd.Db.Users.{
  user_by_id, user_exists, insert_user, update_user_by_id, insert_or_update_user_by_id,
}
use authd.Db.Groups.{
  group_by_id, group_exists, insert_group, update_group_by_id, insert_or_update_group_by_id,
}
use authd.Db.Memberships.{
  remove_user_from_all_groups, add_user_to_group, remove_user_from_all_local_groups,
  add_user_to_local_group,
}
use authd.Db.Update.{
  update_user_entry, keep_dir, update_in, handle_user_update, handle_group_update,
  handle_groups_update, add_user_to_groups, handle_users_to_groups_update, add_user_to_local_groups,
  handle_users_to_local_groups_update,
}
use authd.Db.Invariant.{IsWellFormed}
use authd.Db.Tables.{empty_tables}
use authd.Db.Users.{delete_user}
use authd.Db.WellFormed.Update.{update_user_entry-IsWellFormed}
use authd.Db.WellFormed.Calls.{Calls-IsWellFormed, none_yet, then_call, update_entry, delete}
use authd.Db.Stored.Entry.{IsStored, update_user_entry-IsStored}

abbrev pub alice : UserRow
alice = record {
  name = "alice";
  uid = 1000;
  gid = 1000;
  gecos = "Alice";
  dir = "/home/alice";
  shell = "/bin/sh";
  broker_id = "3";
}

abbrev pub alice_group : GroupRow
alice_group = record { name = "alice"; gid = 1000; ugid = "alice" }

abbrev pub developers : GroupRow
developers = record { name = "developers"; gid = 2000; ugid = "12345678" }

abbrev pub stored_tables : Tables
stored_tables = record {
  users = alice ∷ [];
  groups = alice_group ∷ [];
  users_to_groups = record { uid = 1000; gid = 1000 } ∷ [];
  users_to_local_groups = record { uid = 1000; group_name = "sudo" } ∷ [];
}

-- a database that gives its rows backwards
abbrev pub reversed : {A : Type 0} → RowOrder A
reversed = record { arrange = reverse; arranges = reverse_perm }

abbrev pub stored_db : Conn
stored_db = record {
  tables = stored_tables;
  fails = λ _ _. false;
  user_order = reversed;
  group_order = reversed;
  name_order = reversed;
}

-- the row for another shell and another home directory
abbrev changed : UserRow
changed = record alice { shell = "/bin/bash"; dir = "/home/a"; broker_id = "" }

abbrev changed_db : Conn
changed_db = record {
  tables = record {
    users = record alice { shell = "/bin/bash"; broker_id = "" } ∷ [];
    groups = alice_group ∷ developers ∷ [];
    users_to_groups = record { uid = 1000; gid = 1000 } ∷ record { uid = 1000; gid = 2000 } ∷ [];
    users_to_local_groups = record { uid = 1000; group_name = "docker" } ∷ [];
  };
  fails = λ _ _. false;
  user_order = reversed;
  group_order = reversed;
  name_order = reversed;
}

pub stored_tables-IsWellFormed : IsWellFormed stored_tables
stored_tables-IsWellFormed = record {
  uids = (refl, tt);
  names = (refl, tt);
  gids = (refl, tt);
  group_names = (refl, tt);
  ugids = (refl, tt);
  memberships = (refl, tt);
  local_memberships = (refl, tt);
  members_exist = (refl, tt);
  groups_exist = (refl, tt);
  local_members_exist = (refl, tt);
}

update_changed :
    update_user_entry stored_db changed (alice_group ∷ developers ∷ []) ("docker" ∷ [])
    ≡ (ok tt, changed_db)
unfolding in_transaction commit_or_roll_back user_by_id user_exists insert_user update_user_by_id
    insert_or_update_user_by_id group_by_id group_exists insert_group update_group_by_id
    insert_or_update_group_by_id remove_user_from_all_groups add_user_to_group
    remove_user_from_all_local_groups add_user_to_local_group update_user_entry update_in
    handle_user_update handle_group_update handle_groups_update add_user_to_groups
    handle_users_to_groups_update add_user_to_local_groups handle_users_to_local_groups_update
update_changed = refl

update_user_entry-IsWellFormed_example :
    IsWellFormed
      (update_user_entry stored_db changed (alice_group ∷ developers ∷ []) ("docker" ∷ [])).1.tables
update_user_entry-IsWellFormed_example =
    update_user_entry-IsWellFormed stored_db changed (alice_group ∷ developers ∷ []) ("docker" ∷ [])
      stored_tables-IsWellFormed

update_user_entry-IsStored_example :
    (existing : UserRow) × (or_default no_user (user_by_id stored_db 1000) ≡ ok existing)
    × IsStored stored_db changed_db 1000
        (keep_dir existing changed)
        (alice_group ∷ developers ∷ [])
        ("docker" ∷ [])
update_user_entry-IsStored_example =
    update_user_entry-IsStored stored_db changed_db changed alice_group (developers ∷ [])
      ("docker" ∷ []) update_changed

abbrev new_db : Conn
new_db = record {
  tables = empty_tables;
  fails = λ _ _. false;
  user_order = reversed;
  group_order = reversed;
  name_order = reversed;
}

Calls-IsWellFormed_example :
    IsWellFormed
      (delete_user
        (update_user_entry new_db alice (alice_group ∷ []) ("sudo" ∷ [])).1
        1000).1.tables
Calls-IsWellFormed_example =
    Calls-IsWellFormed new_db
      (delete_user (update_user_entry new_db alice (alice_group ∷ []) ("sudo" ∷ [])).1 1000).1 refl
      (then_call (then_call none_yet (update_entry new_db alice (alice_group ∷ []) ("sudo" ∷ [])))
        (delete (update_user_entry new_db alice (alice_group ∷ []) ("sudo" ∷ [])).1 1000))
