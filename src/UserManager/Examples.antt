-- ===== src/UserManager/Examples.antt =====
-- UpdateUser for a user that the database has, with a broker.
use authd.Prelude.{
  ◌≡◌, ◌≢◌, inl, refl, none, some, [], ◌∷◌, nat_eq, string_eq, find, lookup, insert, erase,
}
use authd.Errors.{ok}
use authd.Types.{UserInfo}
use authd.Db.Tables.{UserRow, new_user_row, new_group_row, in_transaction, commit_or_roll_back}
use authd.Db.Users.{
  user_by_id, user_by_name, user_exists, insert_user, update_user_by_id,
  insert_or_update_user_by_id, has_uid,
}
use authd.Db.Groups.{
  group_by_id, group_by_name, group_by_ugid, group_exists, insert_group, update_group_by_id,
  insert_or_update_group_by_id,
}
use authd.Db.Memberships.{
  remove_user_from_all_groups, add_user_to_group, remove_user_from_all_local_groups,
  add_user_to_local_group, user_local_groups,
}
use authd.Db.Update.{
  update_user_entry, update_in, handle_user_update, handle_group_update, handle_groups_update,
  add_user_to_groups, handle_users_to_groups_update, add_user_to_local_groups,
  handle_users_to_local_groups_update,
}
use authd.Db.Invariant.{IsWellFormed}
use authd.Db.Examples.{stored_db, alice, alice_group, stored_tables-IsWellFormed}
use authd.LocalEntries.Groups.{
  code, update, planned, run_all, run_gpasswd, existing_local_groups, parse_line, add, delete,
}
use authd.LocalEntries.Text.{split, trim_space}
use authd.SliceUtils.{difference, intersection, to_set}
use authd.TempEntries.Records.{new_temporary_records}
use authd.TempEntries.Users.{delete_temporary_user}
use authd.TempEntries.Groups.{delete_temporary_group}
use authd.UserManager.State.{Manager, System, Outcome, default_config, unknown, missing}
use authd.UserManager.Update.{update_user, update_with, resolve_uid, clean_up}
use authd.UserManager.Groups.{
  check_group_name_conflict, find_group, assign_gid, prepare_group, prepare_groups,
}
use authd.UserManager.Storing.{check_home_dir_ownership, after_database, store}
use authd.UserManager.Returns.{update_user_returns}
use authd.UserManager.Updates.{
  IsUpdated, update_user-IsWellFormed, update_user_stored, update_user_clears_broker,
}

abbrev pub manager : Manager
manager = record {
  db = stored_db;
  config = default_config;
  temporary_records = new_temporary_records;
}

abbrev pub system : System
system = record {
  lookup_user = λ _. unknown;
  lookup_group = λ _. unknown;
  user_attempts = [];
  group_attempts = λ _. [];
  gpasswd = λ _. code 0;
  group_file = ok ("sudo:x:27:alice" ∷ "docker:x:999:" ∷ []);
  stat = λ _. missing;
}

abbrev pub alice_info : UserInfo
alice_info = record {
  name = "alice";
  uid = 0;
  gecos = "Alice A.";
  dir = "/home/a";
  shell = "/bin/bash";
  groups = record { name = "docker"; gid = none; ugid = "" } ∷ [];
}

abbrev pub outcome : Outcome
outcome = record {
  result = ok tt;
  manager = record manager {
    db = record stored_db {
      tables = record {
        users = record alice { gecos = "Alice A."; shell = "/bin/bash"; broker_id = "" } ∷ [];
        groups = alice_group ∷ [];
        users_to_groups = record { uid = 1000; gid = 1000 } ∷ [];
        users_to_local_groups = record { uid = 1000; group_name = "docker" } ∷ [];
      };
    };
  };
  calls = delete "alice" "sudo" ∷ add "alice" "docker" ∷ [];
}

pub update_alice : update_user manager system alice_info ≡ some outcome
unfolding new_user_row new_group_row in_transaction commit_or_roll_back user_by_id user_by_name
    user_exists insert_user update_user_by_id insert_or_update_user_by_id group_by_id group_by_name
    group_by_ugid group_exists insert_group update_group_by_id insert_or_update_group_by_id
    remove_user_from_all_groups add_user_to_group remove_user_from_all_local_groups
    add_user_to_local_group user_local_groups update_user_entry update_in handle_user_update
    handle_group_update handle_groups_update add_user_to_groups handle_users_to_groups_update
    add_user_to_local_groups handle_users_to_local_groups_update update planned run_all run_gpasswd
    existing_local_groups parse_line split trim_space difference intersection to_set
    delete_temporary_user delete_temporary_group update_user update_with resolve_uid
    check_group_name_conflict find_group assign_gid prepare_group prepare_groups
    check_home_dir_ownership after_database store clean_up lookup insert erase
update_alice = refl

alice_known : user_by_name manager.db "alice" ≡ ok alice
unfolding user_by_name
alice_known = refl

update_user-IsWellFormed_example : IsWellFormed outcome.manager.db.tables
update_user-IsWellFormed_example =
    update_user-IsWellFormed manager system alice_info outcome stored_tables-IsWellFormed
      update_alice

update_user_stored_example : IsUpdated manager alice_info outcome.manager
update_user_stored_example = update_user_stored manager system alice_info outcome update_alice refl

update_user_clears_broker_example :
    (row : UserRow) × (find (has_uid 1000) outcome.manager.db.users ≡ some row)
    × (row.broker_id ≡ "")
update_user_clears_broker_example =
    update_user_clears_broker manager system alice_info outcome alice alice_known update_alice refl

-- With rounds for a new user and a new group.
abbrev settling : System
settling = record system {
  user_attempts = record { generated = ok 1000000009; random = ok "00"; entries = ok [] } ∷ [];
  group_attempts =
      λ _. record { generated = ok 1000000009; random = ok "01"; entries = ok [] } ∷ [];
}

update_user_returns_example : update_user manager settling alice_info ≢ none
update_user_returns_example = update_user_returns manager settling alice_info (
  inl (1000000009, "00", [], refl, refl, refl, refl),
  λ _. inl (1000000009, "01", [], refl, refl, refl, refl),
)
