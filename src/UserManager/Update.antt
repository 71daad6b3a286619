-- ===== src/UserManager/Update.antt =====
-- UpdateUser, UpdateBrokerForUser and RegisterUserPreAuth of internal/users/manager.go. A call returns
-- its result beside the new state; the mutex that UpdateUser holds makes it one step.
use authd.Prelude.{
  ℕ, String, Bool, true, false, not, Option, none, some, List, [], ◌∷◌, ◌==◌, nat_eq, string_eq,
  if◌then◌else◌,
}
use authd.Errors.{Result, ok, err, is_no_data, empty_username, exists_on_system}
use authd.Types.{UserInfo}
use authd.Db.Users.{user_by_name, update_broker_for_user}
use authd.TempEntries.Attempts.{UserAttempt}
use authd.TempEntries.Users.{delete_temporary_user}
use authd.TempEntries.Groups.{delete_temporary_group}
use authd.TempEntries.Records.{TemporaryRecords, register_user, register_pre_auth_user}
use authd.UserManager.State.{Manager, System, Outcome, is_unknown}
use authd.UserManager.Groups.{prepare_groups, private_group_info, start}
use authd.UserManager.Storing.{store}

-- The UID for a user, and whether a temporary user was registered for it.
unfoldable pub resolve_uid :
    Manager → System → String → Option (Result (ℕ × Bool) × TemporaryRecords)
resolve_uid m sys name = elim (user_by_name m.db name) [
  | ok old ↦ some (ok (old.uid, false), m.temporary_records)
  | err e ↦
      if not (is_no_data e)
      then some (err e, m.temporary_records)
      else if not (is_unknown (sys.lookup_user name))
      then some (err exists_on_system, m.temporary_records)
      else elim (register_user m.temporary_records name sys.user_attempts) [
        | none ↦ none
        | some (ok uid, records) ↦ some (ok (uid, true), records)
        | some (err e', records) ↦ some (err e', records)
      ]
]

abbrev pub drop_groups : TemporaryRecords → List ℕ → TemporaryRecords
drop_groups r [] = r
drop_groups r (gid ∷ gids) =
    drop_groups (record r { temporary_groups = delete_temporary_group r.temporary_groups gid }) gids

-- The deferred cleanups, the last registered one first: the groups, then the user.
unfoldable pub clean_up : TemporaryRecords → List ℕ → ℕ → Bool → TemporaryRecords
clean_up r gids uid registered =
    let dropped = drop_groups r gids in
    if registered
    then record dropped { temporary_users = delete_temporary_user dropped.temporary_users uid }
    else dropped

-- with the UID at hand: the groups, the writes and the cleanups
unfoldable pub update_with :
    Manager → System → UserInfo → ℕ → Bool → TemporaryRecords → Option Outcome
update_with m sys u uid registered records =
    elim (prepare_groups m.db sys (private_group_info u.name ∷ u.groups) (start records)) [
      | none ↦ none
      | some (err e, p) ↦ some (record {
        result = err e;
        manager = record m { temporary_records = clean_up p.records p.gids uid registered };
        calls = [];
      })
      | some (ok _, p) ↦
          let (result, db', calls) = store m.db sys u uid p.rows p.local_groups in
          some (record {
            result = result;
            manager = record m {
              db = db';
              temporary_records = clean_up p.records p.gids uid registered;
            };
            calls = calls;
          })
    ]

-- UpdateUser. `none`: a registration loop still runs.
unfoldable pub update_user : Manager → System → UserInfo → Option Outcome
update_user m sys u =
    if u.name == ""
    then some (record { result = err empty_username; manager = m; calls = [] })
    else elim (resolve_uid m sys u.name) [
      | none ↦ none
      | some (err e, records) ↦ some (record {
        result = err e;
        manager = record m { temporary_records = records };
        calls = [];
      })
      | some (ok (uid, registered), records) ↦ update_with m sys u uid registered records
    ]

unfoldable pub update_broker : Manager → String → String → Result (Unit {0}) × Manager
update_broker m username broker_id =
    let (result, db') = update_broker_for_user m.db username broker_id in
    (result, record m { db = db' })

unfoldable pub register_user_pre_auth :
    Manager → String → List UserAttempt → Option (Result ℕ × Manager)
register_user_pre_auth m name attempts =
    elim (register_pre_auth_user m.temporary_records name attempts) [
      | none ↦ none
      | some (result, records) ↦ some (result, record m { temporary_records = records })
    ]
