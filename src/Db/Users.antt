-- ===== src/Db/Users.antt =====
-- internal/users/db/users.go, and UpdateBrokerForUser of update.go.
use authd.Prelude.{
  ℕ, String, Bool, true, false, not, ◌&&◌, ◌||◌, Option, none, some, List, [], ◌∷◌, ◌++◌, ◌==◌,
  nat_eq, string_eq, any, find, select, replace, if◌then◌else◌,
}
use authd.Errors.{
  Result, ok, err, no_data_found, query_error, constraint_error, ◌>>=◌, ◌>>◌, fail_if,
}
use authd.Db.Tables.{
  UserRow, Conn, run, with_users, select_user_by_id, select_user_by_name, select_users,
  select_user_exists, insert_user_stmt, update_user_stmt, delete_user_stmt, update_broker_stmt,
}

abbrev pub has_uid : ℕ → UserRow → Bool
has_uid k u = u.uid == k

abbrev pub has_name : String → UserRow → Bool
has_name n u = u.name == n

-- `sql.ErrNoRows` becomes NoDataFoundError.
abbrev pub scan_row {ℓ} : {A : Type ℓ} → Option A → Result A
scan_row none = err no_data_found
scan_row (some a) = ok a

unfoldable pub user_by_id : Conn → ℕ → Result UserRow
user_by_id c uid = do run c select_user_by_id; scan_row (find (has_uid uid) c.users)

unfoldable pub user_by_name : Conn → String → Result UserRow
user_by_name c name = do run c select_user_by_name; scan_row (find (has_name name) c.users)

unfoldable pub all_users : Conn → Result (List UserRow)
all_users c = do run c select_users; ok (c.user_order.arrange c.users)

unfoldable pub user_exists : Conn → UserRow → Result Bool
user_exists c u = do
  run c select_user_exists
  ok (any (λ r. has_name u.name r || has_uid u.uid r) c.users)

-- The primary key and the index on the name refuse a second row.
unfoldable pub insert_user : Conn → UserRow → Result Conn
insert_user c u = do
  run c insert_user_stmt
  fail_if (any (has_uid u.uid) c.users) constraint_error
  fail_if (any (has_name u.name) c.users) constraint_error
  ok (with_users c (c.users ++ u ∷ []))

-- another row than that of `u` has its name
abbrev pub name_taken : UserRow → UserRow → Bool
name_taken u r = has_name u.name r && not (has_uid u.uid r)

-- `UPDATE … WHERE uid = ?` changes no row where the UID is not there.
unfoldable pub update_user_by_id : Conn → UserRow → Result Conn
update_user_by_id c u = do
  run c update_user_stmt
  fail_if (any (has_uid u.uid) c.users && any (name_taken u) c.users) constraint_error
  ok (with_users c (replace (has_uid u.uid) u c.users))

unfoldable pub insert_or_update_user_by_id : Conn → UserRow → Result Conn
insert_or_update_user_by_id c u = do
  exists ← user_exists c u
  if exists then update_user_by_id c u else insert_user c u

-- The memberships go with the user (ON DELETE CASCADE).
unfoldable pub delete_user : Conn → ℕ → Result (Unit {0}) × Conn
delete_user c uid = elim (c.fails delete_user_stmt c.tables) [
  | true ↦ (err query_error, c)
  | false ↦ (
    fail_if (not (any (has_uid uid) c.users)) no_data_found,
    record c {
      tables = record {
        users = select (λ u. not (has_uid uid u)) c.users;
        groups = c.groups;
        users_to_groups = select (λ m. not (m.uid == uid)) c.users_to_groups;
        users_to_local_groups = select (λ m. not (m.uid == uid)) c.users_to_local_groups;
      };
    },
  )
]

-- `UPDATE users SET broker_id = ? WHERE name = ?`
abbrev pub set_broker : String → String → List UserRow → List UserRow
set_broker name broker_id [] = []
set_broker name broker_id (u ∷ us) =
    (if has_name name u then record u { broker_id = broker_id } else u)
    ∷ set_broker name broker_id us

unfoldable pub update_broker_for_user : Conn → String → String → Result (Unit {0}) × Conn
update_broker_for_user c username broker_id = elim (c.fails update_broker_stmt c.tables) [
  | true ↦ (err query_error, c)
  | false ↦ (
    fail_if (not (any (has_name username) c.users)) no_data_found,
    with_users c (set_broker username broker_id c.users),
  )
]
