-- ===== src/UserManager/Storing.antt =====
-- The writes of UpdateUser in internal/users/manager.go, and the check of the home directory.
use authd.Prelude.{
  ℕ, String, not, ◌&&◌, List, [], ◌∷◌, ◌++◌, ◌==◌, nat_eq, string_eq, if◌then◌else◌,
}
use authd.Errors.{Result, ok, err, ◌>>=◌, index_out_of_range, stat_error}
use authd.Types.{UserInfo}
use authd.Db.Tables.{Conn, UserRow, GroupRow, new_user_row}
use authd.Db.Memberships.{user_local_groups}
use authd.Db.Update.{update_user_entry}
use authd.LocalEntries.Groups
use authd.LocalEntries.Groups.{Op, Exit}
use authd.UserManager.State.{Stat, System, failed, missing, no_stat, owned}

pub data Warning : Type 0 where
  not_owner uid_differs gid_differs : Warning

-- The warnings that checkHomeDirOwnership logs.
unfoldable pub check_home_dir_ownership : Stat → ℕ → ℕ → Result (List Warning)
check_home_dir_ownership missing uid gid = ok []
check_home_dir_ownership failed uid gid = err stat_error
check_home_dir_ownership no_stat uid gid = err stat_error
check_home_dir_ownership (owned old_uid old_gid) uid gid =
    if not (old_uid == uid) && not (old_gid == gid)
    then ok (not_owner ∷ [])
    else ok (
        (if not (old_uid == uid) then uid_differs ∷ [] else [])
        ++ (if not (old_gid == gid) then gid_differs ∷ [] else []))

abbrev pub done : Result (List Warning) → Result (Unit {0})
done (ok _) = ok tt
done (err e) = err e

-- after the database: the local groups, then the home directory
unfoldable pub after_database :
    System → String → UserRow → List String → List String → Result (Unit {0}) × List Op
after_database sys name row local_groups old_local_groups =
    let (result, calls) =
      Groups.update sys.gpasswd sys.group_file name local_groups old_local_groups in
    elim result [
      | err e ↦ (err e, calls)
      | ok _ ↦ (done (check_home_dir_ownership (sys.stat row.dir) row.uid row.gid), calls)
    ]

abbrev pub first_row : List GroupRow → Result GroupRow
first_row [] = err index_out_of_range
first_row (g ∷ gs) = ok g

abbrev pub row_for : UserInfo → ℕ → GroupRow → UserRow
row_for u uid private_group = new_user_row u.name uid private_group.gid u.gecos u.dir u.shell

-- the local groups of before, and the private group
abbrev pub old_groups : Conn → ℕ → List GroupRow → Result (List String × GroupRow)
old_groups db uid rows = do old ← user_local_groups db uid; g ← first_row rows; ok (old, g)

-- The writes of UpdateUser, with the UID and the groups at hand.
unfoldable pub store :
    Conn → System → UserInfo → ℕ → List GroupRow → List String → Result (Unit {0}) × Conn × List Op
store db sys u uid rows local_groups = elim (old_groups db uid rows) [
  | err e ↦ (err e, db, [])
  | ok (old_local_groups, private_group) ↦
      let row = row_for u uid private_group in
      let (stored, db') = update_user_entry db row rows local_groups in
      elim stored [
        | err e ↦ (err e, db', [])
        | ok _ ↦
            let (result, calls) = after_database sys u.name row local_groups old_local_groups in
            (result, db', calls)
      ]
]
