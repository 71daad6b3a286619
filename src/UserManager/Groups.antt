-- ===== src/UserManager/Groups.antt =====
-- The groups of UpdateUser in internal/users/manager.go: which go to the database, under which GID.
use authd.Prelude.{
  ℕ, String, not, Option, none, some, List, [], ◌∷◌, ◌++◌, ◌==◌, nat_eq, string_eq, if◌then◌else◌,
}
use authd.Errors.{
  Result, ok, err, is_no_data, fail_if, empty_group_name, exists_on_system, group_name_conflict,
}
use authd.Types.{GroupInfo}
use authd.Db.Tables.{Conn, GroupRow, new_group_row}
use authd.Db.Groups.{group_by_name, group_by_ugid}
use authd.TempEntries.Records.{TemporaryRecords, register_group}
use authd.UserManager.State.{System, is_unknown}

unfoldable pub check_group_name_conflict : Conn → System → String → String → Result (Unit {0})
check_group_name_conflict db sys name ugid = elim (group_by_name db name) [
  | err e ↦
      if is_no_data e
      then fail_if (not (is_unknown (sys.lookup_group name))) exists_on_system
      else err e
  | ok existing ↦
      if existing.ugid == ""
      then ok tt
      else fail_if (not (existing.ugid == ugid)) group_name_conflict
]

-- by UGID first, so that a group can be renamed
unfoldable pub find_group : Conn → GroupInfo → Result GroupRow
find_group db group = elim (group_by_ugid db group.ugid) [
  | ok old ↦ ok old
  | err e ↦ if is_no_data e then group_by_name db group.name else err e
]

-- The loop over the groups: the temporary records, the GIDs registered for it (the last one first), and
-- the rows and local groups collected so far.
pub record Progress : Type 0 where
  pub records : TemporaryRecords
  pub gids : List ℕ
  pub rows : List GroupRow
  pub local_groups : List String

abbrev pub add_row : Progress → GroupInfo → ℕ → Progress
add_row p g gid = record p { rows = p.rows ++ new_group_row g.name gid g.ugid ∷ [] }

-- a group of the database, or a new GID that is registered for it
unfoldable pub assign_gid :
    Conn → System → GroupInfo → Progress → Option (Result (Unit {0}) × Progress)
assign_gid db sys g p = elim (find_group db g) [
  | ok old ↦ some (ok tt, add_row p g old.gid)
  | err e ↦
      if not (is_no_data e)
      then some (err e, p)
      else elim (register_group p.records g.name (sys.group_attempts g.name)) [
        | none ↦ none
        | some (err e', records) ↦ some (err e', record p { records = records })
        | some (ok gid, records) ↦
            some (ok tt, add_row (record p { records = records; gids = gid ∷ p.gids }) g gid)
      ]
]

unfoldable pub prepare_group :
    Conn → System → GroupInfo → Progress → Option (Result (Unit {0}) × Progress)
prepare_group db sys g p =
    if g.name == ""
    then some (err empty_group_name, p)
    else if g.ugid == ""
    then some (ok tt, record p { local_groups = p.local_groups ++ g.name ∷ [] })
    else elim (check_group_name_conflict db sys g.name g.ugid) [
      | err e ↦ some (err e, p)
      | ok _ ↦ assign_gid db sys g p
    ]

unfoldable pub prepare_groups :
    Conn → System → List GroupInfo → Progress → Option (Result (Unit {0}) × Progress)
prepare_groups db sys [] p = some (ok tt, p)
prepare_groups db sys (g ∷ gs) p = elim (prepare_group db sys g p) [
  | none ↦ none
  | some (err e, p') ↦ some (err e, p')
  | some (ok _, p') ↦ prepare_groups db sys gs p'
]

abbrev pub private_group_info : String → GroupInfo
private_group_info name = record { name = name; gid = none; ugid = name }

abbrev pub start : TemporaryRecords → Progress
start records = record { records = records; gids = []; rows = []; local_groups = [] }
