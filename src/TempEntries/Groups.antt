-- ===== src/TempEntries/Groups.antt =====
-- internal/users/tempentries/groups.go.
use Prim.Native.String.{◌++◌}
use authd.Prelude.{
  ℕ, String, Bool, true, false, not, ◌&&◌, Option, none, some, List, [], ◌∷◌, ◌==◌, nat_eq,
  string_eq, if◌then◌else◌, Dict, lookup, insert, erase,
}
use authd.Errors.{Result, ok, err, no_data_found, already_exists, random_error, is_no_data, ◌>>=◌}
use authd.LocalEntries.Entries.{Group}
use authd.Types.{GroupEntry}
use authd.TempEntries.Attempts.{GroupAttempt}

pub record GroupRecord : Type 0 where
  pub name : String
  pub gid : ℕ
  pub passwd : String

pub record TemporaryGroupRecords : Type 0 where
  pub groups : Dict ℕ GroupRecord
  pub gid_by_name : Dict String ℕ

abbrev pub new_temporary_group_records : TemporaryGroupRecords
new_temporary_group_records = record { groups = []; gid_by_name = [] }

unfoldable pub group_entry : GroupRecord → GroupEntry
group_entry g = record { name = g.name; gid = g.gid; users = []; passwd = g.passwd }

unfoldable pub group_by_id : TemporaryGroupRecords → ℕ → Result GroupEntry
unfolding group_entry
group_by_id r gid = elim (lookup gid r.groups) [
  | none ↦ err no_data_found
  | some g ↦ ok (group_entry g)
]

unfoldable pub group_by_name : TemporaryGroupRecords → String → Result GroupEntry
group_by_name r name = elim (lookup name r.gid_by_name) [
  | none ↦ err no_data_found
  | some gid ↦ group_by_id r gid
]

-- the loop of uniqueNameAndGID
unfoldable pub unique_among : List Group → String → ℕ → String → Result Bool
unique_among [] name gid tmp_id = ok true
unique_among (entry ∷ entries) name gid tmp_id =
    let rest = unique_among entries name gid tmp_id in
    if entry.name == name && not (entry.passwd == tmp_id)
    then err already_exists
    else if entry.gid == gid && not (entry.passwd == tmp_id)
    then ok false
    else rest

unfoldable pub unique_name_and_gid : Result (List Group) → String → ℕ → String → Result Bool
unique_name_and_gid listed name gid tmp_id = do
  entries ← listed
  unique_among entries name gid tmp_id

unfoldable pub add_temporary_group :
    TemporaryGroupRecords → ℕ → String → Result String → Result (String × TemporaryGroupRecords)
add_temporary_group r gid name (err e) = err random_error
add_temporary_group r gid name (ok bytes) =
    let tmp_id = "authd-temp-group-" ++ bytes in
    ok (
      tmp_id,
      record {
        groups = insert gid (record { name = name; gid = gid; passwd = tmp_id }) r.groups;
        gid_by_name = insert name gid r.gid_by_name;
      },
    )

unfoldable pub delete_temporary_group : TemporaryGroupRecords → ℕ → TemporaryGroupRecords
delete_temporary_group r gid = elim (lookup gid r.groups) [
  | none ↦ r
  | some g ↦ record { groups = erase gid r.groups; gid_by_name = erase g.name r.gid_by_name }
]

-- The loop of RegisterGroup. `none`: the script has run out and it still runs.
unfoldable pub register_unique :
    TemporaryGroupRecords → String → List GroupAttempt → Option (Result ℕ × TemporaryGroupRecords)
register_unique r name [] = none
register_unique r name (a ∷ rest) = elim a.generated [
  | err e ↦ some (err e, r)
  | ok gid ↦ elim (add_temporary_group r gid name a.random) [
    | err e ↦ some (err e, r)
    | ok (tmp_id, added) ↦ elim (unique_name_and_gid a.entries name gid tmp_id) [
      | err e ↦ some (err e, delete_temporary_group added gid)
      | ok true ↦ some (ok gid, added)
      | ok false ↦ register_unique (delete_temporary_group added gid) name rest
    ]
  ]
]

unfoldable pub register_group :
    TemporaryGroupRecords → String → List GroupAttempt → Option (Result ℕ × TemporaryGroupRecords)
register_group r name attempts = elim (group_by_name r name) [
  | ok g ↦ some (err already_exists, r)
  | err e ↦ if is_no_data e then register_unique r name attempts else some (err e, r)
]
