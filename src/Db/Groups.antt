-- ===== src/Db/Groups.antt =====
-- internal/users/db/groups.go. A UGID is compared as the text that it is: texts that SQLite's INT
-- affinity would turn into numbers are not told apart here from other texts.
use authd.Prelude.{
  ℕ, String, Bool, not, ◌&&◌, ◌||◌, List, [], ◌∷◌, ◌++◌, ◌==◌, nat_eq, string_eq, any, find,
  replace, if◌then◌else◌,
}
use authd.Errors.{Result, ok, constraint_error, ◌>>=◌, ◌>>◌, fail_if}
use authd.Db.Tables.{
  GroupRow, GroupWithMembers, Conn, run, with_groups, in_transaction, select_group_by_id,
  select_group_by_name, select_group_by_ugid, select_groups, select_group_exists, insert_group_stmt,
  update_group_stmt,
}
use authd.Db.Users.{scan_row}
use authd.Db.Memberships.{get_group_members}

abbrev pub has_gid : ℕ → GroupRow → Bool
has_gid k g = g.gid == k

abbrev pub has_group_name : String → GroupRow → Bool
has_group_name n g = g.name == n

abbrev pub has_ugid : String → GroupRow → Bool
has_ugid k g = g.ugid == k

unfoldable pub group_by_id : Conn → ℕ → Result GroupRow
group_by_id c gid = do run c select_group_by_id; scan_row (find (has_gid gid) c.groups)

unfoldable pub group_by_name : Conn → String → Result GroupRow
group_by_name c name = do run c select_group_by_name; scan_row (find (has_group_name name) c.groups)

unfoldable pub group_by_ugid : Conn → String → Result GroupRow
group_by_ugid c ugid = do run c select_group_by_ugid; scan_row (find (has_ugid ugid) c.groups)

-- The read of a group and of its members in one transaction.
unfoldable pub group_with_members_by_id : Conn → ℕ → Result GroupWithMembers × Conn
group_with_members_by_id c gid = in_transaction c λ tx. do
  group ← group_by_id tx gid
  users ← get_group_members tx gid
  ok (record { group = group; users = users }, tx)

unfoldable pub group_with_members_by_name : Conn → String → Result GroupWithMembers × Conn
group_with_members_by_name c name = in_transaction c λ tx. do
  group ← group_by_name tx name
  users ← get_group_members tx group.gid
  ok (record { group = group; users = users }, tx)

unfoldable pub all_groups : Conn → Result (List GroupRow)
all_groups c = do run c select_groups; ok (c.group_order.arrange c.groups)

-- the loop of AllGroupsWithMembers
unfoldable pub with_members : Conn → List GroupRow → Result (List GroupWithMembers)
with_members tx [] = ok []
with_members tx (g ∷ gs) = do
  users ← get_group_members tx g.gid
  rest ← with_members tx gs
  ok (record { group = g; users = users } ∷ rest)

unfoldable pub all_groups_with_members : Conn → Result (List GroupWithMembers) × Conn
all_groups_with_members c =
    in_transaction c λ tx. do groups ← all_groups tx; res ← with_members tx groups; ok (res, tx)

unfoldable pub group_exists : Conn → GroupRow → Result Bool
group_exists c g = do
  run c select_group_exists
  ok (any (λ r. has_group_name g.name r || has_gid g.gid r || has_ugid g.ugid r) c.groups)

-- The primary key and the indices on the name and on the UGID refuse a second row.
unfoldable pub insert_group : Conn → GroupRow → Result Conn
insert_group c g = do
  run c insert_group_stmt
  fail_if (any (has_gid g.gid) c.groups) constraint_error
  fail_if (any (has_group_name g.name) c.groups) constraint_error
  fail_if (any (has_ugid g.ugid) c.groups) constraint_error
  ok (with_groups c (c.groups ++ g ∷ []))

abbrev pub group_name_taken : GroupRow → GroupRow → Bool
group_name_taken g r = has_group_name g.name r && not (has_gid g.gid r)

abbrev pub ugid_taken : GroupRow → GroupRow → Bool
ugid_taken g r = has_ugid g.ugid r && not (has_gid g.gid r)

-- `UPDATE … WHERE gid = ?` changes no row where the GID is not there.
unfoldable pub update_group_by_id : Conn → GroupRow → Result Conn
update_group_by_id c g = do
  run c update_group_stmt
  fail_if (any (has_gid g.gid) c.groups && any (group_name_taken g) c.groups) constraint_error
  fail_if (any (has_gid g.gid) c.groups && any (ugid_taken g) c.groups) constraint_error
  ok (with_groups c (replace (has_gid g.gid) g c.groups))

unfoldable pub insert_or_update_group_by_id : Conn → GroupRow → Result Conn
insert_or_update_group_by_id c g = do
  exists ← group_exists c g
  if exists then update_group_by_id c g else insert_group c g
