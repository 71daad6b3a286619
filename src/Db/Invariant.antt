-- ===== src/Db/Invariant.antt =====
-- What the keys and foreign keys of sql/create_schema.sql promise of the tables.
use authd.Prelude.{
  ℕ, ◌≡◌, Bool, true, ◌&&◌, List, ◌==◌, nat_eq, string_eq, any, All, Unique, UniqueBy,
}
use authd.Db.Tables.{UserRow, GroupRow, UserToGroupRow, UserToLocalGroupRow, Tables, Conn}
use authd.Db.Users.{has_uid}
use authd.Db.Groups.{has_gid}

abbrev pub same_membership : UserToGroupRow → UserToGroupRow → Bool
same_membership m n = m.uid == n.uid && m.gid == n.gid

abbrev pub same_local_membership : UserToLocalGroupRow → UserToLocalGroupRow → Bool
same_local_membership m n = m.uid == n.uid && m.group_name == n.group_name

abbrev pub UserExists : List UserRow → ℕ → Type 0
UserExists us uid = any (has_uid uid) us ≡ true

abbrev pub GroupExists : List GroupRow → ℕ → Type 0
GroupExists gs gid = any (has_gid gid) gs ≡ true

-- UIDs, user names, GIDs, group names and UGIDs stand once, as do the memberships, and each
-- membership is that of a user in the tables, in a group of the tables.
pub record IsWellFormed (t : Tables) : Type 0 where
  pub uids : UniqueBy (λ (u : UserRow). u.uid) t.users
  pub names : UniqueBy (λ (u : UserRow). u.name) t.users
  pub gids : UniqueBy (λ (g : GroupRow). g.gid) t.groups
  pub group_names : UniqueBy (λ (g : GroupRow). g.name) t.groups
  pub ugids : UniqueBy (λ (g : GroupRow). g.ugid) t.groups
  pub memberships : Unique same_membership t.users_to_groups
  pub local_memberships : Unique same_local_membership t.users_to_local_groups
  pub members_exist : All (λ (m : UserToGroupRow). UserExists t.users m.uid) t.users_to_groups
  pub groups_exist : All (λ (m : UserToGroupRow). GroupExists t.groups m.gid) t.users_to_groups
  pub local_members_exist :
      All (λ (m : UserToLocalGroupRow). UserExists t.users m.uid) t.users_to_local_groups

abbrev pub Good : Conn → Type 0
Good c = IsWellFormed c.tables
