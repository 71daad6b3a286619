-- ===== src/Db/WellFormed/Memberships.antt =====
-- The statements of internal/users/db/usergroups.go and userlocalgroups.go and the invariant of the tables.
use authd.Prelude.{
  ℕ, String, ◌≡◌, Bool, false, not, arith, nat_eq, string_eq, select, subst, All-append_one,
  All-select, Unique-append_one, Unique-select, eq_iff,
}
use authd.Errors.{ok, or_default}
use authd.Db.Tables.{UserToGroupRow, UserToLocalGroupRow, Conn, with_users_to_groups}
use authd.Db.Memberships.{
  of_user, local_of_user, is_pair, add_user_to_group, remove_user_from_all_groups,
  add_user_to_local_group, remove_user_from_all_local_groups, remove_user_from_group,
}
use authd.Db.Effects.Memberships.{
  add_user_to_group_effect, remove_user_from_group_effect, remove_user_from_all_groups_effect,
  add_user_to_local_group_effect, remove_user_from_all_local_groups_effect,
}
use authd.Db.Invariant.{Good, same_membership, same_local_membership}

same_membership_symm :
    (m n : UserToGroupRow) → same_membership n m ≡ false → same_membership m n ≡ false
same_membership_symm m n h = ground arith

same_local_membership_symm :
    (m n : UserToLocalGroupRow)
    → same_local_membership n m ≡ false
    → same_local_membership m n ≡ false
same_local_membership_symm m n h =
    ground (arith, eq_iff m.group_name n.group_name, eq_iff n.group_name m.group_name)

pub add_user_to_group-IsWellFormed :
    (c : Conn) (uid gid : ℕ) (c' : Conn) → add_user_to_group c uid gid ≡ ok c' → Good c → Good c'
add_user_to_group-IsWellFormed c uid gid c' h w =
    let (user, group, fresh, e) = add_user_to_group_effect c uid gid c' h in
    let row : UserToGroupRow = record { uid = uid; gid = gid } in
    subst Good e (record {
      uids = w.uids;
      names = w.names;
      gids = w.gids;
      group_names = w.group_names;
      ugids = w.ugids;
      memberships =
          Unique-append_one same_membership row c.users_to_groups (λ m. same_membership_symm row m)
            w.memberships fresh;
      local_memberships = w.local_memberships;
      members_exist = All-append_one _ row c.users_to_groups w.members_exist user;
      groups_exist = All-append_one _ row c.users_to_groups w.groups_exist group;
      local_members_exist = w.local_members_exist;
    })

-- Fewer memberships than in well-formed tables are well-formed.
selected-IsWellFormed :
    (c : Conn) (keep : UserToGroupRow → Bool)
    → Good c
    → Good (with_users_to_groups c (select keep c.users_to_groups))
selected-IsWellFormed c keep w = record {
  uids = w.uids;
  names = w.names;
  gids = w.gids;
  group_names = w.group_names;
  ugids = w.ugids;
  memberships = Unique-select same_membership keep c.users_to_groups w.memberships;
  local_memberships = w.local_memberships;
  members_exist = All-select _ keep c.users_to_groups w.members_exist;
  groups_exist = All-select _ keep c.users_to_groups w.groups_exist;
  local_members_exist = w.local_members_exist;
}

pub remove_user_from_group-IsWellFormed :
    (c : Conn) (uid gid : ℕ) (c' : Conn)
    → remove_user_from_group c uid gid ≡ ok c'
    → Good c
    → Good c'
remove_user_from_group-IsWellFormed c uid gid c' h w =
    subst Good (remove_user_from_group_effect c uid gid c' h)
      (selected-IsWellFormed c (λ m. not (is_pair uid gid m)) w)

pub remove_user_from_all_groups-IsWellFormed :
    (c : Conn) (uid : ℕ) (c' : Conn)
    → or_default c (remove_user_from_all_groups c uid) ≡ ok c'
    → Good c
    → Good c'
remove_user_from_all_groups-IsWellFormed c uid c' h w =
    subst Good (remove_user_from_all_groups_effect c uid c' h)
      (selected-IsWellFormed c (λ m. not (of_user uid m)) w)

pub add_user_to_local_group-IsWellFormed :
    (c : Conn) (uid : ℕ) (name : String) (c' : Conn)
    → add_user_to_local_group c uid name ≡ ok c'
    → Good c
    → Good c'
add_user_to_local_group-IsWellFormed c uid name c' h w =
    let (user, fresh, e) = add_user_to_local_group_effect c uid name c' h in
    let row : UserToLocalGroupRow = record { uid = uid; group_name = name } in
    subst Good e (record {
      uids = w.uids;
      names = w.names;
      gids = w.gids;
      group_names = w.group_names;
      ugids = w.ugids;
      memberships = w.memberships;
      local_memberships =
          Unique-append_one same_local_membership row c.users_to_local_groups
            (λ m. same_local_membership_symm row m) w.local_memberships fresh;
      members_exist = w.members_exist;
      groups_exist = w.groups_exist;
      local_members_exist = All-append_one _ row c.users_to_local_groups w.local_members_exist user;
    })

pub remove_user_from_all_local_groups-IsWellFormed :
    (c : Conn) (uid : ℕ) (c' : Conn)
    → remove_user_from_all_local_groups c uid ≡ ok c'
    → Good c
    → Good c'
remove_user_from_all_local_groups-IsWellFormed c uid c' h w =
    let keep = λ (m : UserToLocalGroupRow). not (local_of_user uid m) in
    subst Good (remove_user_from_all_local_groups_effect c uid c' h) (record {
      uids = w.uids;
      names = w.names;
      gids = w.gids;
      group_names = w.group_names;
      ugids = w.ugids;
      memberships = w.memberships;
      local_memberships =
          Unique-select same_local_membership keep c.users_to_local_groups w.local_memberships;
      members_exist = w.members_exist;
      groups_exist = w.groups_exist;
      local_members_exist = All-select _ keep c.users_to_local_groups w.local_members_exist;
    })
