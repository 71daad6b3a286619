-- ===== src/Db/Effects/Memberships.antt =====
-- The statements of internal/users/db/usergroups.go and userlocalgroups.go.
use authd.Prelude.{
  ℕ, String, ◌≡◌, true, false, not, [], ◌∷◌, ◌++◌, arith, any, select, select-not_absent,
}
use authd.Errors.{ok, or_default}
use authd.Db.Tables.{Conn, with_users_to_groups, with_users_to_local_groups}
use authd.Db.Users.{has_uid}
use authd.Db.Groups.{has_gid}
use authd.Db.Memberships.{
  of_user, local_of_user, is_pair, is_local_pair, add_user_to_group, remove_user_from_all_groups,
  add_user_to_local_group, remove_user_from_all_local_groups, remove_user_from_group,
}

pub add_user_to_group_effect :
    (c : Conn) (uid gid : ℕ) (c' : Conn)
    → add_user_to_group c uid gid ≡ ok c'
    → (any (has_uid uid) c.users ≡ true)
      × (any (has_gid gid) c.groups ≡ true)
      × (any (is_pair uid gid) c.users_to_groups ≡ false)
      × (with_users_to_groups c (c.users_to_groups ++ record { uid = uid; gid = gid } ∷ []) ≡ c')
unfolding add_user_to_group
add_user_to_group_effect c uid gid c' h = ground arith

pub remove_user_from_group_effect :
    (c : Conn) (uid gid : ℕ) (c' : Conn)
    → remove_user_from_group c uid gid ≡ ok c'
    → with_users_to_groups c (select (λ m. not (is_pair uid gid m)) c.users_to_groups) ≡ c'
unfolding remove_user_from_group
remove_user_from_group_effect c uid gid c' h = ground arith

pub remove_user_from_all_groups_effect :
    (c : Conn) (uid : ℕ) (c' : Conn)
    → or_default c (remove_user_from_all_groups c uid) ≡ ok c'
    → with_users_to_groups c (select (λ m. not (of_user uid m)) c.users_to_groups) ≡ c'
unfolding remove_user_from_all_groups
remove_user_from_all_groups_effect c uid c' h =
    ground (arith, select-not_absent (of_user uid) c.users_to_groups)

pub add_user_to_local_group_effect :
    (c : Conn) (uid : ℕ) (name : String) (c' : Conn)
    → add_user_to_local_group c uid name ≡ ok c'
    → (any (has_uid uid) c.users ≡ true)
      × (any (is_local_pair uid name) c.users_to_local_groups ≡ false)
      × (with_users_to_local_groups c
            (c.users_to_local_groups ++ record { uid = uid; group_name = name } ∷ [])
          ≡ c')
unfolding add_user_to_local_group
add_user_to_local_group_effect c uid name c' h = ground arith

pub remove_user_from_all_local_groups_effect :
    (c : Conn) (uid : ℕ) (c' : Conn)
    → remove_user_from_all_local_groups c uid ≡ ok c'
    → with_users_to_local_groups c (select (λ m. not (local_of_user uid m)) c.users_to_local_groups)
      ≡ c'
unfolding remove_user_from_all_local_groups
remove_user_from_all_local_groups_effect c uid c' h = ground arith
