-- ===== src/Db/Memberships.antt =====
-- internal/users/db/usergroups.go and userlocalgroups.go: who is a member of what.
use authd.Prelude.{
  ℕ, String, Bool, not, ◌&&◌, Option, none, some, List, [], ◌∷◌, ◌++◌, ◌==◌, nat_eq, string_eq, any,
  find, select, if◌then◌else◌,
}
use authd.Errors.{Result, ok, err, no_data_found, constraint_error, ◌>>◌, fail_if}
use authd.Db.Tables.{
  UserRow, GroupRow, UserToGroupRow, UserToLocalGroupRow, Conn, run, with_users_to_groups,
  with_users_to_local_groups, select_user_groups, select_group_members, delete_membership,
  delete_memberships, insert_membership, select_local_groups, insert_local_membership,
  delete_local_memberships,
}

abbrev pub of_user : ℕ → UserToGroupRow → Bool
of_user uid m = m.uid == uid

abbrev pub is_pair : ℕ → ℕ → UserToGroupRow → Bool
is_pair uid gid m = m.uid == uid && m.gid == gid

abbrev pub local_of_user : ℕ → UserToLocalGroupRow → Bool
local_of_user uid m = m.uid == uid

abbrev pub is_local_pair : ℕ → String → UserToLocalGroupRow → Bool
is_local_pair uid name m = m.uid == uid && m.group_name == name

abbrev cons_found {ℓ} : {A : Type ℓ} → Option A → List A → List A
cons_found none xs = xs
cons_found (some x) xs = x ∷ xs

-- The rows that `users_to_groups ug JOIN groups g ON ug.gid = g.gid WHERE ug.uid = ?` selects; how they
-- stand here means nothing.
unfoldable pub joined_groups : List GroupRow → ℕ → List UserToGroupRow → List GroupRow
joined_groups gs uid [] = []
joined_groups gs uid (m ∷ ms) =
    let rest = joined_groups gs uid ms in
    if of_user uid m then cons_found (find (λ g. g.gid == m.gid) gs) rest else rest

-- the groups of a user as the query gives them
unfoldable pub join_groups : Conn → ℕ → List GroupRow
join_groups c uid = c.group_order.arrange (joined_groups c.groups uid c.users_to_groups)

-- the rows of `users_to_groups ug JOIN users u ON ug.uid = u.uid WHERE ug.gid = ?`
unfoldable pub joined_members : List UserRow → ℕ → List UserToGroupRow → List String
joined_members us gid [] = []
joined_members us gid (m ∷ ms) =
    let rest = joined_members us gid ms in
    if m.gid == gid
    then elim (find (λ u. u.uid == m.uid) us) [ none ↦ rest | some u ↦ u.name ∷ rest ]
    else rest

unfoldable pub join_members : Conn → ℕ → List String
join_members c gid = c.name_order.arrange (joined_members c.users gid c.users_to_groups)

abbrev non_empty {ℓ} : {A : Type ℓ} → List A → Result (List A)
non_empty [] = err no_data_found
non_empty (x ∷ xs) = ok (x ∷ xs)

unfoldable pub user_groups : Conn → ℕ → Result (List GroupRow)
unfolding join_groups
user_groups c uid = do run c select_user_groups; non_empty (join_groups c uid)

unfoldable pub get_group_members : Conn → ℕ → Result (List String)
unfolding join_members
get_group_members c gid = do run c select_group_members; ok (join_members c gid)

unfoldable pub remove_user_from_group : Conn → ℕ → ℕ → Result Conn
remove_user_from_group c uid gid = do
  run c delete_membership
  ok (with_users_to_groups c (select (λ m. not (is_pair uid gid m)) c.users_to_groups))

unfoldable pub remove_user_from_all_groups : Conn → ℕ → Result Conn
remove_user_from_all_groups c uid = do
  run c delete_memberships
  fail_if (not (any (of_user uid) c.users_to_groups)) no_data_found
  ok (with_users_to_groups c (select (λ m. not (of_user uid m)) c.users_to_groups))

-- The foreign keys ask for the user and the group, the primary key for a pair that is not there.
unfoldable pub add_user_to_group : Conn → ℕ → ℕ → Result Conn
add_user_to_group c uid gid = do
  run c insert_membership
  fail_if (not (any (λ u. u.uid == uid) c.users)) constraint_error
  fail_if (not (any (λ g. g.gid == gid) c.groups)) constraint_error
  fail_if (any (is_pair uid gid) c.users_to_groups) constraint_error
  ok (with_users_to_groups c (c.users_to_groups ++ record { uid = uid; gid = gid } ∷ []))

-- the rows of `users_to_local_groups WHERE uid = ?`
abbrev pub selected_names : ℕ → List UserToLocalGroupRow → List String
selected_names uid [] = []
selected_names uid (m ∷ ms) =
    let rest = selected_names uid ms in if local_of_user uid m then m.group_name ∷ rest else rest

abbrev pub local_names : Conn → ℕ → List String
local_names c uid = c.name_order.arrange (selected_names uid c.users_to_local_groups)

-- Unlike `user_groups`, no row is no error.
unfoldable pub user_local_groups : Conn → ℕ → Result (List String)
user_local_groups c uid = do run c select_local_groups; ok (local_names c uid)

unfoldable pub add_user_to_local_group : Conn → ℕ → String → Result Conn
add_user_to_local_group c uid name = do
  run c insert_local_membership
  fail_if (not (any (λ u. u.uid == uid) c.users)) constraint_error
  fail_if (any (is_local_pair uid name) c.users_to_local_groups) constraint_error
  ok (
      with_users_to_local_groups c
        (c.users_to_local_groups ++ record { uid = uid; group_name = name } ∷ []))

unfoldable pub remove_user_from_all_local_groups : Conn → ℕ → Result Conn
remove_user_from_all_local_groups c uid = do
  run c delete_local_memberships
  ok (
      with_users_to_local_groups c
        (select (λ m. not (local_of_user uid m)) c.users_to_local_groups))
