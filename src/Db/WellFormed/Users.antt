-- ===== src/Db/WellFormed/Users.antt =====
-- The statements of internal/users/db/users.go and the invariant of the tables.
use authd.Prelude.{
  ℕ, String, ◌≡◌, false, inl, inr, [], ◌∷◌, ◌++◌, nat_eq, string_eq, any, replace, subst, sym,
  All-imp, UniqueBy-append_one, UniqueBy-replace, any_key-append, any_key-replace, any-never,
  replace_absent,
}
use authd.Errors.{ok}
use authd.Db.Tables.{UserRow, Conn, with_users}
use authd.Db.Users.{
  has_uid, has_name, name_taken, insert_user, update_user_by_id, insert_or_update_user_by_id,
}
use authd.Db.Effects.Users.{insert_user_effect, update_user_effect, upsert_user_effect}
use authd.Db.Invariant.{Good}

abbrev uid_of : UserRow → ℕ
uid_of u = u.uid

abbrev name_of : UserRow → String
name_of u = u.name

added-IsWellFormed :
    (c : Conn) (u : UserRow)
    → any (has_uid u.uid) c.users ≡ false
    → any (has_name u.name) c.users ≡ false
    → Good c
    → Good (with_users c (c.users ++ u ∷ []))
added-IsWellFormed c u fresh_uid fresh_name w = record {
  uids = UniqueBy-append_one uid_of u c.users w.uids fresh_uid;
  names = UniqueBy-append_one name_of u c.users w.names fresh_name;
  gids = w.gids;
  group_names = w.group_names;
  ugids = w.ugids;
  memberships = w.memberships;
  local_memberships = w.local_memberships;
  members_exist =
      All-imp _ _ c.users_to_groups (λ m. any_key-append uid_of u c.users m.uid) w.members_exist;
  groups_exist = w.groups_exist;
  local_members_exist =
      All-imp _ _ c.users_to_local_groups (λ m. any_key-append uid_of u c.users m.uid)
        w.local_members_exist;
}

replaced-IsWellFormed :
    (c : Conn) (u : UserRow)
    → any (name_taken u) c.users ≡ false
    → Good c
    → Good (with_users c (replace (has_uid u.uid) u c.users))
replaced-IsWellFormed c u free w = record {
  uids = UniqueBy-replace uid_of uid_of u c.users w.uids w.uids (any-never (has_uid u.uid) c.users);
  names = UniqueBy-replace uid_of name_of u c.users w.uids w.names free;
  gids = w.gids;
  group_names = w.group_names;
  ugids = w.ugids;
  memberships = w.memberships;
  local_memberships = w.local_memberships;
  members_exist =
      All-imp _ _ c.users_to_groups (λ m. any_key-replace uid_of u c.users m.uid) w.members_exist;
  groups_exist = w.groups_exist;
  local_members_exist =
      All-imp _ _ c.users_to_local_groups (λ m. any_key-replace uid_of u c.users m.uid)
        w.local_members_exist;
}

insert_user-IsWellFormed :
    (c : Conn) (u : UserRow) (c' : Conn) → insert_user c u ≡ ok c' → Good c → Good c'
insert_user-IsWellFormed c u c' h w =
    let (fresh_uid, fresh_name, e) = insert_user_effect c u c' h in
    subst Good e (added-IsWellFormed c u fresh_uid fresh_name w)

update_user-IsWellFormed :
    (c : Conn) (u : UserRow) (c' : Conn) → update_user_by_id c u ≡ ok c' → Good c → Good c'
update_user-IsWellFormed c u c' h w =
    let (checked, e) = update_user_effect c u c' h in
    subst Good e (elim checked [
      | inl absent ↦
          subst (λ us. Good (with_users c us))
            (sym (replace_absent (has_uid u.uid) u c.users absent)) w
      | inr free ↦ replaced-IsWellFormed c u free w
    ])

pub upsert_user-IsWellFormed :
    (c : Conn) (u : UserRow) (c' : Conn)
    → insert_or_update_user_by_id c u ≡ ok c'
    → Good c
    → Good c'
upsert_user-IsWellFormed c u c' h w = elim (upsert_user_effect c u c' h) [
  | inl (_, added) ↦ insert_user-IsWellFormed c u c' added w
  | inr (_, updated) ↦ update_user-IsWellFormed c u c' updated w
]
