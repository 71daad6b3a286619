-- ===== src/Db/WellFormed/Groups.antt =====
-- The statements of internal/users/db/groups.go and the invariant of the tables.
use authd.Prelude.{
  ℕ, String, ◌≡◌, false, inl, inr, [], ◌∷◌, ◌++◌, nat_eq, string_eq, any, replace, subst, sym,
  All-imp, UniqueBy-append_one, UniqueBy-replace, any_key-append, any_key-replace, any-never,
  replace_absent,
}
use authd.Errors.{ok}
use authd.Db.Tables.{GroupRow, Conn, with_groups}
use authd.Db.Groups.{
  has_gid, has_group_name, has_ugid, group_name_taken, ugid_taken, insert_group, update_group_by_id,
  insert_or_update_group_by_id,
}
use authd.Db.Effects.Groups.{insert_group_effect, update_group_effect, upsert_group_effect}
use authd.Db.Invariant.{Good}

abbrev gid_of : GroupRow → ℕ
gid_of g = g.gid

abbrev name_of : GroupRow → String
name_of g = g.name

abbrev ugid_of : GroupRow → String
ugid_of g = g.ugid

added-IsWellFormed :
    (c : Conn) (g : GroupRow)
    → any (has_gid g.gid) c.groups ≡ false
    → any (has_group_name g.name) c.groups ≡ false
    → any (has_ugid g.ugid) c.groups ≡ false
    → Good c
    → Good (with_groups c (c.groups ++ g ∷ []))
added-IsWellFormed c g fresh_gid fresh_name fresh_ugid w = record {
  uids = w.uids;
  names = w.names;
  gids = UniqueBy-append_one gid_of g c.groups w.gids fresh_gid;
  group_names = UniqueBy-append_one name_of g c.groups w.group_names fresh_name;
  ugids = UniqueBy-append_one ugid_of g c.groups w.ugids fresh_ugid;
  memberships = w.memberships;
  local_memberships = w.local_memberships;
  members_exist = w.members_exist;
  groups_exist =
      All-imp _ _ c.users_to_groups (λ m. any_key-append gid_of g c.groups m.gid) w.groups_exist;
  local_members_exist = w.local_members_exist;
}

replaced-IsWellFormed :
    (c : Conn) (g : GroupRow)
    → any (group_name_taken g) c.groups ≡ false
    → any (ugid_taken g) c.groups ≡ false
    → Good c
    → Good (with_groups c (replace (has_gid g.gid) g c.groups))
replaced-IsWellFormed c g free_name free_ugid w = record {
  uids = w.uids;
  names = w.names;
  gids =
      UniqueBy-replace gid_of gid_of g c.groups w.gids w.gids (any-never (has_gid g.gid) c.groups);
  group_names = UniqueBy-replace gid_of name_of g c.groups w.gids w.group_names free_name;
  ugids = UniqueBy-replace gid_of ugid_of g c.groups w.gids w.ugids free_ugid;
  memberships = w.memberships;
  local_memberships = w.local_memberships;
  members_exist = w.members_exist;
  groups_exist =
      All-imp _ _ c.users_to_groups (λ m. any_key-replace gid_of g c.groups m.gid) w.groups_exist;
  local_members_exist = w.local_members_exist;
}

insert_group-IsWellFormed :
    (c : Conn) (g : GroupRow) (c' : Conn) → insert_group c g ≡ ok c' → Good c → Good c'
insert_group-IsWellFormed c g c' h w =
    let (fresh_gid, fresh_name, fresh_ugid, e) = insert_group_effect c g c' h in
    subst Good e (added-IsWellFormed c g fresh_gid fresh_name fresh_ugid w)

update_group-IsWellFormed :
    (c : Conn) (g : GroupRow) (c' : Conn) → update_group_by_id c g ≡ ok c' → Good c → Good c'
update_group-IsWellFormed c g c' h w =
    let (checked, e) = update_group_effect c g c' h in
    subst Good e (elim checked [
      | inl absent ↦
          subst (λ gs. Good (with_groups c gs))
            (sym (replace_absent (has_gid g.gid) g c.groups absent)) w
      | inr (free_name, free_ugid) ↦ replaced-IsWellFormed c g free_name free_ugid w
    ])

pub upsert_group-IsWellFormed :
    (c : Conn) (g : GroupRow) (c' : Conn)
    → insert_or_update_group_by_id c g ≡ ok c'
    → Good c
    → Good c'
upsert_group-IsWellFormed c g c' h w = elim (upsert_group_effect c g c' h) [
  | inl added ↦ insert_group-IsWellFormed c g c' added w
  | inr (_, updated) ↦ update_group-IsWellFormed c g c' updated w
]
