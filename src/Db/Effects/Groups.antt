-- ===== src/Db/Effects/Groups.antt =====
-- The statements of internal/users/db/groups.go.
use authd.Prelude.{
  ℕ, ◌≡◌, Bool, true, false, ◌||◌, ◌⊎◌, inl, inr, [], ◌∷◌, ◌++◌, arith, any, find, replace, some,
  Bool-cases,
}
use authd.Errors.{ok}
use authd.Db.Tables.{GroupRow, Conn, with_groups}
use authd.Db.Groups.{
  has_gid, has_group_name, has_ugid, group_name_taken, ugid_taken, insert_group, update_group_by_id,
  group_exists, group_by_id, insert_or_update_group_by_id,
}

pub insert_group_effect :
    (c : Conn) (g : GroupRow) (c' : Conn)
    → insert_group c g ≡ ok c'
    → (any (has_gid g.gid) c.groups ≡ false)
      × (any (has_group_name g.name) c.groups ≡ false)
      × (any (has_ugid g.ugid) c.groups ≡ false)
      × (with_groups c (c.groups ++ g ∷ []) ≡ c')
unfolding insert_group
insert_group_effect c g c' h = ground arith

pub update_group_effect :
    (c : Conn) (g : GroupRow) (c' : Conn)
    → update_group_by_id c g ≡ ok c'
    → ((any (has_gid g.gid) c.groups ≡ false)
        ⊎ ((any (group_name_taken g) c.groups ≡ false) × (any (ugid_taken g) c.groups ≡ false)))
      × (with_groups c (replace (has_gid g.gid) g c.groups) ≡ c')
unfolding update_group_by_id
update_group_effect c g c' h = ground arith

abbrev pub clashes : GroupRow → GroupRow → Bool
clashes g r = has_group_name g.name r || has_gid g.gid r || has_ugid g.ugid r

-- The row is added, or it replaces the row with its GID.
pub upsert_group_effect :
    (c : Conn) (g : GroupRow) (c' : Conn)
    → insert_or_update_group_by_id c g ≡ ok c'
    → (insert_group c g ≡ ok c')
      ⊎ ((any (clashes g) c.groups ≡ true) × (update_group_by_id c g ≡ ok c'))
unfolding insert_or_update_group_by_id group_exists
upsert_group_effect c g c' h = elim (Bool-cases (any (clashes g) c.groups)) [
  | inl there ↦ inr (there, ground arith)
  | inr absent ↦ inl (ground arith)
]

pub group_by_id_effect :
    (c : Conn) (gid : ℕ) (g : GroupRow)
    → group_by_id c gid ≡ ok g
    → find (has_gid gid) c.groups ≡ some g
unfolding group_by_id
group_by_id_effect c gid g h = ground arith
