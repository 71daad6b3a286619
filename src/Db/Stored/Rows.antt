-- ===== src/Db/Stored/Rows.antt =====
-- The users and groups that handleUserUpdate and handleGroupsUpdate store.
use authd.Prelude.{
  ℕ, ◌≡◌, true, false, ◌⊎◌, inl, inr, List, [], ◌∷◌, arith, nat_eq, string_eq, any, find, some, All,
  UniqueBy, sym, ◌∙◌, ap, Upserted, Upserted-append, Upserted-replace, any-false_of_find,
  find-none_of_any,
}
use authd.Errors.{ok, >>=-eq-ok, ok-eq}
use authd.Db.Tables.{UserRow, GroupRow, Conn, with_users, with_groups}
use authd.Db.Users.{insert_or_update_user_by_id}
use authd.Db.Groups.{has_gid, insert_or_update_group_by_id}
use authd.Db.Update.{handle_group_update, handle_groups_update}
use authd.Db.Effects.Users.{insert_user_effect, update_user_effect, upsert_user_effect}
use authd.Db.Effects.Groups.{insert_group_effect, update_group_effect, upsert_group_effect}
use authd.Db.Effects.Update.{handle_group_update_effect}

abbrev pub uid_of : UserRow → ℕ
uid_of u = u.uid

abbrev pub gid_of : GroupRow → ℕ
gid_of g = g.gid

pub upsert_user-Upserted :
    (c : Conn) (u : UserRow) (c' : Conn)
    → insert_or_update_user_by_id c u ≡ ok c'
    → (us : List UserRow) × Upserted uid_of u c.users us × (with_users c us ≡ c')
upsert_user-Upserted c u c' h = elim (upsert_user_effect c u c' h) [
  | inl (_, added) ↦
      let (fresh, _, e) = insert_user_effect c u c' added in
      (_, Upserted-append uid_of u c.users fresh, e)
  | inr (_, updated) ↦
      let (_, e) = update_user_effect c u c' updated in (_, Upserted-replace uid_of u c.users, e)
]

upsert_group-Upserted :
    (c : Conn) (g : GroupRow) (c' : Conn)
    → insert_or_update_group_by_id c g ≡ ok c'
    → (gs : List GroupRow) × Upserted gid_of g c.groups gs × (with_groups c gs ≡ c')
upsert_group-Upserted c g c' h = elim (upsert_group_effect c g c' h) [
  | inl added ↦
      let (fresh, _, _, e) = insert_group_effect c g c' added in
      (_, Upserted-append gid_of g c.groups fresh, e)
  | inr (_, updated) ↦
      let (_, e) = update_group_effect c g c' updated in (_, Upserted-replace gid_of g c.groups, e)
]

-- One group's update: the row is stored under its GID or that GID is in no row, and all else stays.
pub handle_group_update-Upserted :
    (c : Conn) (g : GroupRow) (c' : Conn)
    → handle_group_update c g ≡ ok c'
    → (gs : List GroupRow) × Upserted gid_of g c.groups gs × (with_groups c gs ≡ c')
handle_group_update-Upserted c g c' h =
    let (_, _, _, stored) = handle_group_update_effect c g c' h in
    upsert_group-Upserted c g c' stored

-- The groups of the list are all that the loop touches: another GID finds what it found.
pub groups_others :
    (c : Conn) (gs : List GroupRow) (c' : Conn) (k : ℕ)
    → handle_groups_update c gs ≡ ok c'
    → any (has_gid k) gs ≡ false
    → find (has_gid k) c'.groups ≡ find (has_gid k) c.groups
unfolding handle_groups_update
groups_others c [] c' k h absent = ap (λ (x : Conn). find (has_gid k) x.groups) (sym (ok-eq c c' h))
groups_others c (g ∷ gs) c' k h absent =
    let (c₁, e, rest) = >>=-eq-ok (handle_group_update c g) _ c' h in
    let (rows, up, same) = handle_group_update-Upserted c g c₁ e in
    groups_others c₁ gs c' k rest (ground arith)
    ∙ (ap (λ (x : Conn). find (has_gid k) x.groups) (sym same) ∙ up.others k (ground arith))

-- The loop leaves the other tables alone.
pub groups_frame :
    (c : Conn) (gs : List GroupRow) (c' : Conn)
    → handle_groups_update c gs ≡ ok c'
    → with_groups c c'.groups ≡ c'
unfolding handle_groups_update
groups_frame c [] c' h = ground arith
groups_frame c (g ∷ gs) c' h =
    let (c₁, e, rest) = >>=-eq-ok (handle_group_update c g) _ c' h in
    let (rows, up, same) = handle_group_update-Upserted c g c₁ e in
    ground (arith, groups_frame c₁ gs c' rest)

found_of_there :
    (g : GroupRow) (rows gs : List GroupRow)
    → find (has_gid g.gid) gs ≡ find (has_gid g.gid) rows
    → (find (has_gid g.gid) rows ≡ some g) ⊎ (any (has_gid g.gid) rows ≡ false)
    → any (has_gid g.gid) gs ≡ true
    → find (has_gid g.gid) gs ≡ some g
found_of_there g rows gs keep (inl found) there = keep ∙ found
found_of_there g rows gs keep (inr absent) there =
    cc (any-false_of_find (has_gid g.gid) gs (keep ∙ find-none_of_any (has_gid g.gid) rows absent))

-- Where the GIDs of the list differ and each of them is in the tables in the end, each group of the
-- list is stored as it stands there.
pub groups_stored :
    (c : Conn) (gs : List GroupRow) (c' : Conn)
    → handle_groups_update c gs ≡ ok c'
    → UniqueBy gid_of gs
    → All (λ (g : GroupRow). any (has_gid g.gid) c'.groups ≡ true) gs
    → All (λ (g : GroupRow). find (has_gid g.gid) c'.groups ≡ some g) gs
unfolding handle_groups_update
groups_stored c [] c' h distinct there = tt
groups_stored c (g ∷ gs) c' h distinct there =
    let (c₁, e, rest) = >>=-eq-ok (handle_group_update c g) _ c' h in
    let (rows, up, same) = handle_group_update-Upserted c g c₁ e in
    let keep : find (has_gid g.gid) c'.groups ≡ find (has_gid g.gid) rows =
      groups_others c₁ gs c' g.gid rest distinct.0
      ∙ ap (λ (x : Conn). find (has_gid g.gid) x.groups) (sym same) in
    (
      found_of_there g rows c'.groups keep up.stored there.0,
      groups_stored c₁ gs c' rest distinct.1 there.1,
    )
