-- ===== src/Db/Stored/Members.antt =====
-- The memberships that handleUsersToGroupsUpdate stores.
use mathlib.Core.Path.{ap₂}
use mathlib.Core.List.{append_assoc, append-nil}
use authd.Prelude.{
  ℕ, ◌≡◌, refl, true, false, not, List, [], ◌∷◌, ◌++◌, map, arith, nat_eq, string_eq, any, select,
  find, some, All, UniqueBy, subst, sym, ◌∙◌, ap, any-append, select-append, select_idem,
}
use authd.Errors.{ok, or_default, >>=-eq-ok, ok-eq}
use authd.Db.Tables.{GroupRow, UserToGroupRow, Conn, with_users_to_groups}
use authd.Db.Users.{has_uid}
use authd.Db.Groups.{has_gid}
use authd.Db.Memberships.{
  of_user, is_pair, joined_groups, remove_user_from_all_groups, add_user_to_group,
}
use authd.Db.Update.{add_user_to_groups, handle_users_to_groups_update}
use authd.Db.Effects.Memberships.{add_user_to_group_effect, remove_user_from_all_groups_effect}
use authd.Db.Stored.Rows.{gid_of}

abbrev pub membership : ℕ → GroupRow → UserToGroupRow
membership uid g = record { uid = uid; gid = g.gid }

-- A group that the user is in already is not added again.
add_groups_fresh :
    (c : Conn) (uid gid : ℕ) (gs : List GroupRow) (c' : Conn)
    → add_user_to_groups c uid gs ≡ ok c'
    → any (is_pair uid gid) c.users_to_groups ≡ true
    → any (has_gid gid) gs ≡ false
unfolding add_user_to_groups
add_groups_fresh c uid gid [] c' h there = refl
add_groups_fresh c uid gid (g ∷ gs) c' h there =
    let (c₁, e, rest) = >>=-eq-ok (add_user_to_group c uid g.gid) _ c' h in
    let (_, _, fresh, same) = add_user_to_group_effect c uid g.gid c₁ e in
    ground (
      arith,
      any-append (is_pair uid gid) c.users_to_groups (membership uid g ∷ []),
      add_groups_fresh c₁ uid gid gs c' rest,
    )

-- The loop adds one row for each group, in order, where the groups are stored and differ.
pub add_groups_effect :
    (c : Conn) (uid : ℕ) (gs : List GroupRow) (c' : Conn)
    → add_user_to_groups c uid gs ≡ ok c'
    → (with_users_to_groups c (c.users_to_groups ++ map (membership uid) gs) ≡ c')
      × All (λ (g : GroupRow). any (has_gid g.gid) c.groups ≡ true) gs
      × UniqueBy gid_of gs
unfolding add_user_to_groups
add_groups_effect c uid [] c' h =
    (ap (with_users_to_groups c) (append-nil c.users_to_groups) ∙ ok-eq c c' h, tt, tt)
add_groups_effect c uid (g ∷ gs) c' h =
    let (c₁, e, rest) = >>=-eq-ok (add_user_to_group c uid g.gid) _ c' h in
    let (_, group, _, same) = add_user_to_group_effect c uid g.gid c₁ e in
    let (rows, groups, distinct) = add_groups_effect c₁ uid gs c' rest in
    let row = membership uid g ∷ [] in
    let added : any (is_pair uid g.gid) c₁.users_to_groups ≡ true =
      subst (λ (x : Conn). any (is_pair uid g.gid) x.users_to_groups ≡ true) same
        (ground (arith, any-append (is_pair uid g.gid) c.users_to_groups row)) in
    (
      ap (with_users_to_groups c)
            (sym (append_assoc c.users_to_groups row (map (membership uid) gs)))
          ∙ subst
              (λ (x : Conn).
                with_users_to_groups x (x.users_to_groups ++ map (membership uid) gs) ≡ c')
              (sym same) rows,
      (
        group,
        subst (λ (x : Conn). All (λ (r : GroupRow). any (has_gid r.gid) x.groups ≡ true) gs)
            (sym same) groups,
      ),
      (add_groups_fresh c₁ uid g.gid gs c' rest added, distinct),
    )

pub add_groups_user :
    (c : Conn) (uid : ℕ) (g : GroupRow) (gs : List GroupRow) (c' : Conn)
    → add_user_to_groups c uid (g ∷ gs) ≡ ok c'
    → any (has_uid uid) c.users ≡ true
unfolding add_user_to_groups
add_groups_user c uid g gs c' h =
    let (c₁, e, _) = >>=-eq-ok (add_user_to_group c uid g.gid) _ c' h in
    (add_user_to_group_effect c uid g.gid c₁ e).0

pub user_to_groups_effect :
    (c : Conn) (uid : ℕ) (gs : List GroupRow) (c' : Conn)
    → handle_users_to_groups_update c uid gs ≡ ok c'
    → (with_users_to_groups c
          (select (λ m. not (of_user uid m)) c.users_to_groups ++ map (membership uid) gs)
        ≡ c')
      × All (λ (g : GroupRow). any (has_gid g.gid) c.groups ≡ true) gs
      × UniqueBy gid_of gs
unfolding handle_users_to_groups_update
user_to_groups_effect c uid gs c' h =
    let (c₁, e, rest) = >>=-eq-ok (or_default c (remove_user_from_all_groups c uid)) _ c' h in
    let same = remove_user_from_all_groups_effect c uid c₁ e in
    subst
      (λ (x : Conn).
        (with_users_to_groups x (x.users_to_groups ++ map (membership uid) gs) ≡ c')
        × All (λ (g : GroupRow). any (has_gid g.gid) x.groups ≡ true) gs
        × UniqueBy gid_of gs)
      (sym same) (add_groups_effect c₁ uid gs c' rest)

pub user_to_groups_user :
    (c : Conn) (uid : ℕ) (g : GroupRow) (gs : List GroupRow) (c' : Conn)
    → handle_users_to_groups_update c uid (g ∷ gs) ≡ ok c'
    → any (has_uid uid) c.users ≡ true
unfolding handle_users_to_groups_update
user_to_groups_user c uid g gs c' h =
    let (c₁, e, rest) = >>=-eq-ok (or_default c (remove_user_from_all_groups c uid)) _ c' h in
    subst (λ (x : Conn). any (has_uid uid) x.users ≡ true)
      (sym (remove_user_from_all_groups_effect c uid c₁ e)) (add_groups_user c₁ uid g gs c' rest)

-- Selecting: the rows of other users give nothing, and those that were added give the groups.
join_others :
    (rows : List GroupRow) (uid : ℕ) (ms : List UserToGroupRow) (rest : List UserToGroupRow)
    → joined_groups rows uid (select (λ m. not (of_user uid m)) ms ++ rest)
      ≡ joined_groups rows uid rest
unfolding joined_groups
join_others rows uid [] rest = refl
join_others rows uid (m ∷ ms) rest = ground (arith, join_others rows uid ms rest)

join_added :
    (rows : List GroupRow) (uid : ℕ) (gs : List GroupRow)
    → All (λ (g : GroupRow). find (has_gid g.gid) rows ≡ some g) gs
    → joined_groups rows uid (map (membership uid) gs) ≡ gs
unfolding joined_groups
join_added rows uid [] found = refl
join_added rows uid (g ∷ gs) found = ground (arith, found.0, join_added rows uid gs found.1)

pub join_stored :
    (rows : List GroupRow) (uid : ℕ) (ms : List UserToGroupRow) (gs : List GroupRow)
    → All (λ (g : GroupRow). find (has_gid g.gid) rows ≡ some g) gs
    → joined_groups rows uid (select (λ m. not (of_user uid m)) ms ++ map (membership uid) gs) ≡ gs
join_stored rows uid ms gs found = join_others rows uid ms _ ∙ join_added rows uid gs found

added_not_others :
    (uid : ℕ) (gs : List GroupRow)
    → select (λ m. not (of_user uid m)) (map (membership uid) gs) ≡ []
added_not_others uid [] = refl
added_not_others uid (g ∷ gs) = ground (arith, added_not_others uid gs)

-- The rows of the other users stay.
pub others_stored :
    (uid : ℕ) (ms : List UserToGroupRow) (gs : List GroupRow)
    → select
        (λ m. not (of_user uid m))
        (select (λ m. not (of_user uid m)) ms ++ map (membership uid) gs)
      ≡ select (λ m. not (of_user uid m)) ms
others_stored uid ms gs =
    select-append _ (select (λ m. not (of_user uid m)) ms) (map (membership uid) gs)
    ∙ (ap₂ ◌++◌ (select_idem (λ m. not (of_user uid m)) ms) (added_not_others uid gs)
        ∙ append-nil _)
