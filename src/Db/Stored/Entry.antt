-- ===== src/Db/Stored/Entry.antt =====
-- UpdateUserEntry of internal/users/db/update.go, read back after it succeeded.
use mathlib.Core.List.{Perm}
use authd.Prelude.{
  ℕ, String, ◌≡◌, true, false, not, ◌⊎◌, inl, inr, List, ◌∷◌, ◌++◌, map, arith, ◌==◌, nat_eq, any,
  find, select, some, subst, sym, ◌∙◌, ap, Upserted, All,
}
use authd.Errors.{ok, or_default}
use authd.Db.Tables.{UserRow, GroupRow, Conn, RowOrder, no_user}
use authd.Db.Users.{has_uid, user_by_id}
use authd.Db.Groups.{has_gid}
use authd.Db.Memberships.{
  of_user, local_of_user, join_groups, local_names, joined_groups, selected_names,
}
use authd.Db.Update.{keep_dir, update_in, update_user_entry}
use authd.Db.Effects.Update.{
  handle_user_update_effect, update_in_effect, body-ok, in_transaction-ok,
}
use authd.Db.Stored.Rows.{uid_of, upsert_user-Upserted, groups_frame, groups_stored}
use authd.Db.Stored.Members.{
  membership, user_to_groups_effect, user_to_groups_user, join_stored, others_stored,
}
use authd.Db.Stored.LocalMembers.{
  local_membership, user_to_local_groups_effect, selected_names_stored, local_others_stored,
}

keep_dir-uid : (existing u : UserRow) → (keep_dir existing u).uid ≡ u.uid
keep_dir-uid existing u = ground arith

-- What the tables of `c'` say of the user, and that they say of others what those of `c` said.
pub record IsStored (c c' : Conn) (uid : ℕ) (row : UserRow) (groups : List GroupRow)
    (local_groups : List String) : Type 0 where
  pub user : find (has_uid uid) c'.users ≡ some row
  pub groups_read : Perm (join_groups c' uid) groups
  pub local_groups_read : Perm (local_names c' uid) local_groups
  pub other_users :
      (k : ℕ) → (uid == k) ≡ false → find (has_uid k) c'.users ≡ find (has_uid k) c.users
  pub other_memberships :
      select (λ m. not (of_user uid m)) c'.users_to_groups
      ≡ select (λ m. not (of_user uid m)) c.users_to_groups
  pub other_local_memberships :
      select (λ m. not (local_of_user uid m)) c'.users_to_local_groups
      ≡ select (λ m. not (local_of_user uid m)) c.users_to_local_groups

-- A row that was stored or not at all, under a UID that is there, was stored.
stored_of_there :
    (us : List UserRow) (uid : ℕ) (row : UserRow)
    → (find (has_uid uid) us ≡ some row) ⊎ (any (has_uid uid) us ≡ false)
    → any (has_uid uid) us ≡ true
    → find (has_uid uid) us ≡ some row
stored_of_there us uid row (inl found) there = found
stored_of_there us uid row (inr absent) there = cc

arranged :
    {A : Type 0} {rows expected : List A} (o : RowOrder A)
    → rows ≡ expected
    → Perm (o.arrange rows) expected
arranged {rows = rows} o e = subst (Perm (o.arrange rows)) e (o.arranges rows)

-- The facts about each table, put together.
assemble :
    (c c' : Conn) (uid : ℕ) (row : UserRow) (groups : List GroupRow) (local_groups : List String)
    → row.uid ≡ uid
    → Upserted uid_of row c.users c'.users
    → any (has_uid uid) c'.users ≡ true
    → All (λ (g : GroupRow). find (has_gid g.gid) c'.groups ≡ some g) groups
    → c'.users_to_groups
      ≡ select (λ m. not (of_user uid m)) c.users_to_groups ++ map (membership uid) groups
    → c'.users_to_local_groups
      ≡ select (λ m. not (local_of_user uid m)) c.users_to_local_groups
        ++ map (local_membership uid) local_groups
    → IsStored c c' uid row groups local_groups
unfolding join_groups
assemble c c' uid row groups local_groups same up there found members local_members = record {
  user =
      stored_of_there c'.users uid row
        (subst (λ k. (find (has_uid k) c'.users ≡ some row) ⊎ (any (has_uid k) c'.users ≡ false))
          same up.stored)
        there;
  groups_read = arranged c'.group_order (
      ap (joined_groups c'.groups uid) members
      ∙ join_stored c'.groups uid c.users_to_groups groups found);
  local_groups_read = arranged c'.name_order (
      ap (selected_names uid) local_members
      ∙ selected_names_stored uid c.users_to_local_groups local_groups);
  other_users =
      subst (λ u. (k : ℕ) → (u == k) ≡ false → find (has_uid k) c'.users ≡ find (has_uid k) c.users)
        same up.others;
  other_memberships =
      ap (select (λ m. not (of_user uid m))) members ∙ others_stored uid c.users_to_groups groups;
  other_local_memberships =
      ap (select (λ m. not (local_of_user uid m))) local_members
      ∙ local_others_stored uid c.users_to_local_groups local_groups;
}

update_in-IsStored :
    (c c' : Conn) (user : UserRow) (g : GroupRow) (gs : List GroupRow) (local_groups : List String)
    → update_in user (g ∷ gs) local_groups c ≡ ok c'
    → (existing : UserRow) × (or_default no_user (user_by_id c user.uid) ≡ ok existing)
      × IsStored c c' user.uid (keep_dir existing user) (g ∷ gs) local_groups
update_in-IsStored c c' user g gs local_groups h =
    let (c₁, c₂, c₃, e₁, e₂, e₃, e₄) = update_in_effect user (g ∷ gs) local_groups c c' h in
    let (existing, found, _, upserted) = handle_user_update_effect c user c₁ e₁ in
    let (us, up, same₁) = upsert_user-Upserted c (keep_dir existing user) c₁ upserted in
    let same₂ = groups_frame c₁ (g ∷ gs) c₂ e₂ in
    let (same₃, groups_there, distinct) = user_to_groups_effect c₂ user.uid (g ∷ gs) c₃ e₃ in
    let same₄ = user_to_local_groups_effect c₃ user.uid local_groups c' e₄ in
    let users : us ≡ c'.users =
      ap (λ (x : Conn). x.users) same₁
      ∙ (ap (λ (x : Conn). x.users) same₂
          ∙ (ap (λ (x : Conn). x.users) same₃ ∙ ap (λ (x : Conn). x.users) same₄)) in
    let users₂ : c₂.users ≡ c'.users =
      ap (λ (x : Conn). x.users) same₃ ∙ ap (λ (x : Conn). x.users) same₄ in
    let groups : c₂.groups ≡ c'.groups =
      ap (λ (x : Conn). x.groups) same₃ ∙ ap (λ (x : Conn). x.groups) same₄ in
    let members : c.users_to_groups ≡ c₂.users_to_groups =
      ap (λ (x : Conn). x.users_to_groups) same₁ ∙ ap (λ (x : Conn). x.users_to_groups) same₂ in
    let locals : c.users_to_local_groups ≡ c₃.users_to_local_groups =
      ap (λ (x : Conn). x.users_to_local_groups) same₁
      ∙ (ap (λ (x : Conn). x.users_to_local_groups) same₂
          ∙ ap (λ (x : Conn). x.users_to_local_groups) same₃) in
    (
      existing,
      found,
      assemble c c' user.uid (keep_dir existing user) (g ∷ gs) local_groups
          (keep_dir-uid existing user)
          (subst (Upserted uid_of (keep_dir existing user) c.users) users up)
          (subst (λ xs. any (has_uid user.uid) xs ≡ true) users₂
            (user_to_groups_user c₂ user.uid g gs c₃ e₃))
          (subst (λ xs. All (λ (r : GroupRow). find (has_gid r.gid) xs ≡ some r) (g ∷ gs)) groups
            (groups_stored c₁ (g ∷ gs) c₂ e₂ distinct groups_there))
          (subst
            (λ ms.
              c'.users_to_groups
              ≡ select (λ m. not (of_user user.uid m)) ms ++ map (membership user.uid) (g ∷ gs))
            (sym members)
            (sym (
              ap (λ (x : Conn). x.users_to_groups) same₃
              ∙ ap (λ (x : Conn). x.users_to_groups) same₄)))
          (subst
            (λ ms.
              c'.users_to_local_groups
              ≡ select (λ m. not (local_of_user user.uid m)) ms
                ++ map (local_membership user.uid) local_groups)
            (sym locals) (ap (λ (x : Conn). x.users_to_local_groups) (sym same₄))),
    )

-- After a successful UpdateUserEntry with at least one group (there is always the private group), the
-- user's row is the one given, with the home directory that the database had, if it had one; the
-- groups that the database gives for the user are those given, each once and in whatever order it chooses,
-- and so are the local groups; the rows of every other UID and the memberships of every other user are as they were.
pub update_user_entry-IsStored :
    (c c' : Conn) (user : UserRow) (g : GroupRow) (gs : List GroupRow) (local_groups : List String)
    → update_user_entry c user (g ∷ gs) local_groups ≡ (ok tt, c')
    → (existing : UserRow) × (or_default no_user (user_by_id c user.uid) ≡ ok existing)
      × IsStored c c' user.uid (keep_dir existing user) (g ∷ gs) local_groups
unfolding update_user_entry
update_user_entry-IsStored c c' user g gs local_groups h =
    update_in-IsStored c c' user g gs local_groups
      (body-ok (update_in user (g ∷ gs) local_groups c) tt c' (in_transaction-ok c _ tt c' h))
