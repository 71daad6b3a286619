-- ===== src/Db/Stored/LocalMembers.antt =====
-- The memberships of local groups that handleUsersToLocalGroupsUpdate stores.
use mathlib.Core.Path.{ap₂}
use mathlib.Core.List.{append_assoc, append-nil}
use authd.Prelude.{
  ℕ, String, ◌≡◌, refl, not, List, [], ◌∷◌, ◌++◌, map, arith, nat_eq, string_eq, select, subst, sym,
  ◌∙◌, ap, select-append, select_idem,
}
use authd.Errors.{ok, >>=-eq-ok, ok-eq}
use authd.Db.Tables.{UserToLocalGroupRow, Conn, with_users_to_local_groups}
use authd.Db.Memberships.{
  local_of_user, selected_names, remove_user_from_all_local_groups, add_user_to_local_group,
}
use authd.Db.Update.{add_user_to_local_groups, handle_users_to_local_groups_update}
use authd.Db.Effects.Memberships.{
  add_user_to_local_group_effect, remove_user_from_all_local_groups_effect,
}

abbrev pub local_membership : ℕ → String → UserToLocalGroupRow
local_membership uid name = record { uid = uid; group_name = name }

add_local_groups_effect :
    (c : Conn) (uid : ℕ) (gs : List String) (c' : Conn)
    → add_user_to_local_groups c uid gs ≡ ok c'
    → with_users_to_local_groups c (c.users_to_local_groups ++ map (local_membership uid) gs) ≡ c'
unfolding add_user_to_local_groups
add_local_groups_effect c uid [] c' h =
    ap (with_users_to_local_groups c) (append-nil c.users_to_local_groups) ∙ ok-eq c c' h
add_local_groups_effect c uid (g ∷ gs) c' h =
    let (c₁, e, rest) = >>=-eq-ok (add_user_to_local_group c uid g) _ c' h in
    let (_, _, same) = add_user_to_local_group_effect c uid g c₁ e in
    let row = local_membership uid g ∷ [] in
    ap (with_users_to_local_groups c)
      (sym (append_assoc c.users_to_local_groups row (map (local_membership uid) gs)))
    ∙ subst
        (λ (x : Conn).
          with_users_to_local_groups x (x.users_to_local_groups ++ map (local_membership uid) gs)
          ≡ c')
        (sym same) (add_local_groups_effect c₁ uid gs c' rest)

pub user_to_local_groups_effect :
    (c : Conn) (uid : ℕ) (gs : List String) (c' : Conn)
    → handle_users_to_local_groups_update c uid gs ≡ ok c'
    → with_users_to_local_groups c (
        select (λ m. not (local_of_user uid m)) c.users_to_local_groups
        ++ map (local_membership uid) gs)
      ≡ c'
unfolding handle_users_to_local_groups_update
user_to_local_groups_effect c uid gs c' h =
    let (c₁, e, rest) = >>=-eq-ok (remove_user_from_all_local_groups c uid) _ c' h in
    subst
      (λ (x : Conn).
        with_users_to_local_groups x (x.users_to_local_groups ++ map (local_membership uid) gs)
        ≡ c')
      (sym (remove_user_from_all_local_groups_effect c uid c₁ e))
      (add_local_groups_effect c₁ uid gs c' rest)

selected_names_others :
    (uid : ℕ) (ms rest : List UserToLocalGroupRow)
    → selected_names uid (select (λ m. not (local_of_user uid m)) ms ++ rest)
      ≡ selected_names uid rest
selected_names_others uid [] rest = refl
selected_names_others uid (m ∷ ms) rest = ground (arith, selected_names_others uid ms rest)

selected_names_added :
    (uid : ℕ) (gs : List String) → selected_names uid (map (local_membership uid) gs) ≡ gs
selected_names_added uid [] = refl
selected_names_added uid (g ∷ gs) = ground (arith, selected_names_added uid gs)

pub selected_names_stored :
    (uid : ℕ) (ms : List UserToLocalGroupRow) (gs : List String)
    → selected_names uid
        (select (λ m. not (local_of_user uid m)) ms ++ map (local_membership uid) gs)
      ≡ gs
selected_names_stored uid ms gs = selected_names_others uid ms _ ∙ selected_names_added uid gs

added_not_local_others :
    (uid : ℕ) (gs : List String)
    → select (λ m. not (local_of_user uid m)) (map (local_membership uid) gs) ≡ []
added_not_local_others uid [] = refl
added_not_local_others uid (g ∷ gs) = ground (arith, added_not_local_others uid gs)

pub local_others_stored :
    (uid : ℕ) (ms : List UserToLocalGroupRow) (gs : List String)
    → select
        (λ m. not (local_of_user uid m))
        (select (λ m. not (local_of_user uid m)) ms ++ map (local_membership uid) gs)
      ≡ select (λ m. not (local_of_user uid m)) ms
local_others_stored uid ms gs =
    select-append _ (select (λ m. not (local_of_user uid m)) ms) (map (local_membership uid) gs)
    ∙ (ap₂ ◌++◌ (select_idem (λ m. not (local_of_user uid m)) ms) (added_not_local_others uid gs)
        ∙ append-nil _)
