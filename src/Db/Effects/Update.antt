-- ===== src/Db/Effects/Update.antt =====
-- The steps of UpdateUserEntry in internal/users/db/update.go, and transactions.
use authd.Prelude.{String, ◌≡◌, false, not, ◌&&◌, List, arith, ◌==◌, string_eq, inl, inr, subst}
use authd.Errors.{Error, Result, ok, err, or_default, ◌>>=◌, >>=-eq-ok, fail_if-eq-ok, Result-cases}
use authd.Db.Tables.{UserRow, GroupRow, Conn, no_user, no_group, in_transaction}
use authd.Db.Users.{user_by_id, insert_or_update_user_by_id}
use authd.Db.Groups.{group_by_id, insert_or_update_group_by_id}
use authd.Db.Update.{
  keep_dir, handle_user_update, handle_group_update, handle_users_to_groups_update,
  handle_groups_update, handle_users_to_local_groups_update, update_in,
}

-- The UID is free or the same user's, and the row is stored with the home directory that it had.
pub handle_user_update_effect :
    (c : Conn) (u : UserRow) (c' : Conn)
    → handle_user_update c u ≡ ok c'
    → (existing : UserRow) × (or_default no_user (user_by_id c u.uid) ≡ ok existing)
      × ((not (existing.name == "") && not (existing.name == u.name)) ≡ false)
      × (insert_or_update_user_by_id c (keep_dir existing u) ≡ ok c')
unfolding handle_user_update
handle_user_update_effect c u c' h =
    let (existing, found, rest) = >>=-eq-ok (or_default no_user (user_by_id c u.uid)) _ c' h in
    let (same, stored) = fail_if-eq-ok _ _ _ c' rest in (existing, found, same, stored)

pub handle_group_update_effect :
    (c : Conn) (g : GroupRow) (c' : Conn)
    → handle_group_update c g ≡ ok c'
    → (existing : GroupRow) × (or_default no_group (group_by_id c g.gid) ≡ ok existing)
      × ((not (existing.ugid == "") && not (existing.ugid == g.ugid)) ≡ false)
      × (insert_or_update_group_by_id c g ≡ ok c')
unfolding handle_group_update
handle_group_update_effect c g c' h =
    let (existing, found, rest) = >>=-eq-ok (or_default no_group (group_by_id c g.gid)) _ c' h in
    let (same, stored) = fail_if-eq-ok _ _ _ c' rest in (existing, found, same, stored)

pub update_in_effect :
    (user : UserRow) (groups : List GroupRow) (local_groups : List String) (c c' : Conn)
    → update_in user groups local_groups c ≡ ok c'
    → (c₁ : Conn) × (c₂ : Conn) × (c₃ : Conn) × (handle_user_update c user ≡ ok c₁)
      × (handle_groups_update c₁ groups ≡ ok c₂)
      × (handle_users_to_groups_update c₂ user.uid groups ≡ ok c₃)
      × (handle_users_to_local_groups_update c₃ user.uid local_groups ≡ ok c')
unfolding update_in
update_in_effect user groups local_groups c c' h =
    let (c₁, e₁, h₁) = >>=-eq-ok (handle_user_update c user) _ c' h in
    let (c₂, e₂, h₂) = >>=-eq-ok (handle_groups_update c₁ groups) _ c' h₁ in
    let (c₃, e₃, h₃) = >>=-eq-ok (handle_users_to_groups_update c₂ user.uid groups) _ c' h₂ in
    (c₁, c₂, c₃, e₁, e₂, e₃, h₃)

-- The body of a transaction that returns only the connection.
pub body-ok :
    (r : Result Conn) (a : Unit {0}) (c' : Conn)
    → ◌>>=◌ {B = Unit {0} × Conn} r (λ tx'. ok (tt, tx')) ≡ ok (a, c')
    → r ≡ ok c'
body-ok (ok tx') a c' h = cc
body-ok (err e) a c' h = cc

module _ {ℓ} {A : Type ℓ} (c : Conn) (body : Conn → Result (A × Conn)) where
  -- A transaction that returns no error has run its body to the end and left the body's tables.
  pub in_transaction-ok :
      (a : A) (c' : Conn) → in_transaction c body ≡ (ok a, c') → body c ≡ ok (a, c')
  unfolding in_transaction
  in_transaction-ok a c' h = ground arith

  -- One that returns an error has left the tables as they were.
  pub in_transaction-err : (e : Error) (c' : Conn) → in_transaction c body ≡ (err e, c') → c ≡ c'
  unfolding in_transaction
  in_transaction-err e c' h = ground arith

  pub in_transaction_cases {κ} :
      (P : Conn → Type κ)
      → P c
      → ((a : A) (c' : Conn) → body c ≡ ok (a, c') → P c')
      → P (in_transaction c body).1
  in_transaction_cases P before after = elim (Result-cases (in_transaction c body).0) [
    | inl (a, e) ↦ after a _ (in_transaction-ok a _ (λ i. (e i, (in_transaction c body).1)))
    | inr (e', e) ↦ subst P (in_transaction-err e' _ (λ i. (e i, (in_transaction c body).1))) before
  ]
