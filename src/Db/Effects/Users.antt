-- ===== src/Db/Effects/Users.antt =====
-- The statements of internal/users/db/users.go.
use authd.Prelude.{
  ℕ, ◌≡◌, true, false, ◌||◌, ◌⊎◌, [], ◌∷◌, ◌++◌, arith, nat_eq, string_eq, any, find, replace, some,
  Bool-cases, inl, inr, any-false_right,
}
use authd.Errors.{ok}
use authd.Db.Tables.{UserRow, Conn, with_users}
use authd.Db.Users.{
  has_uid, has_name, name_taken, insert_user, update_user_by_id, user_exists, user_by_id,
  insert_or_update_user_by_id,
}

pub insert_user_effect :
    (c : Conn) (u : UserRow) (c' : Conn)
    → insert_user c u ≡ ok c'
    → (any (has_uid u.uid) c.users ≡ false)
      × (any (has_name u.name) c.users ≡ false)
      × (with_users c (c.users ++ u ∷ []) ≡ c')
unfolding insert_user
insert_user_effect c u c' h = ground arith

pub update_user_effect :
    (c : Conn) (u : UserRow) (c' : Conn)
    → update_user_by_id c u ≡ ok c'
    → ((any (has_uid u.uid) c.users ≡ false) ⊎ (any (name_taken u) c.users ≡ false))
      × (with_users c (replace (has_uid u.uid) u c.users) ≡ c')
unfolding update_user_by_id
update_user_effect c u c' h = ground arith

-- The row is added, or it replaces the row with its UID.
pub upsert_user_effect :
    (c : Conn) (u : UserRow) (c' : Conn)
    → insert_or_update_user_by_id c u ≡ ok c'
    → ((any (has_uid u.uid) c.users ≡ false) × (insert_user c u ≡ ok c'))
      ⊎ ((any (λ r. has_name u.name r || has_uid u.uid r) c.users ≡ true)
          × (update_user_by_id c u ≡ ok c'))
unfolding insert_or_update_user_by_id user_exists
upsert_user_effect c u c' h =
    elim (Bool-cases (any (λ r. has_name u.name r || has_uid u.uid r) c.users)) [
      | inl there ↦ inr (there, ground arith)
      | inr absent ↦
          inl (any-false_right (has_name u.name) (has_uid u.uid) c.users absent, ground arith)
    ]

-- The row with the UID, if there is one: what the steps of an update look for.
pub user_by_id_effect :
    (c : Conn) (uid : ℕ) (u : UserRow)
    → user_by_id c uid ≡ ok u
    → find (has_uid uid) c.users ≡ some u
unfolding user_by_id
user_by_id_effect c uid u h = ground arith
