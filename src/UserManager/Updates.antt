-- ===== src/UserManager/Updates.antt =====
-- UpdateUser of internal/users/manager.go, as a whole.
use authd.Prelude.{
  ℕ, String, ◌≡◌, Bool, some, List, [], ◌∷◌, arith, find, ◌==◌, nat_eq, string_eq, Bool-cases,
  Option-cases, inl, inr, ◌⊎◌, ap, ◌∙◌, sym, subst,
}
use authd.Errors.{ok, err, Result-cases, or_default, ok-eq}
use authd.Types.{UserInfo}
use authd.Db.Tables.{Conn, UserRow, GroupRow, no_user, new_user_row}
use authd.Db.Users.{user_by_id, user_by_name, has_uid}
use authd.Db.Memberships.{user_local_groups}
use authd.Db.Invariant.{IsWellFormed, Good}
use authd.TempEntries.Records.{TemporaryRecords}
use authd.Db.Update.{update_user_entry, keep_dir}
use authd.Db.WellFormed.Update.{update_user_entry-IsWellFormed}
use authd.Db.Stored.Entry.{IsStored, update_user_entry-IsStored}
use authd.UserManager.State.{Manager, System, Outcome}
use authd.UserManager.Update.{resolve_uid, update_with, update_user}
use authd.UserManager.Groups.{prepare_groups, private_group_info, start}
use authd.UserManager.Storing.{store, row_for, old_groups, first_row}
use authd.UserManager.Steps.{
  row_names, db_groups, local_groups_of, prepare_groups-Adds, update_user-Succeeded, store_db,
}

store-Good :
    (db : Conn) (sys : System) (u : UserInfo) (uid : ℕ) (rows : List GroupRow)
    (local_groups : List String)
    → Good db
    → Good (store db sys u uid rows local_groups).1
store-Good db sys u uid rows local_groups w = elim (store_db db sys u uid rows local_groups) [
  | inl same ↦ subst Good same w
  | inr (row, same) ↦ subst Good same (update_user_entry-IsWellFormed db row rows local_groups w)
]

-- The database after a call is that before it, or that of the writes.
update_with_db :
    (m : Manager) (sys : System) (u : UserInfo) (uid : ℕ) (registered : Bool)
    (records : TemporaryRecords) (o : Outcome)
    → update_with m sys u uid registered records ≡ some o
    → (m.db ≡ o.manager.db)
      ⊎ ((rows : List GroupRow) × (local_groups : List String) × ((store m.db sys u uid rows
              local_groups).1
            ≡ o.manager.db))
unfolding update_with
update_with_db m sys u uid registered records o h =
    elim (Option-cases
      (prepare_groups m.db sys (private_group_info u.name ∷ u.groups) (start records))) [
        | inl running ↦ ground arith
        | inr ((err e, p), prepared) ↦ inl (ground arith)
        | inr ((ok _, p), prepared) ↦ inr (p.rows, p.local_groups, ground arith)
      ]

update_user_db :
    (m : Manager) (sys : System) (u : UserInfo) (o : Outcome)
    → update_user m sys u ≡ some o
    → (m.db ≡ o.manager.db)
      ⊎ ((uid : ℕ) × (rows : List GroupRow) × (local_groups : List String) × ((store m.db sys u uid
              rows local_groups).1
            ≡ o.manager.db))
unfolding update_user
update_user_db m sys u o h = elim (Option-cases (resolve_uid m sys u.name)) [
  | inl running ↦ inl (ground arith)
  | inr ((err e, records), resolved) ↦ inl (ground arith)
  | inr ((ok (uid, registered), records), resolved) ↦ elim (Bool-cases (u.name == "")) [
    | inl empty ↦ inl (ground arith)
    | inr named ↦ elim (update_with_db m sys u uid registered records o (ground arith)) [
      | inl same ↦ inl same
      | inr (rows, local_groups, same) ↦ inr (uid, rows, local_groups, same)
    ]
  ]
]

-- UpdateUser keeps the database well-formed, whatever it returns and wherever it stops: with an error
-- of the user, of a group, of the database, of the local groups or of the home directory, or with
-- success.
pub update_user-IsWellFormed :
    (m : Manager) (sys : System) (u : UserInfo) (o : Outcome)
    → IsWellFormed m.db.tables
    → update_user m sys u ≡ some o
    → IsWellFormed o.manager.db.tables
update_user-IsWellFormed m sys u o w h = elim (update_user_db m sys u o h) [
  | inl same ↦ subst Good same w
  | inr (uid, rows, local_groups, same) ↦
      subst Good same (store-Good m.db sys u uid rows local_groups w)
]

first_row-ok :
    (rows : List GroupRow) (g : GroupRow)
    → first_row rows ≡ ok g
    → (gs : List GroupRow) × (rows ≡ g ∷ gs)
first_row-ok [] g h = cc
first_row-ok (x ∷ gs) g h = (gs, ap (λ y. y ∷ gs) (ok-eq x g h))

old_groups-first :
    (db : Conn) (uid : ℕ) (rows : List GroupRow) (old : List String) (g : GroupRow)
    → old_groups db uid rows ≡ ok (old, g)
    → first_row rows ≡ ok g
old_groups-first db uid rows old g h =
    ground (arith, Result-cases (user_local_groups db uid), Result-cases (first_row rows))

-- What the writes did where they succeeded.
store_succeeded :
    (db : Conn) (sys : System) (u : UserInfo) (uid : ℕ) (rows : List GroupRow)
    (local_groups : List String) (db' : Conn)
    → (store db sys u uid rows local_groups).0 ≡ ok tt
    → (store db sys u uid rows local_groups).1 ≡ db'
    → (g : GroupRow) × (first_row rows ≡ ok g)
      × (update_user_entry db (row_for u uid g) rows local_groups ≡ (ok tt, db'))
unfolding store
store_succeeded db sys u uid rows local_groups db' good same =
    elim (Result-cases (old_groups db uid rows)) [
      | inr (e', e) ↦ ground arith
      | inl ((old, g), e) ↦ (
        g,
        old_groups-first db uid rows old g e,
        elim (Result-cases (update_user_entry db (row_for u uid g) rows local_groups).0) [
          | inl (_, kept) ↦ ground arith
          | inr (_, refused) ↦ ground arith
        ],
      )
    ]

-- The UID of a user that the database has is kept.
resolve_uid-known :
    (m : Manager) (sys : System) (name : String) (old : UserRow) (uid : ℕ) (registered : Bool)
    (records : TemporaryRecords)
    → user_by_name m.db name ≡ ok old
    → resolve_uid m sys name ≡ some (ok (uid, registered), records)
    → uid ≡ old.uid
unfolding resolve_uid
resolve_uid-known m sys name old uid registered records known h = ground arith

-- What the database says after UpdateUser succeeded: under some UID, the one that it had for the name
-- if it knew the name, stands the row made from the user info, and the user's groups and local groups
-- are those of the user info.
pub record IsUpdated (m : Manager) (u : UserInfo) (m' : Manager) : Type 0 where
  pub uid : ℕ
  pub existing : UserRow
  pub private_group : GroupRow
  pub groups : List GroupRow
  pub local_groups : List String
  pub keeps_uid : (old : UserRow) → user_by_name m.db u.name ≡ ok old → uid ≡ old.uid
  pub group_names :
      row_names (private_group ∷ groups) ≡ db_groups (private_group_info u.name ∷ u.groups)
  pub local_group_names : local_groups ≡ local_groups_of (private_group_info u.name ∷ u.groups)
  pub existed : or_default no_user (user_by_id m.db uid) ≡ ok existing
  pub stored :
      IsStored m.db m'.db uid
        (keep_dir existing (row_for u uid private_group))
        (private_group ∷ groups)
        local_groups

-- Where UpdateUser succeeds, the database has the user with the name, GECOS, home directory and shell
-- of the user info, the home directory of before if there was one, and with the UID of before if the
-- name was known; the groups that it gives for the user are, in whatever order it chooses, the private
-- group and the groups of the info that have a UGID, and the local groups those that have none; other
-- users' rows and memberships are as they were.
pub update_user_stored :
    (m : Manager) (sys : System) (u : UserInfo) (o : Outcome)
    → update_user m sys u ≡ some o
    → o.result ≡ ok tt
    → IsUpdated m u o.manager
unfolding new_user_row
update_user_stored m sys u o h good =
    let s = update_user-Succeeded m sys u o h good in
    let (g, first, written) =
      store_succeeded m.db sys u s.uid s.progress.rows s.progress.local_groups o.manager.db s.stored
        s.db in
    let (gs, shape) = first_row-ok s.progress.rows g first in
    let (named, locals) = prepare_groups-Adds m.db sys _ (start s.records) s.progress s.prepared in
    let (existing, existed, stored) =
      update_user_entry-IsStored m.db o.manager.db (row_for u s.uid g) g gs s.progress.local_groups
        (ap (λ rows. update_user_entry m.db (row_for u s.uid g) rows s.progress.local_groups)
            (sym shape)
          ∙ written) in
    record {
      uid = s.uid;
      existing = existing;
      private_group = g;
      groups = gs;
      local_groups = s.progress.local_groups;
      keeps_uid = λ old known.
          resolve_uid-known m sys u.name old s.uid s.registered s.records known s.resolved;
      group_names = ap row_names (sym shape) ∙ named;
      local_group_names = locals;
      existed = existed;
      stored = stored;
    }

keep_dir-broker :
    (existing : UserRow) (u : UserInfo) (uid : ℕ) (g : GroupRow)
    → (keep_dir existing (row_for u uid g)).broker_id ≡ ""
unfolding new_user_row
keep_dir-broker existing u uid g = ground arith

-- Where UpdateUser succeeds for a user whose name the database has, the row under the user's UID has no
-- broker, whichever broker it had.
pub update_user_clears_broker :
    (m : Manager) (sys : System) (u : UserInfo) (o : Outcome) (old : UserRow)
    → user_by_name m.db u.name ≡ ok old
    → update_user m sys u ≡ some o
    → o.result ≡ ok tt
    → (row : UserRow) × (find (has_uid old.uid) o.manager.db.users ≡ some row)
      × (row.broker_id ≡ "")
update_user_clears_broker m sys u o old known h good =
    let s = update_user_stored m sys u o h good in
    (
      keep_dir s.existing (row_for u s.uid s.private_group),
      ap (λ k. find (has_uid k) o.manager.db.users) (sym (s.keeps_uid old known)) ∙ s.stored.user,
      keep_dir-broker s.existing u s.uid s.private_group,
    )
