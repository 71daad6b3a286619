-- ===== src/UserManager/Steps.antt =====
-- UpdateUser of internal/users/manager.go, by its stages.
use mathlib.Core.List.{append-nil, append_assoc}
use authd.Prelude.{
  ℕ, String, ◌≡◌, refl, Bool, false, Option, some, List, [], ◌∷◌, ◌++◌, arith, ◌==◌, string_eq,
  Bool-cases, Option-cases, inl, inr, ◌⊎◌, if◌then◌else◌, some-eq, ap, ◌∙◌, sym, subst,
}
use authd.Errors.{Result, ok, err, Result-cases}
use authd.Types.{UserInfo, GroupInfo}
use authd.Db.Tables.{Conn, UserRow, GroupRow, new_group_row}
use authd.Db.Update.{update_user_entry}
use authd.TempEntries.Records.{TemporaryRecords, register_group}
use authd.UserManager.Groups.{
  add_row, Progress, find_group, assign_gid, prepare_group, prepare_groups, private_group_info,
  start,
}
use authd.UserManager.State.{Manager, System, Outcome}
use authd.UserManager.Update.{resolve_uid, update_with, update_user}
use authd.UserManager.Storing.{store, row_for, old_groups}

abbrev pub row_names : List GroupRow → List (String × String)
row_names [] = []
row_names (r ∷ rows) = (r.name, r.ugid) ∷ row_names rows

-- The groups of the broker that go to the database, and those that are local, in their order.
abbrev pub db_groups : List GroupInfo → List (String × String)
db_groups [] = []
db_groups (g ∷ gs) =
    let rest = db_groups gs in if g.ugid == "" then rest else (g.name, g.ugid) ∷ rest

abbrev pub local_groups_of : List GroupInfo → List String
local_groups_of [] = []
local_groups_of (g ∷ gs) =
    let rest = local_groups_of gs in if g.ugid == "" then g.name ∷ rest else rest

row_names-append : (xs ys : List GroupRow) → row_names (xs ++ ys) ≡ row_names xs ++ row_names ys
row_names-append [] ys = refl
row_names-append (x ∷ xs) ys = ap (◌∷◌ (x.name, x.ugid)) (row_names-append xs ys)

-- What one group adds.
abbrev Adds : GroupInfo → Progress → Progress → Type 0
Adds g p p' =
    (row_names p'.rows ≡ row_names p.rows ++ db_groups (g ∷ []))
    × (p'.local_groups ≡ p.local_groups ++ local_groups_of (g ∷ []))

split_first :
    (g : GroupInfo) (gs : List GroupInfo)
    → (db_groups (g ∷ gs) ≡ db_groups (g ∷ []) ++ db_groups gs)
      × (local_groups_of (g ∷ gs) ≡ local_groups_of (g ∷ []) ++ local_groups_of gs)
split_first g gs = ground arith

add_row-Adds :
    (g : GroupInfo) (p : Progress) (gid : ℕ) → (g.ugid == "") ≡ false → Adds g p (add_row p g gid)
unfolding new_group_row
add_row-Adds g p gid remote = (
  row_names-append p.rows (new_group_row g.name gid g.ugid ∷ []) ∙ ground arith,
  ground (arith, append-nil p.local_groups),
)

returned :
    (P : Progress → Type 0) (x y : Progress) (r : Result (Unit {0}))
    → ◌≡◌ {A = Option (Result (Unit {0}) × Progress)} (some (ok tt, x)) (some (r, y))
    → P x
    → P y
returned P x y r h p =
    subst (λ (q : Result (Unit {0}) × Progress). P q.1) (some-eq (ok tt, x) (r, y) h) p

assign_gid-Adds :
    (db : Conn) (sys : System) (g : GroupInfo) (p p' : Progress)
    → (g.ugid == "") ≡ false
    → assign_gid db sys g p ≡ some (ok tt, p')
    → Adds g p p'
unfolding assign_gid
assign_gid-Adds db sys g p p' remote h = elim (Result-cases (find_group db g)) [
  | inl (old, found) ↦
      returned (Adds g p) (add_row p g old.gid) p' (ok tt) (ground arith)
        (add_row-Adds g p old.gid remote)
  | inr (e, missing) ↦
      elim (Option-cases (register_group p.records g.name (sys.group_attempts g.name))) [
        | inl running ↦ ground arith
        | inr ((err e', records), registered) ↦ ground arith
        | inr ((ok gid, records), registered) ↦
            let q = add_row (record p { records = records; gids = gid ∷ p.gids }) g gid in
            returned (Adds g p) q p' (ok tt) (ground arith)
              (add_row-Adds g (record p { records = records; gids = gid ∷ p.gids }) gid remote)
      ]
]

prepare_group-Adds :
    (db : Conn) (sys : System) (g : GroupInfo) (p p' : Progress)
    → prepare_group db sys g p ≡ some (ok tt, p')
    → Adds g p p'
unfolding prepare_group
prepare_group-Adds db sys g p p' h = elim (Bool-cases (g.ugid == "")) [
  | inl local ↦
      returned (Adds g p) (record p { local_groups = p.local_groups ++ g.name ∷ [] }) p' (ok tt)
        (ground arith) (ground (arith, append-nil (row_names p.rows)), ground arith)
  | inr remote ↦ assign_gid-Adds db sys g p p' remote (ground arith)
]

-- Without an error the loop has a row for each group that is not local, and each local group's name.
pub prepare_groups-Adds :
    (db : Conn) (sys : System) (gs : List GroupInfo) (p p' : Progress)
    → prepare_groups db sys gs p ≡ some (ok tt, p')
    → (row_names p'.rows ≡ row_names p.rows ++ db_groups gs)
      × (p'.local_groups ≡ p.local_groups ++ local_groups_of gs)
unfolding prepare_groups
prepare_groups-Adds db sys [] p p' h =
    returned
      (λ q. (row_names q.rows ≡ row_names p.rows ++ []) × (q.local_groups ≡ p.local_groups ++ [])) p
      p' (ok tt) h (sym (append-nil _), sym (append-nil _))
prepare_groups-Adds db sys (g ∷ gs) p p' h = elim (Option-cases (prepare_group db sys g p)) [
  | inl running ↦ ground arith
  | inr ((err e, q), first) ↦ ground arith
  | inr ((ok _, q), first) ↦
      let one = prepare_group-Adds db sys g p q first in
      let rest = prepare_groups-Adds db sys gs q p' (ground arith) in
      (
        rest.0
            ∙ (ap (λ xs. xs ++ db_groups gs) one.0
                ∙ (append_assoc (row_names p.rows) (db_groups (g ∷ [])) (db_groups gs)
                    ∙ ap (λ xs. row_names p.rows ++ xs) (sym (split_first g gs).0))),
        rest.1
            ∙ (ap (λ xs. xs ++ local_groups_of gs) one.1
                ∙ (append_assoc p.local_groups (local_groups_of (g ∷ [])) (local_groups_of gs)
                    ∙ ap (λ xs. p.local_groups ++ xs) (sym (split_first g gs).1))),
      )
]

-- What a call of UpdateUser that succeeds went through.
pub record Succeeded (m : Manager) (sys : System) (u : UserInfo) (o : Outcome) : Type 0 where
  pub uid : ℕ
  pub registered : Bool
  pub records : TemporaryRecords
  pub progress : Progress
  pub resolved : resolve_uid m sys u.name ≡ some (ok (uid, registered), records)
  pub prepared :
      prepare_groups m.db sys (private_group_info u.name ∷ u.groups) (start records)
      ≡ some (ok tt, progress)
  pub stored : (store m.db sys u uid progress.rows progress.local_groups).0 ≡ ok tt
  pub db : (store m.db sys u uid progress.rows progress.local_groups).1 ≡ o.manager.db

update_with-Succeeded :
    (m : Manager) (sys : System) (u : UserInfo) (uid : ℕ) (registered : Bool)
    (records : TemporaryRecords) (o : Outcome)
    → resolve_uid m sys u.name ≡ some (ok (uid, registered), records)
    → update_with m sys u uid registered records ≡ some o
    → o.result ≡ ok tt
    → Succeeded m sys u o
unfolding update_with
update_with-Succeeded m sys u uid registered records o resolved h good =
    elim (Option-cases
      (prepare_groups m.db sys (private_group_info u.name ∷ u.groups) (start records))) [
        | inl running ↦ ground arith
        | inr ((err e, p), prepared) ↦ ground arith
        | inr ((ok _, p), prepared) ↦ record {
          uid = uid;
          registered = registered;
          records = records;
          progress = p;
          resolved = resolved;
          prepared = prepared;
          stored = ground arith;
          db = ground arith;
        }
      ]

pub update_user-Succeeded :
    (m : Manager) (sys : System) (u : UserInfo) (o : Outcome)
    → update_user m sys u ≡ some o
    → o.result ≡ ok tt
    → Succeeded m sys u o
unfolding update_user
update_user-Succeeded m sys u o h good = elim (Option-cases (resolve_uid m sys u.name)) [
  | inl running ↦ ground arith
  | inr ((err e, records), resolved) ↦ ground arith
  | inr ((ok (uid, registered), records), resolved) ↦
      update_with-Succeeded m sys u uid registered records o resolved (ground arith) good
]

-- The tables after any call are those before it, or those that UpdateUserEntry left.
pub store_db :
    (db : Conn) (sys : System) (u : UserInfo) (uid : ℕ) (rows : List GroupRow)
    (local_groups : List String)
    → (db ≡ (store db sys u uid rows local_groups).1)
      ⊎ ((row : UserRow) × ((update_user_entry db row rows local_groups).1
            ≡ (store db sys u uid rows local_groups).1))
unfolding store
store_db db sys u uid rows local_groups = elim (Result-cases (old_groups db uid rows)) [
  | inl ((old, g), e) ↦ inr (
    row_for u uid g,
    ground (arith, Result-cases (update_user_entry db (row_for u uid g) rows local_groups).0),
  )
  | inr (e', e) ↦ inl (ground arith)
]
