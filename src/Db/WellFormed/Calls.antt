-- ===== src/Db/WellFormed/Calls.antt =====
-- The calls of internal/users/db that change the tables, one after another.
use authd.Prelude.{
  ℕ, String, Bool, ◌≡◌, refl, true, false, not, List, [], ◌∷◌, arith, ◌==◌, nat_eq, string_eq, any,
  select, All, All-select, All-imp, Unique, Unique-select, inl, inr, Bool-cases, subst, sym, ◌∙◌,
}
use authd.Errors.{ok}
use authd.Db.Tables.{
  UserRow, GroupRow, UserToGroupRow, UserToLocalGroupRow, Conn, delete_user_stmt,
  update_broker_stmt, empty_tables,
}
use authd.Db.Users.{has_uid, has_name, delete_user, set_broker, update_broker_for_user}
use authd.Db.Memberships.{remove_user_from_group}
use authd.Db.Update.{update_user_entry}
use authd.Db.Invariant.{IsWellFormed, Good, UserExists, same_membership, same_local_membership}
use authd.Db.WellFormed.Memberships.{remove_user_from_group-IsWellFormed}
use authd.Db.WellFormed.Update.{update_user_entry-IsWellFormed}

-- An element that stays when others are deleted.
kept_exists :
    (us : List UserRow) (uid k : ℕ)
    → any (has_uid k) us ≡ true
    → (k == uid) ≡ false
    → any (has_uid k) (select (λ u. not (has_uid uid u)) us) ≡ true
kept_exists [] uid k h other = ground arith
kept_exists (u ∷ us) uid k h other = ground (arith, kept_exists us uid k)

-- the memberships that stay have their user
members_kept :
    (us : List UserRow) (uid : ℕ) (ms : List UserToGroupRow)
    → All (λ (m : UserToGroupRow). UserExists us m.uid) ms
    → All
        (λ (m : UserToGroupRow). UserExists (select (λ u. not (has_uid uid u)) us) m.uid)
        (select (λ m. not (m.uid == uid)) ms)
members_kept us uid [] h = tt
members_kept us uid (m ∷ ms) h = elim (Bool-cases (m.uid == uid)) [
  | inl gone ↦ rw gone (members_kept us uid ms h.1)
  | inr stays ↦ rw stays (kept_exists us uid m.uid h.0 stays, members_kept us uid ms h.1)
]

local_members_kept :
    (us : List UserRow) (uid : ℕ) (ms : List UserToLocalGroupRow)
    → All (λ (m : UserToLocalGroupRow). UserExists us m.uid) ms
    → All
        (λ (m : UserToLocalGroupRow). UserExists (select (λ u. not (has_uid uid u)) us) m.uid)
        (select (λ m. not (m.uid == uid)) ms)
local_members_kept us uid [] h = tt
local_members_kept us uid (m ∷ ms) h = elim (Bool-cases (m.uid == uid)) [
  | inl gone ↦ rw gone (local_members_kept us uid ms h.1)
  | inr stays ↦ rw stays (kept_exists us uid m.uid h.0 stays, local_members_kept us uid ms h.1)
]

delete_user-IsWellFormed : (c : Conn) (uid : ℕ) → Good c → Good (delete_user c uid).1
unfolding delete_user
delete_user-IsWellFormed c uid w = elim (Bool-cases (c.fails delete_user_stmt c.tables)) [
  | inl refused ↦ rw (refused, delete_user) w
  | inr run ↦
      rw (run, delete_user)
        (record {
          uids = Unique-select _ (λ u. not (has_uid uid u)) c.users w.uids;
          names = Unique-select _ (λ u. not (has_uid uid u)) c.users w.names;
          gids = w.gids;
          group_names = w.group_names;
          ugids = w.ugids;
          memberships = Unique-select same_membership _ c.users_to_groups w.memberships;
          local_memberships =
              Unique-select same_local_membership _ c.users_to_local_groups w.local_memberships;
          members_exist = members_kept c.users uid c.users_to_groups w.members_exist;
          groups_exist = All-select _ _ c.users_to_groups w.groups_exist;
          local_members_exist =
              local_members_kept c.users uid c.users_to_local_groups w.local_members_exist;
        })
]

-- A broker's ID is no key.
any-set_broker :
    (name broker_id : String) (p : UserRow → Bool) (us : List UserRow)
    → ((u : UserRow) → p (record u { broker_id = broker_id }) ≡ p u)
    → any p (set_broker name broker_id us) ≡ any p us
any-set_broker name broker_id p [] h = refl
any-set_broker name broker_id p (u ∷ us) h =
    ground (arith, h u, any-set_broker name broker_id p us h)

any_same :
    (p q : UserRow → Bool) (us : List UserRow) → ((u : UserRow) → p u ≡ q u) → any p us ≡ any q us
any_same p q [] h = refl
any_same p q (u ∷ us) h = ground (arith, h u, any_same p q us h)

abbrev AlikeRows : (UserRow → UserRow → Bool) → String → Type 0
AlikeRows same broker_id =
    (u v : UserRow)
    → (same (record u { broker_id = broker_id }) v ≡ same u v)
      × (same v (record u { broker_id = broker_id }) ≡ same v u)

Unique-set_broker :
    (name broker_id : String) (same : UserRow → UserRow → Bool) (us : List UserRow)
    → AlikeRows same broker_id
    → Unique same us
    → Unique same (set_broker name broker_id us)
Unique-set_broker name broker_id same [] alike h = tt
Unique-set_broker name broker_id same (u ∷ us) alike h =
    let kept = any-set_broker name broker_id (λ v. same v u) us (λ v. (alike v u).0) in
    let changed =
      any-set_broker name broker_id (λ v. same v (record u { broker_id = broker_id })) us
        (λ v. (alike v (record u { broker_id = broker_id })).0) in
    (
      elim (Bool-cases (has_name name u)) [
        | inl is ↦ ground (
          arith,
          changed,
          any_same (λ v. same v (record u { broker_id = broker_id })) (λ v. same v u) us
              (λ v. (alike u v).1),
          h.0,
        )
        | inr other ↦ ground (arith, kept, h.0)
      ],
      Unique-set_broker name broker_id same us alike h.1,
    )

update_broker-IsWellFormed :
    (c : Conn) (username broker_id : String)
    → Good c
    → Good (update_broker_for_user c username broker_id).1
unfolding update_broker_for_user
update_broker-IsWellFormed c username broker_id w =
    elim (Bool-cases (c.fails update_broker_stmt c.tables)) [
      | inl refused ↦ rw (refused, update_broker_for_user) w
      | inr run ↦
          rw (run, update_broker_for_user)
            (record {
              uids = Unique-set_broker username broker_id _ c.users (λ u v. (refl, refl)) w.uids;
              names = Unique-set_broker username broker_id _ c.users (λ u v. (refl, refl)) w.names;
              gids = w.gids;
              group_names = w.group_names;
              ugids = w.ugids;
              memberships = w.memberships;
              local_memberships = w.local_memberships;
              members_exist =
                  All-imp _ _ c.users_to_groups
                    (λ m h.
                      any-set_broker username broker_id (has_uid m.uid) c.users (λ u. refl) ∙ h)
                    w.members_exist;
              groups_exist = w.groups_exist;
              local_members_exist =
                  All-imp _ _ c.users_to_local_groups
                    (λ m h.
                      any-set_broker username broker_id (has_uid m.uid) c.users (λ u. refl) ∙ h)
                    w.local_members_exist;
            })
    ]

-- One call that may change the tables, with whatever result.
pub data Call : Conn → Conn → Type 0 where
  update_entry :
      (c : Conn) (u : UserRow) (groups : List GroupRow) (local_groups : List String)
      → Call c (update_user_entry c u groups local_groups).1
  update_broker :
      (c : Conn) (username broker_id : String)
      → Call c (update_broker_for_user c username broker_id).1
  delete : (c : Conn) (uid : ℕ) → Call c (delete_user c uid).1
  leave_group : (c c' : Conn) (uid gid : ℕ) → remove_user_from_group c uid gid ≡ ok c' → Call c c'

pub data Calls (start : Conn) : Conn → Type 0 where
  none_yet : Calls start start
  then_call : {c c' : Conn} → Calls start c → Call c c' → Calls start c'

Call-Good : (c c' : Conn) → Call c c' → Good c → Good c'
Call-Good c _ (update_entry _ u groups local_groups) w =
    update_user_entry-IsWellFormed c u groups local_groups w
Call-Good c _ (update_broker _ username broker_id) w =
    update_broker-IsWellFormed c username broker_id w
Call-Good c _ (delete _ uid) w = delete_user-IsWellFormed c uid w
Call-Good c c' (leave_group _ _ uid gid h) w = remove_user_from_group-IsWellFormed c uid gid c' h w

Calls-Good : (start c : Conn) → Calls start c → Good start → Good c
Calls-Good start _ none_yet w = w
Calls-Good start c (then_call before call) w = Call-Good _ c call (Calls-Good start _ before w)

-- From empty tables, whatever the calls that update an entry, set a broker, delete a user or take one
-- out of a group, and wherever they fail: no two users share a UID or a name, no two groups a GID, a name
-- or a UGID, no membership stands twice, and each is that of a stored user, in a stored group.
pub Calls-IsWellFormed :
    (start c : Conn) → start.tables ≡ empty_tables → Calls start c → IsWellFormed c.tables
Calls-IsWellFormed start c empty calls = Calls-Good start c calls (
    subst IsWellFormed (sym empty) (record {
      uids = tt;
      names = tt;
      gids = tt;
      group_names = tt;
      ugids = tt;
      memberships = tt;
      local_memberships = tt;
      members_exist = tt;
      groups_exist = tt;
      local_members_exist = tt;
    }))
