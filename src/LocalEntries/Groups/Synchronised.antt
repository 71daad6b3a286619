-- ===== src/LocalEntries/Groups/Synchronised.antt =====
-- What the calls that Update of internal/users/localentries/localgroups.go makes do to a user's groups.
use authd.Prelude.{
  if◌then◌else◌, String, false, All, ◌≡◌, refl, not, ◌&&◌, ◌||◌, List, [], ◌∷◌, ◌++◌, arith, ◌==◌,
  string_eq, contains, select, any-append, ◌∙◌, ap, eq_iff, subst, sym,
}
use authd.Errors.{Result, ok, err, ◌>>=◌}
use authd.SliceUtils.{difference, difference-intersection_mem}
use authd.LocalEntries.Groups.{
  Op, Exit, add, delete, code, run_gpasswd, run_all, existing_local_groups, ops_of,
  groups_to_remove, planned, update,
}

-- What a call of gpasswd that succeeds does to the groups of a user: nothing, if it is about another.
abbrev pub apply : String → Op → List String → List String
apply who (add user g) groups = if user == who then groups ++ g ∷ [] else groups
apply who (delete user g) groups = if user == who then select (λ h. not (h == g)) groups else groups

-- the groups of a user after all the calls
abbrev pub after : String → List Op → List String → List String
after who [] groups = groups
after who (op ∷ ops) groups = after who ops (apply who op groups)

after-append :
    (who : String) (xs ys : List Op) (groups : List String)
    → after who (xs ++ ys) groups ≡ after who ys (after who xs groups)
after-append who [] ys groups = refl
after-append who (x ∷ xs) ys groups = after-append who xs ys (apply who x groups)

contains-drop :
    (g x : String) (groups : List String)
    → contains (select (λ h. not (h == g)) groups) x ≡ (contains groups x && not (g == x))
contains-drop g x [] = refl
contains-drop g x (h ∷ groups) =
    ground (arith, contains-drop g x groups, eq_iff h g, eq_iff h x, eq_iff g x)

after_deletes :
    (user : String) (gs groups : List String) (x : String)
    → contains (after user (ops_of (delete user) gs) groups) x
      ≡ (contains groups x && not (contains gs x))
after_deletes user [] groups x = ground arith
after_deletes user (g ∷ gs) groups x = ground (
  arith,
  eq_iff user user,
  after_deletes user gs (select (λ h. not (h == g)) groups) x,
  contains-drop g x groups,
)

after_adds :
    (user : String) (gs groups : List String) (x : String)
    → contains (after user (ops_of (add user) gs) groups) x ≡ (contains groups x || contains gs x)
after_adds user [] groups x = ground arith
after_adds user (g ∷ gs) groups x = ground (
  arith,
  eq_iff user user,
  after_adds user gs (groups ++ g ∷ []) x,
  any-append (λ h. h == x) groups (g ∷ []),
)

other_deletes :
    (user other : String) (gs groups : List String)
    → (user == other) ≡ false
    → after other (ops_of (delete user) gs) groups ≡ groups
other_deletes user other [] groups h = refl
other_deletes user other (g ∷ gs) groups h = ground (arith, other_deletes user other gs groups h)

other_adds :
    (user other : String) (gs groups : List String)
    → (user == other) ≡ false
    → after other (ops_of (add user) gs) groups ≡ groups
other_adds user other [] groups h = refl
other_adds user other (g ∷ gs) groups h = ground (arith, other_adds user other gs groups h)

run_all_ok :
    (gpasswd : Op → Exit) (ops : List Op)
    → ((op : Op) → gpasswd op ≡ code 0)
    → run_all gpasswd ops ≡ (ok tt, ops)
unfolding run_all run_gpasswd
run_all_ok gpasswd [] works = refl
run_all_ok gpasswd (op ∷ ops) works = ground (arith, works op, run_all_ok gpasswd ops works)

after-planned :
    (user : String) (new old current : List String) (x : String)
    → contains (after user (planned user new old current) current) x
      ≡ (contains new x || (contains current x && not (contains old x)))
unfolding planned
after-planned user new old current x =
    let removed = groups_to_remove new old current in
    let kept = after user (ops_of (delete user) removed) current in
    ground (
      arith,
      ap (λ gs. contains gs x)
          (after-append user (ops_of (delete user) removed)
            (ops_of (add user) (difference new current)) current),
      after_adds user (difference new current) kept x,
      after_deletes user removed current x,
      difference-intersection_mem (difference old new) current x,
      difference-intersection_mem old new x,
      difference-intersection_mem new current x,
    )

other_users-planned :
    (user other : String) (new old current groups : List String)
    → (user == other) ≡ false
    → after other (planned user new old current) groups ≡ groups
unfolding planned
other_users-planned user other new old current groups h =
    let removed = groups_to_remove new old current in
    let deletes = ops_of (delete user) removed in
    let adds = ops_of (add user) (difference new current) in
    after-append other deletes adds groups
    ∙ (ap (after other adds) (other_deletes user other removed groups h)
        ∙ other_adds user other (difference new current) groups h)

-- Where /etc/group can be read and parsed and every call of gpasswd exits with 0, Update succeeds; after
-- its calls, the user is in exactly the new groups and those of the present groups that are not among
-- the old ones, and any other user is in the groups of before.
pub update_synchronises :
    (gpasswd : Op → Exit) (file : Result (List String)) (user : String)
    (new old current : List String) (other : String) (groups : List String)
    → ((op : Op) → gpasswd op ≡ code 0)
    → (file >>= existing_local_groups user) ≡ ok current
    → (user == other) ≡ false
    → ((update gpasswd file user new old).0 ≡ ok tt)
      × ((x : String)
          → contains (after user (update gpasswd file user new old).1 current) x
            ≡ (contains new x || (contains current x && not (contains old x))))
      × (after other (update gpasswd file user new old).1 groups ≡ groups)
unfolding update
update_synchronises gpasswd file user new old current other groups works read differ =
    let ran : update gpasswd file user new old ≡ (ok tt, planned user new old current) =
      ground (arith, run_all_ok gpasswd (planned user new old current) works) in
    (
      ap (λ (r : Result (Unit {0}) × List Op). r.0) ran,
      λ x.
          ap (λ (r : Result (Unit {0}) × List Op). contains (after user r.1 current) x) ran
          ∙ after-planned user new old current x,
      ap (λ (r : Result (Unit {0}) × List Op). after other r.1 groups) ran
          ∙ other_users-planned user other new old current groups differ,
    )

abbrev pub IsAdd : Op → Type 0
IsAdd (add _ _) = Unit {0}
IsAdd (delete _ _) = ⊥

adds_only : (user : String) (gs : List String) → All IsAdd (ops_of (add user) gs)
adds_only user [] = tt
adds_only user (g ∷ gs) = (tt, adds_only user gs)

contains_none : (xs : List String) → ((x : String) → contains xs x ≡ false) → xs ≡ []
contains_none [] h = refl
contains_none (x ∷ xs) h = ground (arith, h x, eq_iff x x)

none_to_remove : (gs current : List String) → groups_to_remove gs gs current ≡ []
none_to_remove gs current = contains_none (groups_to_remove gs gs current) λ x. ground (
  arith,
  difference-intersection_mem (difference gs gs) current x,
  difference-intersection_mem gs gs x,
)

-- The calls made are the first ones of those planned.
step-All :
    (P : Op → Type 0) (r : Result (Unit {0})) (op : Op) (rest : Result (Unit {0}) × List Op)
    → P op
    → All P rest.1
    → All P
        (elim r as (λ _. Result (Unit {0}) × List Op) [
          | ok _ ↦ (rest.0, op ∷ rest.1)
          | err e ↦ (err e, op ∷ [])
        ]).1
step-All P (ok _) op rest p h = (p, h)
step-All P (err e) op rest p h = (p, tt)

run_all-All :
    (P : Op → Type 0) (gpasswd : Op → Exit) (ops : List Op)
    → All P ops
    → All P (run_all gpasswd ops).1
unfolding run_all
run_all-All P gpasswd [] h = tt
run_all-All P gpasswd (op ∷ ops) h =
    step-All P (run_gpasswd gpasswd op) op (run_all gpasswd ops) h.0 (run_all-All P gpasswd ops h.1)

update_result-All :
    (P : Op → Type 0) (gpasswd : Op → Exit) (user : String) (new old : List String)
    (r : Result (List String))
    → ((current : List String) → All P (planned user new old current))
    → All P
        (elim r as (λ _. Result (Unit {0}) × List Op) [
          | err e ↦ (err e, [])
          | ok current ↦ run_all gpasswd (planned user new old current)
        ]).1
update_result-All P gpasswd user new old (err e) h = tt
update_result-All P gpasswd user new old (ok current) h = run_all-All P gpasswd _ (h current)

-- Where the old groups are the new ones, Update makes no call that deletes, whatever /etc/group says
-- and however its calls end: a group that an earlier call failed to delete is not deleted later.
pub update_again_never_deletes :
    (gpasswd : Op → Exit) (file : Result (List String)) (user : String) (groups : List String)
    → All IsAdd (update gpasswd file user groups groups).1
unfolding update planned
update_again_never_deletes gpasswd file user groups =
    update_result-All IsAdd gpasswd user groups groups (file >>= existing_local_groups user)
      λ current.
        subst
          (λ removed.
            All IsAdd
              (ops_of (delete user) removed ++ ops_of (add user) (difference groups current)))
          (sym (none_to_remove groups current)) (adds_only user (difference groups current))
