-- ===== src/LocalEntries/Groups.antt =====
-- internal/users/localentries/localgroups.go. The lines of /etc/group and the exit codes of gpasswd are
-- inputs; the calls of gpasswd that were made come back with the result.
pub mod Synchronised
pub mod Cleaned
use authd.Prelude.{
  ℕ, String, Bool, true, false, not, Option, none, some, List, [], ◌∷◌, ◌++◌, ◌==◌, string_eq,
  nat_eq, contains, any, length, if◌then◌else◌,
}
use authd.Errors.{
  Result, ok, err, malformed_entry, gpasswd_error, no_existing_users, ◌>>=◌, fail_if, ◌>>◌,
}
use authd.LocalEntries.Entries.{Passwd}
use authd.LocalEntries.Text.{split, trim_space}
use authd.SliceUtils.{difference, intersection}

-- `gpasswd --add user group` and `gpasswd --delete user group`
pub data Op : Type 0 where
  add delete : String → String → Op

-- How the command ended: with an exit code, or not started at all.
pub data Exit : Type 0 where
  code : ℕ → Exit
  not_run : Exit

-- Exit code 3, the group (or the user) does not exist, is ignored.
unfoldable pub run_gpasswd : (Op → Exit) → Op → Result (Unit {0})
run_gpasswd gpasswd op = elim (gpasswd op) [
  | not_run ↦ err gpasswd_error
  | code n ↦ if n == 0 then ok tt else if n == 3 then ok tt else err gpasswd_error
]

-- One after another, until one fails. The second part lists the calls made.
unfoldable pub run_all : (Op → Exit) → List Op → Result (Unit {0}) × List Op
run_all gpasswd [] = (ok tt, [])
run_all gpasswd (op ∷ ops) =
    let rest = run_all gpasswd ops in
    elim (run_gpasswd gpasswd op) [ ok _ ↦ (rest.0, op ∷ rest.1) | err e ↦ (err e, op ∷ []) ]

abbrev pub parts : List String → Option (String × List String)
parts (name ∷ _ ∷ _ ∷ users ∷ []) = some (name, split b',' users)
parts _ = none

-- A line's group and its users; a blank line has none.
unfoldable pub parse_line : String → Result (Option (String × List String))
parse_line line =
    let t = trim_space line in
    if t == ""
    then ok none
    else elim (parts (split b':' t)) [ none ↦ err malformed_entry | some entry ↦ ok (some entry) ]

abbrev pub cons_group : String → Option (String × List String) → List String → List String
cons_group user none groups = groups
cons_group user (some (name, users)) groups = if contains users user then name ∷ groups else groups

-- the loop of existingLocalGroups over the lines of the file
unfoldable pub existing_local_groups : String → List String → Result (List String)
existing_local_groups user [] = ok []
existing_local_groups user (line ∷ lines) = do
  entry ← parse_line line
  groups ← existing_local_groups user lines
  ok (cons_group user entry groups)

abbrev pub ops_of : (String → Op) → List String → List Op
ops_of op [] = []
ops_of op (g ∷ gs) = op g ∷ ops_of op gs

abbrev pub groups_to_remove : List String → List String → List String → List String
groups_to_remove new old current = intersection (difference old new) current

-- the calls that Update plans, where the user is in the groups `current`
unfoldable pub planned : String → List String → List String → List String → List Op
planned username new old current =
    ops_of (delete username) (groups_to_remove new old current)
    ++ ops_of (add username) (difference new current)

-- `file` is what reading /etc/group gives.
unfoldable pub update :
    (Op → Exit)
    → Result (List String)
    → String
    → List String
    → List String
    → Result (Unit {0}) × List Op
update gpasswd file username new old = elim (file >>= existing_local_groups username) [
  | err e ↦ (err e, [])
  | ok current ↦ run_all gpasswd (planned username new old current)
]

unfoldable pub clean_user :
    (Op → Exit) → Result (List String) → String → Result (Unit {0}) × List Op
clean_user gpasswd file user = elim (file >>= existing_local_groups user) [
  | err e ↦ (err e, [])
  | ok groups ↦ run_all gpasswd (ops_of (delete user) groups)
]

-- getPasswdUsernames
unfoldable pub usernames : List Passwd → List String
usernames [] = []
usernames (entry ∷ entries) = entry.name ∷ usernames entries

-- the deletions for one group of the file
abbrev pub stale_users : List String → String → List String → List Op
stale_users existing group [] = []
stale_users existing group (user ∷ users) =
    let rest = stale_users existing group users in
    if contains existing user then rest else delete user group ∷ rest

abbrev pub stale_entry : List String → Option (String × List String) → List Op
stale_entry existing none = []
stale_entry existing (some (group, users)) = stale_users existing group users

unfoldable pub stale_ops : List String → List String → Result (List Op)
stale_ops existing [] = ok []
stale_ops existing (line ∷ lines) = do
  entry ← parse_line line
  rest ← stale_ops existing lines
  ok (stale_entry existing entry ++ rest)

-- All deletions are tried; the result is an error if one failed.
unfoldable pub run_each : (Op → Exit) → List Op → Result (Unit {0})
run_each gpasswd [] = ok tt
run_each gpasswd (op ∷ ops) =
    let rest = run_each gpasswd ops in elim (run_gpasswd gpasswd op) [ ok _ ↦ rest | err e ↦ err e ]

abbrev run_stale : (Op → Exit) → Result (List Op) → Result (Unit {0}) × List Op
run_stale gpasswd (err e) = (err e, [])
run_stale gpasswd (ok ops) = (run_each gpasswd ops, ops)

unfoldable pub clean :
    (Op → Exit) → Result (List String) → Result (List Passwd) → Result (Unit {0}) × List Op
clean gpasswd file entries = run_stale gpasswd (do
  listed ← entries
  let existing = usernames listed
  fail_if (length existing == 0) no_existing_users
  lines ← file
  stale_ops existing lines)
