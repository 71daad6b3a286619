-- ===== src/LocalEntries/Groups/Cleaned.antt =====
-- The users that Clean of internal/users/localentries/localgroups.go removes from groups.
use authd.Prelude.{
  String, ◌≡◌, refl, false, List, [], ◌∷◌, ◌++◌, Option, none, some, All, contains, string_eq,
  nat_eq, ◌==◌, length, Bool-cases, inl, inr, subst,
}
use authd.Errors.{Result, ok, err, >>=-eq-ok, ok-eq, ◌>>=◌, ◌>>◌, fail_if, no_existing_users}
use authd.LocalEntries.Entries.{Passwd}
use authd.LocalEntries.Groups.{
  Op, Exit, add, delete, usernames, parse_line, stale_users, stale_entry, stale_ops, run_stale,
  clean,
}

-- The removal of a user that is not among the existing ones.
abbrev pub IsStale : List String → Op → Type 0
IsStale existing (delete user _) = contains existing user ≡ false
IsStale existing (add _ _) = ⊥

abbrev Stale : List String → List Op → Type 0
Stale existing ops = All (IsStale existing) ops

Stale-append :
    (existing : List String) (xs ys : List Op)
    → Stale existing xs
    → Stale existing ys
    → Stale existing (xs ++ ys)
Stale-append existing [] ys p q = q
Stale-append existing (x ∷ xs) ys p q = (p.0, Stale-append existing xs ys p.1 q)

stale_users-Stale :
    (existing : List String) (group : String) (users : List String)
    → Stale existing (stale_users existing group users)
stale_users-Stale existing group [] = tt
stale_users-Stale existing group (user ∷ users) = elim (Bool-cases (contains existing user)) [
  | inl there ↦ rw there (stale_users-Stale existing group users)
  | inr gone ↦ rw gone (gone, stale_users-Stale existing group users)
]

stale_entry-Stale :
    (existing : List String) (entry : Option (String × List String))
    → Stale existing (stale_entry existing entry)
stale_entry-Stale existing none = tt
stale_entry-Stale existing (some (group, users)) = stale_users-Stale existing group users

stale_ops-Stale :
    (existing lines : List String) (ops : List Op)
    → stale_ops existing lines ≡ ok ops
    → Stale existing ops
unfolding stale_ops
stale_ops-Stale existing [] ops h = subst (Stale existing) (ok-eq [] ops h) tt
stale_ops-Stale existing (line ∷ lines) ops h =
    let (entry, e₁, h₁) = >>=-eq-ok (parse_line line) _ ops h in
    let (rest, e₂, h₂) = >>=-eq-ok (stale_ops existing lines) _ ops h₁ in
    subst (Stale existing) (ok-eq (stale_entry existing entry ++ rest) ops h₂) (
      Stale-append existing (stale_entry existing entry) rest (stale_entry-Stale existing entry)
        (stale_ops-Stale existing lines rest e₂))

run_stale-Stale :
    (gpasswd : Op → Exit) (existing : List String) (r : Result (List Op))
    → ((ops : List Op) → r ≡ ok ops → Stale existing ops)
    → Stale existing (run_stale gpasswd r).1
run_stale-Stale gpasswd existing (err e) h = tt
run_stale-Stale gpasswd existing (ok ops) h = h ops refl

planned_deletions :
    (file : Result (List String)) (existing : List String) (ops : List Op)
    → (fail_if (length existing == 0) no_existing_users
        >> (file >>= λ lines. stale_ops existing lines))
      ≡ ok ops
    → Stale existing ops
planned_deletions file existing ops h =
    let (_, e₁, h₁) = >>=-eq-ok (fail_if (length existing == 0) no_existing_users) _ ops h in
    let (lines, e₂, h₂) = >>=-eq-ok file _ ops h₁ in stale_ops-Stale existing lines ops h₂

-- Every call of gpasswd that Clean makes removes a user that is not among the listed users of the
-- system, whatever /etc/group says and however the calls end.
pub clean-IsStale :
    (gpasswd : Op → Exit) (file : Result (List String)) (listed : List Passwd)
    → All (IsStale (usernames listed)) (clean gpasswd file (ok listed)).1
unfolding clean
clean-IsStale gpasswd file listed =
    run_stale-Stale gpasswd (usernames listed) _ (planned_deletions file (usernames listed))
