-- ===== src/LocalEntries/Entries.antt =====
-- getpwent_c.go and getgrent_c.go of internal/users/localentries. What libc answers is an input: the
-- successive calls of getgrent or getpwent are a script, and the result none means that the script is
-- used up and the loop still asks.
use authd.Prelude.{
  ℕ, String, Bool, true, false, ◌≡◌, Option, none, some, List, [], ◌∷◌, ◌++◌, map, arith,
  if◌then◌else◌,
}
use authd.Errors.{Result, ok, err, entries_error, not_found, lookup_error}

pub record Passwd : Type 0 where
  pub name : String
  pub uid : ℕ
  pub gecos : String

pub record Group : Type 0 where
  pub name : String
  pub gid : ℕ
  pub passwd : String

-- errno.Get; `unset` is nil.
data Errno : Type 0 where
  unset no_ent srch badf perm : Errno
  other_errno : ℕ → Errno

-- One answer of libc: an entry, or a null pointer with errno.
data LibcAnswer (A : Type 0) : Type 0 where
  found : A → LibcAnswer A
  null : Errno → LibcAnswer A

-- getgrent and getpwent set errno to ENOENT at the end.
abbrev at_end : Errno → Bool
at_end unset = true
at_end no_ent = true
at_end _ = false

-- the errors of getgrnam and getpwnam that mean that there is no such entry
abbrev means_not_found : Errno → Bool
means_not_found (other_errno n) = false
means_not_found _ = true

module _ {A : Type 0} where
  -- one call, with nil at the end
  unfoldable next_entry : LibcAnswer A → Result (Option A)
  next_entry (found a) = ok (some a)
  next_entry (null errno) = if at_end errno then ok none else err entries_error

  -- the loop
  unfoldable all_entries : List (LibcAnswer A) → Option (Result (List A))
  all_entries [] = none
  all_entries (answer ∷ answers) =
      let rest = all_entries answers in
      elim (next_entry answer) [
        | err e ↦ some (err e)
        | ok none ↦ some (ok [])
        | ok (some a) ↦ elim rest [
          | none ↦ none
          | some (err e) ↦ some (err e)
          | some (ok entries) ↦ some (ok (a ∷ entries))
        ]
      ]

  unfoldable entry_by_name : LibcAnswer A → Result A
  entry_by_name (found a) = ok a
  entry_by_name (null errno) = err (if means_not_found errno then not_found else lookup_error)

  -- The entries are those that libc gives before its first null pointer, in order, or its error.
  all_entries-append :
      (entries : List A) (errno : Errno) (answers : List (LibcAnswer A))
      → all_entries (map found entries ++ null errno ∷ answers)
        ≡ some (if at_end errno then ok entries else err entries_error)
  unfolding all_entries next_entry
  all_entries-append [] errno answers = ground arith
  all_entries-append (a ∷ entries) errno answers =
      ground (arith, all_entries-append entries errno answers)

unfoldable local_group_entry : LibcAnswer Group → Result (Option Group)
local_group_entry = next_entry

unfoldable local_group_entries : List (LibcAnswer Group) → Option (Result (List Group))
local_group_entries = all_entries

-- GetGroupByName does not read the password, nor GetPasswdByName the GECOS.
unfoldable local_group_by_name : LibcAnswer Group → Result Group
local_group_by_name answer = elim (entry_by_name answer) [
  | ok g ↦ ok (record g { passwd = "" })
  | err e ↦ err e
]

unfoldable local_passwd_entry : LibcAnswer Passwd → Result (Option Passwd)
local_passwd_entry = next_entry

unfoldable local_passwd_entries : List (LibcAnswer Passwd) → Option (Result (List Passwd))
local_passwd_entries = all_entries

unfoldable local_passwd_by_name : LibcAnswer Passwd → Result Passwd
local_passwd_by_name answer = elim (entry_by_name answer) [
  | ok p ↦ ok (record p { gecos = "" })
  | err e ↦ err e
]
