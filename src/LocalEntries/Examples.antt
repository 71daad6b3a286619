-- ===== src/LocalEntries/Examples.antt =====
-- Local groups of a user on a small /etc/group.
use authd.Prelude.{String, ◌≡◌, refl, not, ◌&&◌, ◌||◌, List, [], ◌∷◌, contains, string_eq, All}
use authd.Errors.{Result, ok, ◌>>=◌}
use authd.LocalEntries.Groups.{Op, Exit, code, existing_local_groups, update, parse_line}
use authd.LocalEntries.Text.{split, trim_space}
use authd.LocalEntries.Entries.{Passwd}
use authd.LocalEntries.Groups.{usernames, clean}
use authd.LocalEntries.Groups.Cleaned.{IsStale, clean-IsStale}
use authd.LocalEntries.Groups.Synchronised.{
  after, update_synchronises, update_again_never_deletes, IsAdd,
}
use authd.SliceUtils.{difference, intersection, difference-intersection_mem}

abbrev group_file : Result (List String)
group_file = ok ("sudo:x:27:alice,bob" ∷ "docker:x:999:" ∷ "audio:x:29:alice" ∷ [])

abbrev works : Op → Exit
works _ = code 0

group_file-read : (group_file >>= existing_local_groups "alice") ≡ ok ("sudo" ∷ "audio" ∷ [])
unfolding existing_local_groups parse_line split trim_space
group_file-read = refl

update_synchronises_example :
    ((update works group_file "alice" ("docker" ∷ []) ("sudo" ∷ [])).0 ≡ ok tt)
    × ((x : String)
        → contains
            (after "alice"
              (update works group_file "alice" ("docker" ∷ []) ("sudo" ∷ [])).1
              ("sudo" ∷ "audio" ∷ []))
            x
          ≡ (contains ("docker" ∷ []) x
              || (contains ("sudo" ∷ "audio" ∷ []) x && not (contains ("sudo" ∷ []) x))))
    × (after "bob" (update works group_file "alice" ("docker" ∷ []) ("sudo" ∷ [])).1 ("sudo" ∷ [])
        ≡ "sudo" ∷ [])
update_synchronises_example =
    update_synchronises works group_file "alice" ("docker" ∷ []) ("sudo" ∷ [])
      ("sudo" ∷ "audio" ∷ []) "bob" ("sudo" ∷ []) (λ _. refl) group_file-read refl

update_again_never_deletes_example :
    All IsAdd (update works group_file "alice" ("docker" ∷ []) ("docker" ∷ [])).1
update_again_never_deletes_example =
    update_again_never_deletes works group_file "alice" ("docker" ∷ [])

abbrev letters : List String
letters = "a" ∷ "b" ∷ []

abbrev some_letters : List String
some_letters = "b" ∷ []

difference-intersection_mem_example :
    (contains (difference letters some_letters) "a"
      ≡ (contains letters "a" && not (contains some_letters "a")))
    × (contains (intersection letters some_letters) "a"
        ≡ (contains letters "a" && contains some_letters "a"))
difference-intersection_mem_example = difference-intersection_mem letters some_letters "a"

abbrev bob_only : List Passwd
bob_only = record { name = "bob"; uid = 1001; gecos = "Bob" } ∷ []

clean-IsStale_example : All (IsStale (usernames bob_only)) (clean works group_file (ok bob_only)).1
clean-IsStale_example = clean-IsStale works group_file bob_only
