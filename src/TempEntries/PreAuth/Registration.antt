-- ===== src/TempEntries/PreAuth/Registration.antt =====
-- RegisterPreAuthUser of internal/users/tempentries/preauth.go: what a registration returns and what it
-- leaves behind.
use authd.Prelude.{
  ℕ, String, ◌≡◌, refl, Bool, false, not, ◌&&◌, Option, some, List, [], ◌∷◌, arith, ◌==◌, nat_eq,
  string_eq, any, ◌⊎◌, inl, inr, subst, some-eq, sym, Bool-cases,
}
use authd.Errors.{Result, ok, err}
use authd.LocalEntries.Entries.{Passwd}
use authd.TempEntries.Attempts.{UserAttempt}
use authd.TempEntries.PreAuth.{
  PreAuthUserRecords, add_pre_auth_user, is_unique_uid, unique_among, register_unique,
}
use authd.TempEntries.PreAuth.Consistent.{IsFresh, added, random_name, delete-added}

-- another user of the system has the UID
abbrev pub taken_by_other : ℕ → String → Passwd → Bool
taken_by_other uid name entry = entry.uid == uid && not (entry.name == name)

pub unique_among-any :
    (entries : List Passwd) (uid : ℕ) (name : String)
    → unique_among entries uid name ≡ not (any (taken_by_other uid name) entries)
unfolding unique_among
unique_among-any [] uid name = refl
unique_among-any (x ∷ entries) uid name = ground (arith, unique_among-any entries uid name)

-- Random IDs and random names that are not in use, at every round of the script.
abbrev pub AllFresh : PreAuthUserRecords → String → List UserAttempt → Type 0
AllFresh r login [] = Unit {0}
AllFresh r login (a ∷ rest) =
    ((uid : ℕ) (bytes : String)
      → a.generated ≡ ok uid
      → a.random ≡ ok bytes
      → IsFresh r uid login bytes)
    × AllFresh r login rest

-- some round of the script listed these entries
abbrev pub Listed : List Passwd → List UserAttempt → Type 0
Listed entries [] = ⊥
Listed entries (a ∷ rest) = (a.entries ≡ ok entries) ⊎ Listed entries rest

-- After an error the records are those before the call; otherwise they have one record more, under a
-- UID that no other listed user has.
abbrev pub Outcome :
    PreAuthUserRecords → String → List UserAttempt → Result ℕ → PreAuthUserRecords → Type 0
Outcome r login attempts (err e) r' = r ≡ r'
Outcome r login attempts (ok uid) r' =
    (bytes : String) × (entries : List Passwd) × IsFresh r uid login bytes
    × Listed entries attempts
    × (any (taken_by_other uid (random_name bytes)) entries ≡ false)
    × (added r uid login bytes ≡ r')

-- What holds of the pair that a call returns.
returned :
    (P : Result ℕ → PreAuthUserRecords → Type 0) (x result : Result ℕ) (y r' : PreAuthUserRecords)
    → ◌≡◌ {A = Option (Result ℕ × PreAuthUserRecords)} (some (x, y)) (some (result, r'))
    → P x y
    → P result r'
returned P x result y r' h p =
    subst (λ (q : Result ℕ × PreAuthUserRecords). P q.0 q.1) (some-eq (x, y) (result, r') h) p

later :
    (r : PreAuthUserRecords) (login : String) (a : UserAttempt) (rest : List UserAttempt)
    (result : Result ℕ) (r' : PreAuthUserRecords)
    → Outcome r login rest result r'
    → Outcome r login (a ∷ rest) result r'
later r login a rest (ok uid) r' (bytes, entries, fresh, listed, unique, same) =
    (bytes, entries, fresh, inr listed, unique, same)
later r login a rest (err e) r' same = same

-- One round of the loop, by what it reads. A round that is not the last leaves the records as they
-- were, so the rest of the loop decides.
round :
    (r : PreAuthUserRecords) (login : String) (generated : Result ℕ) (random : Result String)
    (listed : Result (List Passwd)) (rest : List UserAttempt) (result : Result ℕ)
    (r' : PreAuthUserRecords)
    → ((uid : ℕ) (bytes : String)
        → generated ≡ ok uid
        → random ≡ ok bytes
        → IsFresh r uid login bytes)
    → (register_unique r login rest ≡ some (result, r') → Outcome r login rest result r')
    → register_unique r login
        (record { generated = generated; random = random; entries = listed } ∷ rest)
      ≡ some (result, r')
    → Outcome r login
        (record { generated = generated; random = random; entries = listed } ∷ rest)
        result
        r'
unfolding register_unique add_pre_auth_user is_unique_uid
round r login (err e) random listed rest result r' fresh next h =
    let a : UserAttempt = record { generated = err e; random = random; entries = listed } in
    returned (Outcome r login (a ∷ rest)) (err e) result r r' h refl
round r login (ok uid) (err e) listed rest result r' fresh next h =
    let a : UserAttempt = record { generated = ok uid; random = err e; entries = listed } in
    returned (Outcome r login (a ∷ rest)) _ result r r' h refl
round r login (ok uid) (ok bytes) (err e) rest result r' fresh next h =
    let a : UserAttempt = record { generated = ok uid; random = ok bytes; entries = err e } in
    returned (Outcome r login (a ∷ rest)) _ result _ r' h
      (sym (delete-added r uid login bytes (fresh uid bytes refl refl)))
round r login (ok uid) (ok bytes) (ok entries) rest result r' fresh next h =
    let f = fresh uid bytes refl refl in
    let a : UserAttempt = record { generated = ok uid; random = ok bytes; entries = ok entries } in
    elim (Bool-cases (unique_among entries uid (random_name bytes))) [
      | inl unique ↦
          returned (Outcome r login (a ∷ rest)) (ok uid) result (added r uid login bytes) r'
            (ground arith)
            (
              bytes,
              entries,
              f,
              inl refl,
              ground (arith, unique_among-any entries uid (random_name bytes)),
              refl,
            )
      | inr other ↦ later r login a rest result r' (
          next (
            subst (λ x. register_unique x login rest ≡ some (result, r'))
              (delete-added r uid login bytes f) (ground arith)))
    ]

pub register_unique-Outcome :
    (r : PreAuthUserRecords) (login : String) (attempts : List UserAttempt) (result : Result ℕ)
    (r' : PreAuthUserRecords)
    → AllFresh r login attempts
    → register_unique r login attempts ≡ some (result, r')
    → Outcome r login attempts result r'
unfolding register_unique
register_unique-Outcome r login [] result r' fresh h = cc
register_unique-Outcome r login (a ∷ rest) result r' fresh h =
    round r login a.generated a.random a.entries rest result r' fresh.0
      (register_unique-Outcome r login rest result r' fresh.1) h
