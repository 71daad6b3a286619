-- ===== src/TempEntries/PreAuth/Returns.antt =====
-- When RegisterPreAuthUser of internal/users/tempentries/preauth.go returns.
use authd.Prelude.{
  ◌≢◌, ℕ, String, ◌≡◌, false, none, List, [], ◌∷◌, arith, nat_eq, string_eq, any, ◌⊎◌, inl, inr,
}
use authd.Errors.{Result, ok, err}
use authd.LocalEntries.Entries.{Passwd}
use authd.TempEntries.Attempts.{UserAttempt}
use authd.TempEntries.PreAuth.{
  PreAuthUserRecords, add_pre_auth_user, delete_pre_auth_user, is_unique_uid, register_unique,
  register_pre_auth_user,
}
use authd.TempEntries.PreAuth.Consistent.{added, random_name}
use authd.TempEntries.PreAuth.Registration.{taken_by_other, unique_among-any}

-- a round whose UID no other listed user has
abbrev pub Settles : UserAttempt → Type 0
Settles a =
    (uid : ℕ) × (bytes : String) × (entries : List Passwd) × (a.generated ≡ ok uid)
    × (a.random ≡ ok bytes)
    × (a.entries ≡ ok entries)
    × (any (taken_by_other uid (random_name bytes)) entries ≡ false)

abbrev pub SomeSettles : List UserAttempt → Type 0
SomeSettles [] = ⊥
SomeSettles (a ∷ rest) = Settles a ⊎ SomeSettles rest

-- One round, by what it reads.
round-ne-none :
    (r : PreAuthUserRecords) (login : String) (generated : Result ℕ) (random : Result String)
    (listed : Result (List Passwd)) (rest : List UserAttempt)
    → Settles (record { generated = generated; random = random; entries = listed })
      ⊎ ((s : PreAuthUserRecords) → register_unique s login rest ≢ none)
    → register_unique r login
        (record { generated = generated; random = random; entries = listed } ∷ rest)
      ≢ none
unfolding register_unique add_pre_auth_user is_unique_uid
round-ne-none r login (err e) random listed rest h = λ p. cc
round-ne-none r login (ok uid) (err e) listed rest h = λ p. cc
round-ne-none r login (ok uid) (ok bytes) (err e) rest h = λ p. cc
round-ne-none r login (ok uid) (ok bytes) (ok entries) rest (inl (_, _, _, g, n, l, free)) =
    λ p. ground (arith, unique_among-any entries uid (random_name bytes))
round-ne-none r login (ok uid) (ok bytes) (ok entries) rest (inr next) =
    λ p. ground (arith, next (delete_pre_auth_user (added r uid login bytes) uid))

loop-ne-none :
    (r : PreAuthUserRecords) (login : String) (attempts : List UserAttempt)
    → SomeSettles attempts
    → register_unique r login attempts ≢ none
loop-ne-none r login [] h = absurd h
loop-ne-none r login (a ∷ rest) (inl here) =
    round-ne-none r login a.generated a.random a.entries rest (inl here)
loop-ne-none r login (a ∷ rest) (inr there) =
    round-ne-none r login a.generated a.random a.entries rest
      (inr λ s. loop-ne-none s login rest there)

-- RegisterPreAuthUser returns, whatever the records, as soon as some round of its loop generates a UID
-- that no other listed user has.
pub register_pre_auth_user_returns :
    (r : PreAuthUserRecords) (login : String) (attempts : List UserAttempt)
    → SomeSettles attempts
    → register_pre_auth_user r login attempts ≢ none
unfolding register_pre_auth_user
register_pre_auth_user_returns r login attempts h = ground (arith, loop-ne-none r login attempts h)
