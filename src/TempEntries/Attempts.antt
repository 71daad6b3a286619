-- ===== src/TempEntries/Attempts.antt =====
-- What one round of a registration loop of internal/users/tempentries reads from outside: the ID
-- that the generator gives, the random bytes in hexadecimal, and the entries that libc's getpwent or
-- getgrent list then. A script of rounds stands for the rest of the system; the loops consume it.
use authd.Prelude.{ℕ, String, List}
use authd.Errors.{Result}
use authd.LocalEntries.Entries.{Passwd, Group}

pub record Attempt {ℓ} (Entry : Type ℓ) : Type ℓ where
  pub generated : Result ℕ
  pub random : Result String
  pub entries : Result (List Entry)

abbrev pub UserAttempt : Type 0
UserAttempt = Attempt Passwd

abbrev pub GroupAttempt : Type 0
GroupAttempt = Attempt Group
