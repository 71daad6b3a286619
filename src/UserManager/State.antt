-- ===== src/UserManager/State.antt =====
-- internal/users/manager.go: the configuration, the state, and what the manager asks of the rest of the
-- system during one call, `System`.
use authd.Prelude.{ℕ, ◌-◌, ◌*◌, String, Bool, true, false, List, nat_eq, string_eq, leb, ltb}
use authd.Errors.{Result, ok, ◌>>◌, fail_if, invalid_config}
use authd.Db.Tables.{Conn}
use authd.LocalEntries.Groups.{Op, Exit}
use authd.TempEntries.Attempts.{UserAttempt, GroupAttempt}
use authd.TempEntries.PreAuth.{max_pre_auth_users}
use authd.TempEntries.Records.{TemporaryRecords}

pub record Config : Type 0 where
  pub uid_min : ℕ
  pub uid_max : ℕ
  pub gid_min : ℕ
  pub gid_max : ℕ

abbrev pub default_config : Config
default_config = record {
  uid_min = 1000000000;
  uid_max = 1999999999;
  gid_min = 1000000000;
  gid_max = 1999999999;
}

-- The checks of NewManager, where no ID generator is given.
unfoldable pub check_config : Config → Result (Unit {0})
check_config c = do
  fail_if (leb c.uid_max c.uid_min) invalid_config
  fail_if (leb c.gid_max c.gid_min) invalid_config
  fail_if (ltb (c.uid_max - c.uid_min) (max_pre_auth_users * 2)) invalid_config
  ok tt

pub record Manager : Type 0 where
  pub db : Conn
  pub config : Config
  pub temporary_records : TemporaryRecords

-- `user.Lookup` and `user.LookupGroup`: found, the error for an unknown name, or another error.
pub data Lookup : Type 0 where
  found unknown failed : Lookup

-- `os.Stat` of a home directory.
pub data Stat : Type 0 where
  missing failed no_stat : Stat
  owned : ℕ → ℕ → Stat

-- The answers of the system during one call.
pub record System : Type 0 where
  pub lookup_user : String → Lookup
  pub lookup_group : String → Lookup
  pub user_attempts : List UserAttempt
  pub group_attempts : String → List GroupAttempt
  pub gpasswd : Op → Exit
  pub group_file : Result (List String)
  pub stat : String → Stat

-- The state and the result of a call, and the calls of gpasswd that it made.
pub record Outcome : Type 0 where
  pub result : Result (Unit {0})
  pub manager : Manager
  pub calls : List Op

abbrev pub is_unknown : Lookup → Bool
is_unknown unknown = true
is_unknown _ = false
