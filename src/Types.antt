-- ===== src/Types.antt =====
-- internal/users/types/types.go: what brokers send, and what the NSS service gives out.
use authd.Prelude.{ℕ, String, Option, List, ℤ}

-- `GID` is a pointer, nil until the user manager assigns it.
pub record GroupInfo : Type 0 where
  pub name : String
  pub gid : Option ℕ
  pub ugid : String

pub record UserInfo : Type 0 where
  pub name : String
  pub uid : ℕ
  pub gecos : String
  pub dir : String
  pub shell : String
  pub groups : List GroupInfo

pub record UserEntry : Type 0 where
  pub name : String
  pub uid : ℕ
  pub gid : ℕ
  pub gecos : String
  pub dir : String
  pub shell : String

pub record ShadowEntry : Type 0 where
  pub name : String
  pub last_pwd_change : ℤ
  pub max_pwd_age : ℤ
  pub pwd_warn_period : ℤ
  pub pwd_inactivity : ℤ
  pub min_pwd_age : ℤ
  pub expiration_date : ℤ

pub record GroupEntry : Type 0 where
  pub name : String
  pub gid : ℕ
  pub users : List String
  pub passwd : String
