-- ===== src/Db/Tables.antt =====
-- The rows of internal/users/db, the tables that sql/create_schema.sql declares, and the connection
-- (`queryable`: the database or a transaction on it). SQLite may refuse any statement, and whether it
-- does is a parameter, `fails`, as is the order of the rows that a query gives; the constraints of the schema are written out at the statements.
use mathlib.Core.List.{Perm}
use authd.Prelude.{ℕ, String, Bool, true, false, List, []}
use authd.Errors.{Result, query_error, transaction_error, fail_if, ok, err}

pub record UserRow : Type 0 where
  pub name : String
  pub uid : ℕ
  pub gid : ℕ
  pub gecos : String
  pub dir : String
  pub shell : String
  pub broker_id : String

-- Go's zero value `UserRow{}`.
abbrev pub no_user : UserRow
no_user = record { name = ""; uid = 0; gid = 0; gecos = ""; dir = ""; shell = ""; broker_id = "" }

unfoldable pub new_user_row : String → ℕ → ℕ → String → String → String → UserRow
new_user_row name uid gid gecos dir shell = record {
  name = name;
  uid = uid;
  gid = gid;
  gecos = gecos;
  dir = dir;
  shell = shell;
  broker_id = "";
}

pub record GroupRow : Type 0 where
  pub name : String
  pub gid : ℕ
  pub ugid : String

abbrev pub no_group : GroupRow
no_group = record { name = ""; gid = 0; ugid = "" }

unfoldable pub new_group_row : String → ℕ → String → GroupRow
new_group_row name gid ugid = record { name = name; gid = gid; ugid = ugid }

pub record UserToGroupRow : Type 0 where
  pub uid : ℕ
  pub gid : ℕ

pub record UserToLocalGroupRow : Type 0 where
  pub uid : ℕ
  pub group_name : String

pub record GroupWithMembers : Type 0 where
  pub group : GroupRow
  pub users : List String

pub record Tables : Type 0 where
  pub users : List UserRow
  pub groups : List GroupRow
  pub users_to_groups : List UserToGroupRow
  pub users_to_local_groups : List UserToLocalGroupRow

abbrev pub empty_tables : Tables
empty_tables = record { users = []; groups = []; users_to_groups = []; users_to_local_groups = [] }

-- The statements of the source, by the function that runs them.
pub data Statement : Type 0 where
  select_user_by_id select_user_by_name select_users select_user_exists : Statement
  insert_user_stmt update_user_stmt delete_user_stmt update_broker_stmt : Statement
  select_group_by_id select_group_by_name select_group_by_ugid select_groups : Statement
  select_group_exists insert_group_stmt update_group_stmt : Statement
  select_user_groups select_group_members delete_membership delete_memberships : Statement
  insert_membership select_local_groups insert_local_membership delete_local_memberships : Statement
  begin commit : Statement

-- In which order a SELECT without ORDER BY gives its rows: SQLite may choose any.
pub record RowOrder (A : Type 0) : Type 0 where
  pub arrange : List A → List A
  pub arranges : (rows : List A) → Perm (arrange rows) rows

pub record Conn : Type 0 where
  pub tables : Tables
  pub open tables use *
  pub fails : Statement → Tables → Bool
  pub user_order : RowOrder UserRow
  pub group_order : RowOrder GroupRow
  pub name_order : RowOrder String

-- `Exec`, `Query` or `QueryRow` with its check of the error.
abbrev pub run : Conn → Statement → Result (Unit {0})
run c s = fail_if (c.fails s c.tables) query_error

abbrev pub with_users : Conn → List UserRow → Conn
with_users c us = record c { tables = record c.tables { users = us } }

abbrev pub with_groups : Conn → List GroupRow → Conn
with_groups c gs = record c { tables = record c.tables { groups = gs } }

abbrev pub with_users_to_groups : Conn → List UserToGroupRow → Conn
with_users_to_groups c ms = record c { tables = record c.tables { users_to_groups = ms } }

abbrev pub with_users_to_local_groups : Conn → List UserToLocalGroupRow → Conn
with_users_to_local_groups c ms = record c {
  tables = record c.tables { users_to_local_groups = ms };
}

-- commitOrRollBackTransaction, after the body of a transaction: with an error, or where the commit
-- is refused, the tables are those before the transaction.
unfoldable pub commit_or_roll_back {ℓ} : {A : Type ℓ} → Conn → Result (A × Conn) → Result A × Conn
commit_or_roll_back before (err e) = (err e, before)
commit_or_roll_back before (ok (a, c)) = elim (c.fails commit c.tables) [
  | true ↦ (err transaction_error, before)
  | false ↦ (ok a, c)
]

-- `m.db.Begin()`, the body, and the deferred commit or rollback.
unfoldable pub in_transaction {ℓ} :
    {A : Type ℓ} → Conn → (Conn → Result (A × Conn)) → Result A × Conn
unfolding commit_or_roll_back
in_transaction c body = elim (c.fails begin c.tables) [
  | true ↦ (err transaction_error, c)
  | false ↦ commit_or_roll_back c (body c)
]
