-- ===== src/Lib.antt =====
-- authd lets users log in with cloud identities: a PAM and an NSS module talk to a daemon, which talks to
-- brokers over D-Bus and keeps users and groups in SQLite. This library models the daemon's own logic, and
-- the models that the PAM module runs in a terminal, in GDM and in plain PAM conversations.
--
-- Parts and files
--   Prelude, Errors   shared helpers, and Go's (value, error) results; an error is known by its place
--   Types             internal/users/types
--   Db                internal/users/db: rows, statements, the transaction of UpdateUserEntry
--   TempEntries       internal/users/tempentries: temporary users and groups, pre-auth users
--   IdGenerator       internal/users/idgenerator
--   LocalEntries      internal/users/localentries: /etc/group, gpasswd and the entries that libc gives
--   SliceUtils        internal/sliceutils
--   UserManager       internal/users: manager.go (UpdateUser by its stages) and defs.go
--   Brokers           internal/brokers: layouts, validators, broker.go, manager.go
--   Pam               internal/services/pam
--   Nss               internal/services/nss and internal/services/permissions
--   Adapter           pam/internal/adapter: the models of the PAM module's clients, and their event loop
--
-- A state is a record, an operation a function that returns its result beside the new state, under the
-- name of the Go function in snake case. The services hold the user manager and the brokers' manager; the
-- user manager holds the database's connection and the temporary records.
--
-- What comes from outside is an input. The answers of the system during one UpdateUser (user and group
-- lookups, os.Stat, exit codes of gpasswd, the lines of /etc/group) are the record System; the brokers'
-- processes are Brokerer; encoding/json is Json. A registration loop consumes a script of rounds (the ID
-- that is generated, the random bytes, the entries that libc lists then): the result none means that the
-- script is used up and the loop still runs.
--
-- SQLite is modelled by what the statements mean, with the keys and the foreign keys of
-- internal/users/db/sql/create_schema.sql; it may refuse any statement, by the parameter fails, and a
-- rollback restores the tables. A SELECT without ORDER BY gives its rows in any order, by the parameters
-- user_order, group_order and name_order of Conn. The declared type of the UGID column (INT) would change a
-- text of digits such as 007; this is not modelled. RowsAffected does not fail. Go's maps are association
-- lists in which a write replaces; where Go ranges over a map, only the choice among several errors depends on the order.
-- uint32 is a natural number, with its wrap-around written out where the code computes with it
-- (IdGenerator) or converts (Nss.Days). A mutex makes what it covers one step. Messages, wrapping and
-- logging of errors are left out.
--
-- In Adapter a message is a value of Msg (Adapter.Messages), a command a value of Cmd; a closure that waits
-- for something is a Call, and run_call (Adapter.Commands) gives its message from what authd, GDM and
-- pwquality answer, the record Server. An update is a function of the message, the model and what it takes
-- from outside: Env (widgets, clock, JSON, cryptography), Peer (GDM) and Talk (the answers in a PAM
-- conversation). Its result none is a run-time panic, or a script of answers that is used up while the code
-- still prompts. A prompt's script is read when the update starts it, though its closure may run later.
-- choice_rounds has the length of the script as fuel; each round reads at least two answers, see
-- Adapter.Conversation.Choices. Adapter.Loop is bubbletea's event loop with MsgFilter: the messages and the
-- commands that are under way, taken in any order, and a mark that authd has granted a request. The goroutines
-- around authTracker are Adapter.Tracker: what is done with the lock held is one step, and Signal wakes the
-- goroutine that sleeps longest. In Adapter.Loop a closure that waits for the tracker may return at any time.
--
-- Not modelled: opening and migrating the database, D-Bus and configuration files, the daemon's start, the
-- gRPC glue and generated code, what the clients show on the screen, pam/pam.go, the JSON protocol with GDM
-- and PAM over D-Bus, and the NSS module.
pub mod Prelude
pub mod Errors
pub mod Types
pub mod SliceUtils
pub mod LocalEntries
pub mod Db
pub mod TempEntries
pub mod IdGenerator
pub mod UserManager
pub mod Adapter
pub mod Brokers
pub mod Pam
pub mod Nss
