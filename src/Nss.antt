-- ===== src/Nss.antt =====
-- internal/services/nss/nss.go and internal/services/permissions/permissions.go: the NSS service. The
-- messages are generated code; their records have the fields that the service sets.
pub mod Days
pub mod PreCheck
mod Examples
use authd.Prelude.{
  ℕ, String, Bool, true, false, not, ◌||◌, Option, none, some, List, [], ◌∷◌, ◌==◌, string_eq,
  nat_eq, ltb, if◌then◌else◌, ℤ,
}
use authd.Errors.{
  Error, Result, ok, err, ◌>>=◌, ◌>>◌, fail_if, is_no_data, invalid_argument, not_found, not_root,
  permission_denied, no_brokerer, unknown_broker,
}
use authd.Types.{UserEntry, GroupEntry, ShadowEntry}
use authd.TempEntries.Attempts.{UserAttempt}
use authd.UserManager.State.{Manager}
use authd.UserManager.Update.{register_user_pre_auth}
use authd.UserManager.Reads
use authd.Brokers.Broker
use authd.Brokers.Broker.{Broker, local_broker_name}
use authd.Brokers.Manager as Brokers
use authd.Brokers.Manager.{BrokerManager, Processes}
use authd.Nss.Days.{convert_to_number_of_days}

-- What gRPC's context says of the peer: nothing, no credentials, or its UID.
pub data Peer : Type 0 where
  no_peer no_credentials : Peer
  credentials : ℕ → Peer

unfoldable pub is_request_from_root : ℕ → Peer → Result (Unit {0})
is_request_from_root root_uid no_peer = err permission_denied
is_request_from_root root_uid no_credentials = err permission_denied
is_request_from_root root_uid (credentials uid) = fail_if (not (uid == root_uid)) not_root

pub record Service : Type 0 where
  pub user_manager : Manager
  pub broker_manager : BrokerManager
  pub root_uid : ℕ

pub record PasswdReply : Type 0 where
  pub name : String
  pub passwd : String
  pub uid : ℕ
  pub gid : ℕ
  pub gecos : String
  pub homedir : String
  pub shell : String

unfoldable pub nss_passwd_from_users_passwd : UserEntry → PasswdReply
nss_passwd_from_users_passwd u = record {
  name = u.name;
  passwd = "x";
  uid = u.uid;
  gid = u.gid;
  gecos = u.gecos;
  homedir = u.dir;
  shell = u.shell;
}

pub record GroupReply : Type 0 where
  pub name : String
  pub passwd : String
  pub gid : ℕ
  pub members : List String

unfoldable pub nss_group_from_users_group : GroupEntry → GroupReply
nss_group_from_users_group g = record {
  name = g.name;
  passwd = g.passwd;
  gid = g.gid;
  members = g.users;
}

pub record ShadowReply : Type 0 where
  pub name : String
  pub passwd : String
  pub last_change : ℤ
  pub change_min_days : ℤ
  pub change_max_days : ℤ
  pub change_warn_days : ℤ
  pub change_inactive_days : ℤ
  pub expire_date : ℤ

unfoldable pub nss_shadow_from_users_shadow : ShadowEntry → ShadowReply
nss_shadow_from_users_shadow u = record {
  name = u.name;
  passwd = "x";
  last_change = convert_to_number_of_days u.last_pwd_change;
  change_min_days = convert_to_number_of_days u.min_pwd_age;
  change_max_days = convert_to_number_of_days u.max_pwd_age;
  change_warn_days = convert_to_number_of_days u.pwd_warn_period;
  change_inactive_days = convert_to_number_of_days u.pwd_inactivity;
  expire_date = convert_to_number_of_days u.expiration_date;
}

-- noDataFoundErrorToGRPCError
unfoldable pub to_grpc_error {ℓ} : {A : Type ℓ} → Result A → Result A
to_grpc_error (ok a) = ok a
to_grpc_error (err e) = err (if is_no_data e then not_found else e)

abbrev pub each {ℓ} : {A B : Type ℓ} → (A → B) → List A → List B
each f [] = []
each f (x ∷ xs) = f x ∷ each f xs

-- The loop of userPreCheck, with the user info and the error that the last call left. A nil broker
-- ends it: Go panics there.
unfoldable pub ask_brokers :
    Processes → String → List (Option Broker) → Result String → Result String
ask_brokers p username [] last = last
ask_brokers p username (none ∷ bs) last = err no_brokerer
ask_brokers p username (some b ∷ bs) last =
    let answer = Broker.user_pre_check b (p b.id) username in
    let skipped = ask_brokers p username bs last in
    let rest = ask_brokers p username bs answer in
    if b.id == local_broker_name
    then skipped
    else elim answer [ err _ ↦ rest | ok userinfo ↦ if userinfo == "" then rest else ok userinfo ]

-- `unmarshal` is encoding/json for a user entry.
unfoldable pub user_pre_check :
    Service
    → Processes
    → (String → Result UserEntry)
    → List UserAttempt
    → String
    → Option (Result PasswdReply × Service)
user_pre_check s p unmarshal attempts username =
    elim (do
      userinfo ← ask_brokers p username (Brokers.available_brokers s.broker_manager) (ok "")
      fail_if (userinfo == "") unknown_broker
      unmarshal userinfo) [
        | err e ↦ some (err e, s)
        | ok u ↦ elim (register_user_pre_auth s.user_manager u.name attempts) [
          | none ↦ none
          | some (result, users) ↦ some (
            do uid ← result; ok (nss_passwd_from_users_passwd (record u { uid = uid })),
            record s { user_manager = users },
          )
        ]
      ]

-- an error of the pre-check is `NotFound`
abbrev pub as_not_found {ℓ} : {A : Type ℓ} → Result A → Result A
as_not_found (ok a) = ok a
as_not_found (err e) = err not_found

unfoldable pub get_passwd_by_name :
    Service
    → Processes
    → (String → Result UserEntry)
    → List UserAttempt
    → String
    → Bool
    → Option (Result PasswdReply × Service)
get_passwd_by_name s p unmarshal attempts name should_pre_check =
    if name == ""
    then some (err invalid_argument, s)
    else elim (Reads.user_by_name s.user_manager name) [
      | ok u ↦ some (ok (nss_passwd_from_users_passwd u), s)
      | err e ↦
          if not (is_no_data e) || not should_pre_check
          then some (to_grpc_error (err e), s)
          else elim (user_pre_check s p unmarshal attempts name) [
            | none ↦ none
            | some (result, s') ↦ some (as_not_found result, s')
          ]
    ]

unfoldable pub get_passwd_by_uid : Service → ℕ → Result PasswdReply
get_passwd_by_uid s uid = do
  u ← to_grpc_error (Reads.user_by_id s.user_manager uid)
  ok (nss_passwd_from_users_passwd u)

unfoldable pub get_passwd_entries : Service → Result (List PasswdReply)
get_passwd_entries s = do
  us ← Reads.all_users s.user_manager
  ok (each nss_passwd_from_users_passwd us)

unfoldable pub get_group_by_name : Service → String → Result GroupReply
get_group_by_name s name = do
  fail_if (name == "") invalid_argument
  g ← to_grpc_error (Reads.group_by_name s.user_manager name)
  ok (nss_group_from_users_group g)

unfoldable pub get_group_by_gid : Service → ℕ → Result GroupReply
get_group_by_gid s gid = do
  g ← to_grpc_error (Reads.group_by_id s.user_manager gid)
  ok (nss_group_from_users_group g)

unfoldable pub get_group_entries : Service → Result (List GroupReply)
get_group_entries s = do
  gs ← Reads.all_groups s.user_manager
  ok (each nss_group_from_users_group gs)

unfoldable pub get_shadow_by_name : Service → Peer → String → Result ShadowReply
get_shadow_by_name s peer name = do
  is_request_from_root s.root_uid peer
  fail_if (name == "") invalid_argument
  u ← to_grpc_error (Reads.shadow_by_name s.user_manager name)
  ok (nss_shadow_from_users_shadow u)

unfoldable pub get_shadow_entries : Service → Peer → Result (List ShadowReply)
get_shadow_entries s peer = do
  is_request_from_root s.root_uid peer
  us ← Reads.all_shadows s.user_manager
  ok (each nss_shadow_from_users_shadow us)
