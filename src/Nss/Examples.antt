-- ===== src/Nss/Examples.antt =====
-- A first login by way of the pre-check, and a shadow entry for root.
use authd.Prelude.{
  ◌≡◌, refl, String, true, some, List, [], ◌∷◌, lookup, insert, erase, string_eq, nat_eq, pos,
}
use authd.Errors.{Result, ok, err, no_data_found}
use authd.Types.{UserEntry}
use authd.Db.Users
use authd.TempEntries.PreAuth
use authd.TempEntries.PreAuth.Consistent.{new-IsConsistent}
use authd.TempEntries.PreAuth.Registered.{Answers}
use authd.TempEntries.Examples.{attempt, fresh_attempt, one_user}
use authd.TempEntries.Records
use authd.TempEntries.Users as TempUsers
use authd.UserManager.Update.{register_user_pre_auth}
use authd.UserManager.Reads
use authd.UserManager.Examples.{manager}
use authd.Brokers.Broker
use authd.Brokers.Manager as Brokers
use authd.Brokers.Manager.{load_brokers, new_manager}
use authd.Brokers.Broker.{new_broker}
use authd.Brokers.Examples.{started, processes}
use authd.Nss.{
  Service, credentials, PasswdReply, ShadowReply, get_passwd_by_name, user_pre_check, ask_brokers,
  nss_passwd_from_users_passwd, get_shadow_by_name, get_shadow_entries,
}
use authd.Nss.Days.{convert_to_number_of_days, convert_to_number_of_days_bounds, IsInt32, Clamps}
use authd.Nss.PreCheck.{
  OnlyPreAuth, pre_auth_of, shadow_needs_root, get_passwd_by_name-OnlyPreAuth,
  get_passwd_by_name_registers,
}

abbrev service : Service
service = record { user_manager = manager; broker_manager = started; root_uid = 0 }

abbrev bob : UserEntry
bob = record {
  name = "alice@example";
  uid = 0;
  gid = 0;
  gecos = "A";
  dir = "/home/al";
  shell = "/bin/sh";
}

abbrev unmarshal : String → Result UserEntry
unmarshal _ = ok (record bob { name = "alice" })

abbrev registered : Service
registered = record service {
  user_manager = record manager {
    temporary_records = record manager.temporary_records { pre_auth_users = one_user };
  };
}

abbrev reply : PasswdReply
reply = record {
  name = "alice";
  passwd = "x";
  uid = 1000000007;
  gid = 0;
  gecos = "A";
  homedir = "/home/al";
  shell = "/bin/sh";
}

not_there : Reads.user_by_name service.user_manager "al" ≡ err no_data_found
unfolding Reads.user_by_name Users.user_by_name Records.user_by_name TempUsers.user_by_name
    PreAuth.user_by_name lookup
not_there = refl

al_registered :
    get_passwd_by_name service processes unmarshal (attempt ∷ []) "al" true
    ≡ some (ok reply, registered)
unfolding get_passwd_by_name Reads.user_by_name Users.user_by_name Records.user_by_name
    TempUsers.user_by_name PreAuth.user_by_name user_pre_check ask_brokers Broker.user_pre_check
    Brokers.available_brokers new_manager load_brokers new_broker register_user_pre_auth
    Records.register_pre_auth_user PreAuth.register_pre_auth_user PreAuth.register_unique
    PreAuth.add_pre_auth_user PreAuth.is_unique_uid PreAuth.unique_among PreAuth.user_by_login
    nss_passwd_from_users_passwd lookup insert erase
al_registered = refl

get_passwd_by_name-OnlyPreAuth_example : OnlyPreAuth service registered
get_passwd_by_name-OnlyPreAuth_example =
    get_passwd_by_name-OnlyPreAuth service registered processes unmarshal (attempt ∷ []) "al" true
      (ok reply) al_registered

get_passwd_by_name_registers_example :
    (true ≡ true) × Answers (pre_auth_of service) "alice" (ok 1000000007) (pre_auth_of registered)
get_passwd_by_name_registers_example =
    get_passwd_by_name_registers service registered processes unmarshal (attempt ∷ []) "al" true
      no_data_found reply new-IsConsistent fresh_attempt not_there al_registered

shadow_needs_root_example :
    ((r : ShadowReply)
      → get_shadow_by_name service (credentials 1000) "alice" ≡ ok r
      → credentials 1000 ≡ credentials 0)
    × ((rs : List ShadowReply)
        → get_shadow_entries service (credentials 1000) ≡ ok rs
        → credentials 1000 ≡ credentials 0)
shadow_needs_root_example = shadow_needs_root service (credentials 1000) "alice"

convert_to_number_of_days_bounds_example :
    IsInt32 (convert_to_number_of_days (pos 3000000000))
    × Clamps (pos 3000000000) (convert_to_number_of_days (pos 3000000000))
convert_to_number_of_days_bounds_example = convert_to_number_of_days_bounds (pos 3000000000)
