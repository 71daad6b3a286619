-- ===== src/Pam/Examples.antt =====
-- Alice authenticates, and her broker is made the default one.
use authd.Prelude.{
  ◌≡◌, refl, String, false, none, some, ◌==◌, lookup, insert, erase, string_eq, nat_eq, find, ◌⊎◌,
}
use authd.Errors.{ok, err, invalid_layout}
use authd.Db.Tables.{UserRow}
use authd.Db.Users.{has_name, update_broker_for_user}
use authd.UserManager.Update.{update_broker}
use authd.UserManager.State.{found, Lookup}
use authd.UserManager.Examples.{manager, system, outcome, update_alice}
use authd.UserManager.Updates.{IsUpdated}
use authd.Brokers.Broker.{
  local_broker_name, validate_user_info, check_data, unmarshal_and_get_key, is_abs,
}
use authd.Brokers.Broker
use authd.Brokers.Broker.Answers.{IsAnswer}
use authd.Brokers.Manager as Brokers
use authd.Brokers.Manager.{load_brokers, new_manager}
use authd.Brokers.Broker.{new_broker}
use authd.Brokers.Examples.{started, started-IsKnown, in_session, processes, json}
use authd.Types.{UserInfo}
use authd.Pam.{
  Service, Authenticated, get_previous_broker, set_default_broker_for_user, is_authenticated,
  broker_answer, session_broker, update_granted,
}
use authd.Pam.Layouts.{UiLayout, ui_layout_to_map, map_to_ui_layout, ui_layout_to_map_round_trip}
use authd.Pam.Granted.{IsReply, IsInfoOf, Unchanged, is_authenticated_updates}
use authd.Pam.Remembered.{
  MayAnswer, set_default_broker_for_user_remembered, get_previous_broker_answers,
}
use authd.Brokers.Layouts.{Layout}

abbrev service : Service
service = record { user_manager = manager; broker_manager = started }

get_previous_broker_answers_example :
    MayAnswer service (get_previous_broker service found "alice").0
    × (service.user_manager ≡ (get_previous_broker service found "alice").1.user_manager)
get_previous_broker_answers_example =
    get_previous_broker_answers service found "alice" started-IsKnown

abbrev remembering : Service
remembering = record {
  user_manager = (update_broker manager "alice" "1234567").1;
  broker_manager = (Brokers.set_default_broker_for_user started "1234567" "alice").1;
}

alice_set : set_default_broker_for_user service "1234567" "alice" ≡ (ok tt, remembering)
unfolding set_default_broker_for_user Brokers.set_default_broker_for_user Brokers.broker_from_id
    update_broker update_broker_for_user new_manager load_brokers new_broker lookup insert erase
alice_set = refl

set_default_broker_for_user_remembered_example :
    ((◌==◌ {A = String} "1234567" local_broker_name) ≡ false)
    × ((lookup_user : Lookup)
        → get_previous_broker remembering lookup_user "alice" ≡ (ok "1234567", remembering))
    × ((u : UserRow) × (find (has_name "alice") remembering.user_manager.db.users ≡ some u)
        × (u.broker_id ≡ "1234567"))
set_default_broker_for_user_remembered_example =
    set_default_broker_for_user_remembered service remembering "1234567" "alice" started-IsKnown
      alice_set

abbrev authenticated : Authenticated
authenticated = record {
  response = ok ("granted", "");
  service = record { user_manager = outcome.manager; broker_manager = in_session };
  calls = outcome.calls;
}

abbrev in_session_service : Service
in_session_service = record { user_manager = manager; broker_manager = in_session }

alice_answer :
    broker_answer in_session_service processes json false "1234567-abc" (ok "{}")
    ≡ ok ("granted", "alice")
unfolding broker_answer session_broker Brokers.broker_from_session_id Brokers.broker_from_id
    Broker.is_authenticated check_data unmarshal_and_get_key validate_user_info is_abs lookup
alice_answer = refl

alice_authenticated :
    is_authenticated in_session_service processes system json false "1234567-abc" (ok "{}")
    ≡ some authenticated
unfolding is_authenticated update_granted
alice_authenticated = rw (alice_answer, is_authenticated) (rw (update_alice, update_granted) refl)

is_authenticated_updates_example :
    (payload : String) × IsReply in_session_service processes "1234567-abc"
      (ok "{}")
      "granted"
      payload
    × (((◌==◌ {A = String} "granted" "granted" ≡ false)
          × IsAnswer json payload "granted" ""
          × Unchanged in_session_service authenticated)
        ⊎ ((◌≡◌ {A = String × String} ("granted", "") ("granted", ""))
            × ((info : UserInfo) × IsInfoOf json payload info
                × IsUpdated manager info outcome.manager)
            × (in_session ≡ in_session)))
is_authenticated_updates_example =
    is_authenticated_updates in_session_service processes system json false "1234567-abc" (ok "{}")
      authenticated ("granted", "") (λ _ u h. h) alice_authenticated refl

abbrev qr_code : UiLayout
qr_code = record {
  type = "qrcode";
  label = "Scan";
  button = "";
  wait = "true";
  entry = "";
  content = "required";
  code = "";
  renders_qrcode = some false;
}

ui_layout_to_map_round_trip_example :
    ((qr_code.type ≡ "") × (ui_layout_to_map qr_code ≡ err invalid_layout))
    ⊎ ((m : Layout) × (ui_layout_to_map qr_code ≡ ok m)
        × (map_to_ui_layout m ≡ record qr_code { renders_qrcode = none }))
ui_layout_to_map_round_trip_example = ui_layout_to_map_round_trip qr_code
