-- ===== src/Adapter/Model/Examples.antt =====
-- Updates of UIModel.
use authd.Prelude.{◌≡◌, refl, true, false, none, some, [], ◌∷◌, any, inr}
use authd.Brokers.Broker.{local_broker_name}
use authd.Pam.{login}
use authd.Adapter.Messages.{
  native, Cmd, nil, broker_selection, Choice, brokers_list_received, broker_selected, closures,
}
use authd.Adapter.Widgets.{Env}
use authd.Adapter.Gdm.{new_gdm_model}
use authd.Adapter.Native.Update.{update_native, handle_native}
use authd.Adapter.Model.{
  UiModel, SessionInfo, Outside, current_stage, to_stage, update_client_model,
}
use authd.Adapter.Model.Update.{update, update_all}
use authd.Adapter.Model.Init.{Startup, new_native_model}
use authd.Adapter.Model.Polkit.{local_broker_panics}
use authd.Adapter.Model.Back.{ends_session, going_back_ends_session}
use authd.Adapter.UserSelection.{new_user_selection_model, update_user_selection, edit_user}
use authd.Adapter.BrokerSelection.{new_broker_selection_model, update_broker_selection}
use authd.Adapter.AuthModeSelection.{
  new_auth_mode_selection_model, update_auth_mode_selection, press_auth_mode,
}
use authd.Adapter.Authentication.{new_authentication_model, update_authentication, forward}

abbrev env : Env
env = record {
  type_text = λ msg t. t;
  list_update = λ msg l. l;
  set_items = λ items l. record l { items = items };
  select_index = λ i l. record l { index = i };
  selected_item = λ l. none;
  blinks = false;
  now = 1000;
  address = 1;
  get_user_error = none;
  set_user_error = none;
  encodes_qrcode = λ content. true;
  json_members = λ reply_data. some [];
  json_text = λ text. some text;
  decode_base64 = λ text. some text;
  parse_public_key = λ asn1. some (asn1, true);
  encrypt = λ k secret. some secret;
}

abbrev outside : Outside
outside = record {
  env = env;
  peer = record { polled = some []; emit_fails = λ e. false; hello_matches = some true };
  talk = record { answers = []; prechecks = λ user. true };
}

abbrev polkit_startup : Startup
polkit_startup = record {
  has_conn = true;
  service = "polkit-1";
  env_list = none;
  is_terminal_tty = true;
}

abbrev session : SessionInfo
session = record { broker_id = "b1"; session_id = "s1"; encryption_key = "key" }

abbrev polkit_model : UiModel
polkit_model = record {
  client_type = native;
  session_mode = login;
  pam_user = "ann";
  session_starting_for_broker = "";
  current_session = some session;
  user_selection_model = new_user_selection_model native;
  broker_selection_model = new_broker_selection_model native;
  auth_mode_selection_model = new_auth_mode_selection_model native;
  authentication_model = new_authentication_model native;
  gdm_model = new_gdm_model;
  native_model = new_native_model polkit_startup;
  exit_status = none;
}

abbrev local_choice : Choice
local_choice = record { id = "local"; label = "local" }

abbrev other_choice : Choice
other_choice = record { id = "b1"; label = "Broker" }

listed : UiModel × Cmd
listed =
    elim (update outside (brokers_list_received (local_choice ∷ other_choice ∷ [])) polkit_model) [
      | some r ↦ r
      | none ↦ (polkit_model, nil)
    ]

polkit_service : polkit_model.native_model.service_name ≡ "polkit-1"
unfolding new_native_model
polkit_service = refl

listed-update :
    update outside (brokers_list_received (local_choice ∷ other_choice ∷ [])) polkit_model
    ≡ some (listed.0, listed.1)
unfolding listed update update_all update_user_selection edit_user update_broker_selection
    update_auth_mode_selection press_auth_mode update_authentication forward update_client_model
    update_native handle_native new_authentication_model new_native_model new_broker_selection_model
    new_auth_mode_selection_model new_user_selection_model
listed-update = refl

local_broker_panics_example : update outside (broker_selected local_broker_name) listed.0 ≡ none
local_broker_panics_example =
    local_broker_panics outside outside polkit_model listed.0 local_choice (other_choice ∷ [])
      listed.1 refl polkit_service refl listed-update

going_back_ends_session_example :
    (current_stage (to_stage env broker_selection polkit_model).0 ≡ broker_selection)
    × (any
          (ends_session session.session_id)
          (closures (to_stage env broker_selection polkit_model).1)
        ≡ true)
going_back_ends_session_example =
    going_back_ends_session env broker_selection polkit_model session refl (inr refl)
