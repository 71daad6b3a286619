-- ===== src/Adapter/Loop/Examples.antt =====
-- A run of the event loop in a terminal: from Init to a success.
use authd.Prelude.{lookup, ◌≡◌, refl, true, false, none, some, [], ◌∷◌}
use authd.Pam.{login}
use authd.Pam.Layouts.{UiLayout}
use authd.Adapter.Messages.{Cmd, nil, interactive_terminal}
use authd.Adapter.Widgets.{Env}
use authd.Adapter.Commands.{
  serving, check_cancelled, health_msg, start_session, previous_broker_msg, modes_msg, layout_msg,
  is_authenticated_msg, started_msg, run_call, Server, accessed,
}
use authd.Adapter.Gdm.{new_gdm_model}
use authd.Adapter.Model.{
  return_status, current_stage, blur_stage, enter_stage, to_stage, update_client_model, msg_filter,
  exit_success, UiModel, Outside,
}
use authd.Adapter.Model.Init.{
  init_auth_mode, init_client, new_models, init, Startup, new_native_model,
}
use authd.Adapter.UserSelection.{
  select_user, handle_user_selected, edit_user, update_user_selection, username, blur_user,
  new_user_selection_model,
}
use authd.Adapter.BrokerSelection.{
  key_action, find_broker, broker_from_id, press_broker, update_broker_selection,
  new_broker_selection_model,
}
use authd.Adapter.AuthModeSelection.{
  valid_auth_mode_id, press_auth_mode, update_auth_mode_selection, new_auth_mode_selection_model,
}
use authd.Adapter.Authentication.Compose.{component_of, compose}
use authd.Adapter.Authentication.{
  encrypt_secret_if_present, data_to_msg, focused, forward, handle_result, update_authentication,
  focus, reset_authentication, new_authentication_model,
}
use authd.Adapter.Loop.Success.{success_needs_grant, started}
use authd.Adapter.Loop.Scheduler.{run_oldest, run-Reach, run}
use authd.Adapter.Loop.{Loop}
use authd.Adapter.Model.Update.{
  update_all, set_exit_status, handle_broker_selected, handle_session_started,
  handle_modes_requested, handle_auth_mode_selected, handle_layout_received, update,
}
use authd.Adapter.Forms.{
  new_form_model, field_at, update_focused_field, update_form, form_focused, update_component,
  init_component, set_component_focus, focus_component_cmd, component_focused,
}
use authd.Adapter.Loop.{here}

abbrev terminal_env : Env
terminal_env = record {
  type_text = λ msg t. t;
  list_update = λ msg l. l;
  set_items = λ items l. record l { items = items };
  select_index = λ i l. record l { index = i };
  selected_item = λ l. none;
  blinks = false;
  now = 1000;
  address = 1;
  get_user_error = none;
  set_user_error = none;
  encodes_qrcode = λ content. true;
  json_members = λ reply_data. some (("message", "Welcome") ∷ []);
  json_text = λ text. some text;
  decode_base64 = λ text. some text;
  parse_public_key = λ asn1. some (asn1, true);
  encrypt = λ key secret. some secret;
}

abbrev outside : Outside
outside = record {
  env = terminal_env;
  peer = record { polled = some []; emit_fails = λ e. false; hello_matches = some true };
  talk = record { answers = []; prechecks = λ user. true };
}

-- a form that only waits
abbrev waiting_form : UiLayout
waiting_form = record {
  type = "form";
  label = "Approve";
  button = "";
  wait = "true";
  entry = "";
  content = "";
  code = "";
  renders_qrcode = none;
}

abbrev granting : Server
granting = record {
  available_brokers =
      some (record { id = "local"; label = "local" } ∷ record { id = "b1"; label = "Broker" } ∷ []);
  previous_broker = λ user. some "b1";
  select_broker = λ id user mode. some ("s1", "key");
  ends_session = λ id. true;
  authentication_modes = λ id layouts. some (record { id = "phone"; label = "Phone" } ∷ []);
  select_mode = λ id mode. some (some waiting_form);
  is_authenticated = λ id item. accessed "granted" "{}";
  quality_error = λ old new. none;
  emits = λ e. true;
  changes_stage = λ s. true;
  health = serving ∷ check_cancelled ∷ [];
  ui_capabilities = none;
}

abbrev startup : Startup
startup = record { has_conn = true; service = "login"; env_list = none; is_terminal_tty = true }

abbrev first_model : UiModel
first_model = record {
  client_type = interactive_terminal;
  session_mode = login;
  pam_user = "ann";
  session_starting_for_broker = "";
  current_session = none;
  user_selection_model = new_user_selection_model interactive_terminal;
  broker_selection_model = new_broker_selection_model interactive_terminal;
  auth_mode_selection_model = new_auth_mode_selection_model interactive_terminal;
  authentication_model = new_authentication_model interactive_terminal;
  gdm_model = new_gdm_model;
  native_model = new_native_model startup;
  exit_status = none;
}

-- what Init gives, and the loop after enough commands
begun : UiModel × Cmd
begun = elim (init startup outside first_model) [ some r ↦ r | none ↦ (first_model, nil) ]

final : Loop
final = run 150 granting outside (started begun.0 begun.1)

begun-init : init startup outside first_model ≡ some (begun.0, begun.1)
unfolding begun init init_client
begun-init = refl

final-status : return_status final.ui ≡ exit_success "b1" "Welcome"
unfolding return_status final begun run_oldest run current_stage blur_stage enter_stage to_stage
    update_client_model msg_filter update_all set_exit_status handle_broker_selected
    handle_session_started handle_modes_requested handle_auth_mode_selected handle_layout_received
    update init_auth_mode init_client new_models init new_user_selection_model select_user
    handle_user_selected edit_user update_user_selection username blur_user
    new_broker_selection_model find_broker broker_from_id press_broker update_broker_selection
    new_auth_mode_selection_model valid_auth_mode_id press_auth_mode update_auth_mode_selection
    new_authentication_model data_to_msg focused forward handle_result update_authentication focus
    component_of compose reset_authentication new_form_model field_at update_focused_field
    update_form form_focused update_component init_component set_component_focus focus_component_cmd
    component_focused start_session previous_broker_msg modes_msg layout_msg is_authenticated_msg
    started_msg run_call key_action encrypt_secret_if_present lookup health_msg
final-status = refl

success_needs_grant_example :
    (final.granted ≡ true) × (return_status final.ui ≡ exit_success "b1" "Welcome")
unfolding final
success_needs_grant_example =
    success_needs_grant startup outside first_model begun.0 begun.1 final final "b1" "Welcome" refl
      begun-init (run-Reach 150 granting outside (started begun.0 begun.1)) final-status here
