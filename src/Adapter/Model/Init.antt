-- ===== src/Adapter/Model/Init.antt =====
-- Init of the models of pam/internal/adapter, and isSSHSession of utils.go.
use authd.Prelude.{
  String, Bool, true, false, ◌||◌, ◌&&◌, Option, none, some, List, [], ◌∷◌, ◌==◌, string_eq,
  if◌then◌else◌, Dict, lookup,
}
use authd.Pam.Layouts.{UiLayout}
use authd.Brokers.Layouts.{build_items}
use authd.Adapter.Messages.{
  ClientType, native, interactive_terminal, gdm, user_selection, err_abort, Cmd, nil, send, call,
  batch, pam_error, supported_ui_layouts_received, health_check,
}
use authd.Adapter.Authentication.{new_authentication_model}
use authd.Adapter.UserSelection.{new_user_selection_model}
use authd.Adapter.BrokerSelection.{new_broker_selection_model}
use authd.Adapter.AuthModeSelection.{new_auth_mode_selection_model}
use authd.Adapter.Gdm.{new_gdm_model, init_gdm}
use authd.Adapter.Native.{NativeModel, polkit_service_name}
use authd.Adapter.Model.{UiModel, Outside, Updated, done}

-- What the models find at the start: the connection to authd, the PAM service, the environment of the
-- transaction, and whether the PAM TTY, or else the standard input, is a terminal.
pub record Startup : Type 0 where
  pub has_conn : Bool
  pub service : String
  pub env_list : Option (Dict String String)
  pub is_terminal_tty : Bool

abbrev has_key : String → Dict String String → Bool
has_key name envs = elim (lookup name envs) [ none ↦ false | some _ ↦ true ]

-- isSSHSessionFunc
unfoldable pub is_ssh_session : Startup → Bool
is_ssh_session start = if start.service == "sshd" then true else elim start.env_list [
  | none ↦ false
  | some envs ↦ has_key "SSH_CONNECTION" envs || has_key "SSH_AUTH_INFO_0" envs
]

unfoldable pub is_qrcode_rendering_supported : Startup → Bool
is_qrcode_rendering_supported start =
    if start.service == polkit_service_name
    then false
    else if is_ssh_session start
    then false
    else start.is_terminal_tty

abbrev no_layout : String → UiLayout
no_layout kind = record {
  type = kind;
  label = "";
  button = "";
  wait = "";
  entry = "";
  content = "";
  code = "";
  renders_qrcode = none;
}

abbrev booleans : List String
booleans = "true" ∷ "false" ∷ []

abbrev form_layout : List String → UiLayout
form_layout entries = record (no_layout "form") {
  label = "required";
  entry = build_items "optional" entries;
  wait = build_items "optional" booleans;
  button = "optional";
}

abbrev new_password_layout : List String → UiLayout
new_password_layout entries = record (no_layout "newpassword") {
  label = "required";
  entry = build_items "optional" entries;
  button = "optional";
}

abbrev qrcode_layout : Bool → UiLayout
qrcode_layout renders = record (no_layout "qrcode") {
  content = "required";
  code = "optional";
  wait = build_items "required" booleans;
  label = "optional";
  button = "optional";
  renders_qrcode = some renders;
}

abbrev terminal_entries : List String
terminal_entries = "chars" ∷ "chars_password" ∷ []

abbrev native_entries : List String
native_entries = "chars" ∷ "chars_password" ∷ "digits" ∷ "digits_password" ∷ []

-- Init of authModeSelectionModel
unfoldable pub init_auth_mode : ClientType → Cmd
init_auth_mode interactive_terminal = send (
    supported_ui_layouts_received (
      form_layout terminal_entries
      ∷ qrcode_layout true
      ∷ new_password_layout terminal_entries
      ∷ []))
init_auth_mode native = nil
init_auth_mode gdm = nil

-- the fields that UIModel.Init and Init of nativeModel set
unfoldable pub new_native_model : Startup → NativeModel
new_native_model start = record {
  has_nss_client = start.has_conn && is_ssh_session start;
  available_brokers = [];
  auth_modes = [];
  selected_auth_mode = "";
  ui_layout = none;
  service_name = start.service;
  interactive = is_ssh_session start || start.is_terminal_tty;
  current_stage = user_selection;
  busy = false;
  user_selection_allowed = false;
}

unfoldable pub init_native : Startup → Cmd
init_native start = send (
    supported_ui_layouts_received (
      form_layout native_entries
      ∷ new_password_layout native_entries
      ∷ (if start.service == polkit_service_name
          then []
          else qrcode_layout (is_qrcode_rendering_supported start) ∷ [])))

-- the models, and the command of the client's own model
unfoldable pub init_client : Startup → Outside → UiModel → Updated
init_client start o m = elim m.client_type [
  | gdm ↦ elim (init_gdm o.peer new_gdm_model) [
    | none ↦ none
    | some (g, cmd) ↦ done (record m { gdm_model = g }) cmd
  ]
  | native ↦ done (record m { native_model = new_native_model start }) (init_native start)
  | interactive_terminal ↦ done m nil
]

unfoldable pub new_models : UiModel → UiModel
new_models m = record m {
  user_selection_model = new_user_selection_model m.client_type;
  broker_selection_model = new_broker_selection_model m.client_type;
  auth_mode_selection_model = new_auth_mode_selection_model m.client_type;
  authentication_model = new_authentication_model m.client_type;
}

-- UIModel.Init; the client is set where there is a connection
unfoldable pub init : Startup → Outside → UiModel → Updated
init start o m = elim (init_client start o m) [
  | none ↦ none
  | some (m', cmd) ↦
      if start.has_conn
      then done (new_models m')
          (batch cmd (batch (init_auth_mode m.client_type) (call health_check)))
      else done m' (send (pam_error err_abort "No PAM client set"))
]
