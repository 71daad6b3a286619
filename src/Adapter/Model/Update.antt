-- ===== src/Adapter/Model/Update.antt =====
-- pam/internal/adapter/model.go: Update.
use authd.Prelude.{
  String, not, ◌⊎◌, inl, inr, ◌||◌, ◌&&◌, none, some, [], ◌∷◌, ◌==◌, string_eq, if◌then◌else◌,
}
use authd.Pam.Layouts.{UiLayout}
use authd.Adapter.Messages.{
  user_selection, broker_selection, auth_mode_selection, challenge, other_stage, err_system,
  err_abort, Msg, Cmd, nil, send, call, sequence, batch, key, pam_success, pam_error,
  broker_list_received, username_selected, broker_selected_event, session_started,
  get_authentication_modes_requested, auth_mode_selected_event, ui_layout_received, session_ended,
  change_stage, auto_select_for_user, start_broker_session, get_authentication_modes, get_layout,
}
use authd.Adapter.Widgets.{Env}
use authd.Adapter.Authentication.{AuthenticationModel, update_authentication}
use authd.Adapter.Authentication.Compose.{compose}
use authd.Adapter.UserSelection.{update_user_selection, select_user, username}
use authd.Adapter.BrokerSelection.{BrokerSelectionModel, update_broker_selection}
use authd.Adapter.AuthModeSelection.{update_auth_mode_selection}
use authd.Adapter.Model.{
  ExitStatus, exit_success, exit_error, UiModel, Outside, Updated, done, end_session_cmd, quit,
  current_stage, to_stage, update_client_model,
}

-- the models after their updates, those of the broker selection and of the authentication given
abbrev pub with_models :
    Outside → Msg → UiModel → BrokerSelectionModel → AuthenticationModel → UiModel
with_models o msg m b n =
    let (u, user, c1) = update_user_selection o.env m.pam_user msg m.user_selection_model in
    let (a, c3) = update_auth_mode_selection o.env msg m.auth_mode_selection_model in
    record m {
      user_selection_model = u;
      pam_user = user;
      broker_selection_model = b;
      auth_mode_selection_model = a;
      authentication_model = n;
    }

abbrev pub user_cmd : Outside → Msg → UiModel → Cmd
user_cmd o msg m = (update_user_selection o.env m.pam_user msg m.user_selection_model).2

abbrev pub auth_mode_cmd : Outside → Msg → UiModel → Cmd
auth_mode_cmd o msg m = (update_auth_mode_selection o.env msg m.auth_mode_selection_model).1

-- what follows the switch of Update: every sub model gets the message
unfoldable pub update_all : Outside → Msg → UiModel → Updated
update_all o msg m = elim (update_broker_selection o.env msg m.broker_selection_model) [
  | none ↦ none
  | some (b, c2) ↦ elim (update_authentication o.env msg m.authentication_model) [
    | none ↦ none
    | some (n, c4) ↦ elim (update_client_model o msg (with_models o msg m b n)) [
      | none ↦ none
      | some (m', c5) ↦
          done m'
            (batch (user_cmd o msg m) (batch c2 (batch (auth_mode_cmd o msg m) (batch c4 c5))))
    ]
  ]
]

-- "esc", where no list captures it
unfoldable pub press_esc : Env → UiModel → UiModel × Cmd
press_esc env m = elim (current_stage m) [
  | broker_selection ↦
      if m.user_selection_model.enabled then to_stage env user_selection m else (m, nil)
  | auth_mode_selection ↦ to_stage env broker_selection m
  | challenge ↦ to_stage env auth_mode_selection m
  | user_selection ↦ (m, nil)
  | other_stage n ↦ (m, nil)
]

unfoldable pub press_key : Outside → String → UiModel → Updated
press_key o name m =
    if name == "ctrl+c"
    then done m (send (pam_error err_abort "cancel requested"))
    else if name == "esc"
        && not
            (m.broker_selection_model.list.filtering || m.auth_mode_selection_model.list.filtering)
    then some (press_esc o.env m)
    else update_all o (key name) m

-- The first return status stays.
unfoldable pub set_exit_status : ExitStatus → UiModel → UiModel × Cmd
set_exit_status status m = elim m.exit_status [
  | some _ ↦ (m, nil)
  | none ↦ let m' : UiModel = record m { exit_status = some status } in (m', quit m')
]

unfoldable pub handle_broker_selected : Outside → String → UiModel → Updated
handle_broker_selected o id m =
    if m.session_starting_for_broker == ""
    then done (record m { session_starting_for_broker = id })
        (call (start_broker_session id (username m.user_selection_model) m.session_mode))
    else if m.session_starting_for_broker == id
    then update_all o (broker_selected_event id) m
    else done m (sequence (end_session_cmd m.current_session) (send (broker_selected_event id)))

-- the key of a session, or the text of the error: base64, then PKIX, then an RSA key
abbrev pub session_key : Env → String → String ⊎ String
session_key env encoded = elim (env.decode_base64 encoded) [
  | none ↦ inr "encryption key sent by broker is not a valid base64 encoded string"
  | some asn1 ↦ elim (env.parse_public_key asn1) [
    | none ↦ inr "encryption key send by broker is not valid"
    | some (parsed, is_rsa) ↦
        if is_rsa then inl parsed else inr "expected encryption key sent by broker to be RSA"
  ]
]

unfoldable pub handle_session_started : Env → String → String → String → UiModel → UiModel × Cmd
handle_session_started env broker_id session_id encoded m =
    let m' : UiModel = record m { session_starting_for_broker = "" } in
    elim (session_key env encoded) [
      | inr text ↦ (m', send (pam_error err_system text))
      | inl parsed ↦ (
        record m' {
          current_session =
              some (record {
                broker_id = broker_id;
                session_id = session_id;
                encryption_key = parsed;
              });
        },
        send get_authentication_modes_requested,
      )
    ]

unfoldable pub handle_modes_requested : Env → UiModel → UiModel × Cmd
handle_modes_requested env m = elim m.current_session [
  | none ↦ (m, nil)
  | some s ↦
      let request =
        get_authentication_modes s.session_id m.auth_mode_selection_model.supported_ui_layouts in
      let (m', cmd) = to_stage env auth_mode_selection m in (m', sequence (call request) cmd)
]

-- an empty ID stands for the mode that is selected
abbrev pub reselected : String → UiModel → String
reselected id m = if id == "" then m.auth_mode_selection_model.current_auth_mode_selected_id else id

unfoldable pub handle_auth_mode_selected : Outside → String → UiModel → Updated
handle_auth_mode_selected o id m = elim m.current_session [
  | none ↦ done m nil
  | some s ↦
      let mode = reselected id m in
      if mode == ""
      then done m
          (send (pam_error err_system "reselection of current auth mode without current ID"))
      else elim (update_client_model o (auth_mode_selected_event mode) m) [
        | none ↦ none
        | some (m', cmd) ↦ done m' (sequence cmd (call (get_layout s.session_id mode)))
      ]
]

unfoldable pub handle_layout_received : Outside → UiLayout → UiModel → Updated
handle_layout_received o layout m = elim m.current_session [
  | none ↦ done m nil
  | some s ↦
      elim (compose o.env s.broker_id s.session_id (some s.encryption_key) layout
        m.authentication_model) [
          | none ↦ none
          | some (a, c1) ↦
              elim (update_client_model o (ui_layout_received layout)
                (record m { authentication_model = a })) [
                  | none ↦ none
                  | some (m', c2) ↦ done m' (sequence c1 c2)
                ]
        ]
]

-- BrokerListReceived: the brokers are nil only before the first list
abbrev pub handle_list_received : Env → UiModel → Cmd
handle_list_received env m = elim m.broker_selection_model.available_brokers [
  | [] ↦ nil
  | b ∷ bs ↦ select_user env m.pam_user
]

abbrev pub handle_username_selected : UiModel → Cmd
handle_username_selected m =
    let name = username m.user_selection_model in
    if name == "" then nil else call (auto_select_for_user name)

unfoldable pub update : Outside → Msg → UiModel → Updated
update o (key name) m = press_key o name m
update o (pam_success broker_id text) m = some (set_exit_status (exit_success broker_id text) m)
update o (pam_error status text) m = some (set_exit_status (exit_error status text) m)
update o broker_list_received m = done m (handle_list_received o.env m)
update o username_selected m = done m (handle_username_selected m)
update o (broker_selected_event id) m = handle_broker_selected o id m
update o (session_started broker_id session_id encoded) m =
    some (handle_session_started o.env broker_id session_id encoded m)
update o (change_stage s) m = some (to_stage o.env s m)
update o get_authentication_modes_requested m = some (handle_modes_requested o.env m)
update o (auth_mode_selected_event id) m = handle_auth_mode_selected o id m
update o (ui_layout_received layout) m = handle_layout_received o layout m
update o session_ended m =
    done (record m { session_starting_for_broker = ""; current_session = none }) nil
update o msg m = update_all o msg m
