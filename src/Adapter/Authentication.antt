-- ===== src/Adapter/Authentication.antt =====
-- authenticationModel of pam/internal/adapter/authentication.go. The tracker is shared by the copies of
-- the model, and there is one model; the contexts of the requests are left out.
pub mod Compose
use Prim.Native.String as Str
use authd.Prelude.{
  String, Bool, true, false, not, ◌||◌, ◌⊎◌, inl, inr, Option, none, some, [], ◌==◌, string_eq,
  if◌then◌else◌, lookup, Dict,
}
use authd.Pam.Layouts.{UiLayout}
use authd.Adapter.Messages.{
  ClientType, interactive_terminal, gdm, challenge, err_system, err_auth, Item, challenge_item, Msg,
  Cmd, nil, send, call, sequence, pam_success, pam_error, get_authentication_modes_requested,
  auth_mode_selected_event, change_stage, is_authenticated_requested,
  is_authenticated_requested_send, is_authenticated_result_received, is_authenticated_cancelled,
  reselect_auth_mode, start_authentication, err_msg_to_display, new_password_check,
  new_password_check_result, check_new_password, cancel_and_wait, wait_and_start,
  send_is_authenticated,
}
use authd.Adapter.Tracker.{Tracker, new_tracker, reset}
use authd.Adapter.Widgets.{Env, Run}
use authd.Adapter.NewPassword.{new_new_password_model}
use authd.Adapter.Forms.{
  Component, form, qrcode, new_password, update_component, init_component, component_focused,
  set_component_focus, focus_component_cmd, new_form_model, new_qrcode_model,
}

pub record AuthenticationModel : Type 0 where
  pub client_type : ClientType
  pub current_model : Option Component
  pub current_session_id : String
  pub current_broker_id : String
  pub current_secret : String
  pub current_layout : String
  pub auth_tracker : Tracker
  pub encryption_key : Option String
  pub error_msg : String

unfoldable pub new_authentication_model : ClientType → AuthenticationModel
new_authentication_model client_type = record {
  client_type = client_type;
  current_model = none;
  current_session_id = "";
  current_broker_id = "";
  current_secret = "";
  current_layout = "";
  auth_tracker = new_tracker;
  encryption_key = none;
  error_msg = "";
}

abbrev pub is_interactive : ClientType → Bool
is_interactive interactive_terminal = true
is_interactive _ = false

abbrev pub is_gdm : ClientType → Bool
is_gdm gdm = true
is_gdm _ = false

-- The message of a broker's data, or the text of an error.
pub data Reply : Type 0 where
  message bad_data : String → Reply

abbrev reply_of : Dict String String → Reply
reply_of [] = message ""
reply_of v = elim (lookup "message" v) [
  | none ↦ bad_data "no message entry in json data from provider"
  | some r ↦ message r
]

unfoldable pub data_to_msg : Env → String → Reply
data_to_msg env reply_data =
    if reply_data == "" then message "" else elim (env.json_members reply_data) [
      | none ↦ bad_data "invalid json data from provider"
      | some v ↦ reply_of v
    ]

-- The request as it is sent, with the plain secret beside it; `none` inside is an error, and a nil key
-- is a panic.
unfoldable pub encrypt_secret_if_present :
    Env → Option String → Item → Run (Option (Item × Option String))
encrypt_secret_if_present env key (challenge_item secret) = elim key [
  | none ↦ none
  | some k ↦ elim (env.encrypt k secret) [
    | none ↦ some none
    | some text ↦ some (some (challenge_item text, some secret))
  ]
]
encrypt_secret_if_present env key item = some (some (item, none))

unfoldable pub focused : AuthenticationModel → Bool
focused m = elim m.current_model [ none ↦ false | some c ↦ component_focused c ]

-- what follows the switch of Update: the current sub model handles the message
unfoldable pub forward : Env → Msg → AuthenticationModel → Run (AuthenticationModel × Cmd)
forward env msg m =
    if not (is_interactive m.client_type)
    then some (m, nil)
    else if not (focused m)
    then some (m, nil)
    else elim m.current_model [
      | none ↦ some (m, nil)
      | some c ↦ elim (update_component env msg c) [
        | none ↦ none
        | some (c', cmd) ↦ some (record m { current_model = some c' }, cmd)
      ]
    ]

-- the deferred function of isAuthenticatedResultReceived, on the model that is returned
unfoldable pub after_result : String → Option String → AuthenticationModel → AuthenticationModel
after_result access secret m =
    let kept : String = elim secret [
      | none ↦ m.current_secret
      | some s ↦ if access == "granted" || access == "next" then s else m.current_secret
    ] in
    record m {
      current_secret = kept;
      current_model = if access == "next" || access == "retry" then m.current_model else none;
      auth_tracker = reset m.auth_tracker;
    }

abbrev denied_text : String → String
denied_text text = if text == "" then "Access denied" else text

-- the switch on the access, before the deferred function
unfoldable pub handle_result :
    Env → String → Option String → String → AuthenticationModel → Run (AuthenticationModel × Cmd)
handle_result env access secret msg m =
    if access == "granted"
    then elim (data_to_msg env msg) [
      | bad_data e ↦ some (m, send (pam_error err_system e))
      | message text ↦ some (m, send (pam_success m.current_broker_id text))
    ]
    else if access == "retry"
    then elim (data_to_msg env msg) [
      | bad_data e ↦ some (m, send (pam_error err_system e))
      | message text ↦ some (record m { error_msg = text }, send start_authentication)
    ]
    else if access == "denied"
    then elim (data_to_msg env msg) [
      | bad_data e ↦ some (m, send (pam_error err_system e))
      | message text ↦ some (m, send (pam_error err_auth (denied_text text)))
    ]
    else if access == "next"
    then some (m, send get_authentication_modes_requested)
    else if access == "cancelled"
    then some (m, nil)
    else forward env (is_authenticated_result_received access secret msg) m

-- The outcome of a quality check, where the client is GDM.
unfoldable pub gdm_check_result : Env → String → String → Cmd
gdm_check_result env password msg =
    if msg == ""
    then send (is_authenticated_requested_send (challenge_item password))
    else elim (env.json_text msg) [
      | none ↦ send (pam_error err_system "could not encode error")
      | some text ↦ send (
          is_authenticated_result_received "retry" none
            (Str.◌++◌ "{\"message\": " (Str.◌++◌ text "}")))
    ]

unfoldable pub update_authentication :
    Env → Msg → AuthenticationModel → Run (AuthenticationModel × Cmd)
update_authentication env reselect_auth_mode m =
    some (m, sequence (call cancel_and_wait) (send (auth_mode_selected_event "")))
update_authentication env (new_password_check password) m =
    some (m, call (check_new_password m.current_secret password))
update_authentication env (new_password_check_result password msg) m =
    if is_gdm m.client_type
    then some (m, gdm_check_result env password msg)
    else forward env (new_password_check_result password msg) m
update_authentication env (is_authenticated_requested item) m =
    some (m, call (wait_and_start m.client_type m.current_layout item))
update_authentication env (is_authenticated_requested_send item) m =
    elim (encrypt_secret_if_present env m.encryption_key item) [
      | none ↦ none
      | some none ↦ some (m, send (pam_error err_system "could not encrypt password payload"))
      | some (some (sent, secret)) ↦
          some (m, call (send_is_authenticated m.current_session_id sent secret))
    ]
update_authentication env (is_authenticated_cancelled msg) m = some (m, call cancel_and_wait)
update_authentication env (is_authenticated_result_received access secret msg) m =
    elim (handle_result env access secret msg m) [
      | none ↦ none
      | some (m', cmd) ↦ some (after_result access secret m', cmd)
    ]
update_authentication env (err_msg_to_display msg) m = some (record m { error_msg = msg }, nil)
update_authentication env msg m = forward env msg m

unfoldable pub focus : Env → AuthenticationModel → AuthenticationModel × Cmd
focus env m = elim m.current_model [
  | none ↦ (m, nil)
  | some c ↦
      (record m { current_model = some (set_component_focus true c) }, focus_component_cmd env c)
]

unfoldable pub blur : AuthenticationModel → AuthenticationModel
blur m = elim m.current_model [
  | none ↦ m
  | some c ↦ record m { current_model = some (set_component_focus false c) }
]

unfoldable pub reset_authentication : AuthenticationModel → AuthenticationModel × Cmd
reset_authentication m = (
  record m {
    current_model = none;
    current_session_id = "";
    current_broker_id = "";
    current_layout = "";
  },
  call cancel_and_wait,
)
