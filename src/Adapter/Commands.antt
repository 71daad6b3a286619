-- ===== src/Adapter/Commands.antt =====
-- What the closures of pam/internal/adapter give when the loop runs them: commands.go, and those of
-- authentication.go, brokerselection.go, authmodeselection.go and gdmmodel.go. What authd, GDM and
-- pwquality answer at that time is `Server`.
use authd.Prelude.{
  String, Bool, ◌&&◌, Option, none, some, List, [], ◌∷◌, ◌==◌, string_eq, if◌then◌else◌,
}
use authd.Pam.{SessionMode}
use authd.Pam.Layouts.{UiLayout}
use authd.Brokers.Broker.{local_broker_name}
use authd.Adapter.Messages.{
  ClientType, Stage, err_system, err_cred_unavail, err_ignore, Item, challenge_item, Choice, Msg,
  pam_error, session_started, session_ended, ui_layout_received, brokers_list_received,
  broker_selected, broker_selection_required, supported_ui_layouts_received, auth_modes_received,
  is_authenticated_requested_send, is_authenticated_result_received, new_password_check,
  new_password_check_result, GdmEvent, Call, get_available_brokers, auto_select_for_user,
  start_broker_session, end_session, get_authentication_modes, get_layout, send_is_authenticated,
  check_new_password, cancel_and_wait, wait_and_start, emit_event, request_change_stage,
  request_ui_capabilities, wait_poll_frequency, health_check,
}
use authd.Adapter.Authentication.{is_gdm}

-- The answer of IsAuthenticated: the access and its data, a cancelled request, or another error.
pub data Access : Type 0 where
  accessed : String → String → Access
  request_cancelled request_failed : Access

-- The answer of one health check. Where the list of them ends, the check that follows is cancelled.
pub data Health : Type 0 where
  serving not_serving check_failed check_cancelled : Health

-- `none` is an error. SelectBroker gives the session and the key; of SelectAuthenticationMode the inner
-- none is a missing layout, and of the capabilities of GDM a missing reply. pwquality gives the text of
-- what is wrong.
pub record Server : Type 0 where
  pub available_brokers : Option (List Choice)
  pub previous_broker : String → Option String
  pub select_broker : String → String → SessionMode → Option (String × String)
  pub ends_session : String → Bool
  pub authentication_modes : String → List UiLayout → Option (List Choice)
  pub select_mode : String → String → Option (Option UiLayout)
  pub is_authenticated : String → Item → Access
  pub quality_error : String → String → Option String
  pub emits : GdmEvent → Bool
  pub changes_stage : Stage → Bool
  pub health : List Health
  pub ui_capabilities : Option (Option (List UiLayout))

abbrev fails : String → Msg
fails text = pam_error err_system text

-- the loop of startHealthCheck
unfoldable pub health_msg : List Health → Option Msg
health_msg [] = none
health_msg (serving ∷ answers) = health_msg answers
health_msg (not_serving ∷ answers) = some (fails "authd stopped serving")
health_msg (check_failed ∷ answers) = some (fails "authd stopped serving")
health_msg (check_cancelled ∷ answers) = none

unfoldable pub start_session : Server → String → String → SessionMode → Msg
start_session s broker_id username mode =
    if broker_id == local_broker_name
    then pam_error err_ignore ""
    else elim (s.select_broker broker_id username mode) [
      | none ↦ fails "can't select broker"
      | some (session_id, key) ↦
          if session_id == ""
          then fails "no session ID returned by broker"
          else if key == ""
          then fails "no encryption key returned by broker"
          else session_started broker_id session_id key
    ]

unfoldable pub previous_broker_msg : Server → String → Msg
previous_broker_msg s username = elim (s.previous_broker username) [
  | none ↦ broker_selection_required
  | some id ↦ if id == "" then broker_selection_required else broker_selected id
]

unfoldable pub modes_msg : Server → String → List UiLayout → Msg
modes_msg s session_id layouts = elim (s.authentication_modes session_id layouts) [
  | none ↦ fails "could not get authentication modes"
  | some [] ↦
      pam_error err_cred_unavail "no supported authentication mode available for this provider"
  | some (m ∷ modes) ↦ auth_modes_received (m ∷ modes)
]

unfoldable pub layout_msg : Server → String → String → Msg
layout_msg s session_id mode = elim (s.select_mode session_id mode) [
  | none ↦ fails "can't select authentication mode"
  | some none ↦ fails "invalid empty UI Layout information from broker"
  | some (some layout) ↦ ui_layout_received layout
]

unfoldable pub is_authenticated_msg : Server → String → Item → Option String → Msg
is_authenticated_msg s session_id item secret = elim (s.is_authenticated session_id item) [
  | request_cancelled ↦ is_authenticated_result_received "cancelled" secret ""
  | request_failed ↦ fails "authentication status failure"
  | accessed access msg ↦ is_authenticated_result_received access secret msg
]

unfoldable pub quality_msg : Server → String → String → Msg
quality_msg s old new = elim (s.quality_error old new) [
  | none ↦ new_password_check_result new ""
  | some text ↦ new_password_check_result new text
]

-- what the closure of isAuthenticatedRequested sends once it has started
unfoldable pub started_msg : ClientType → String → Item → Msg
started_msg client layout (challenge_item secret) =
    if is_gdm client && layout == "newpassword"
    then new_password_check secret
    else is_authenticated_requested_send (challenge_item secret)
started_msg client layout item = is_authenticated_requested_send item

abbrev failing : Bool → String → Option Msg
failing works text = if works then none else some (fails text)

unfoldable pub capabilities_msg : Server → Msg
capabilities_msg s = elim s.ui_capabilities [
  | none ↦ fails "Sending GDM UI capabilities Request failed"
  | some none ↦ supported_ui_layouts_received []
  | some (some layouts) ↦ supported_ui_layouts_received layouts
]

-- The message of a closure; none is nil. The closures that wait for the tracker give theirs when they
-- return.
unfoldable pub run_call : Server → Call → Option Msg
run_call s get_available_brokers = elim s.available_brokers [
  | none ↦ some (fails "could not get current available brokers")
  | some bs ↦ some (brokers_list_received bs)
]
run_call s (auto_select_for_user name) = some (previous_broker_msg s name)
run_call s (start_broker_session id name mode) = some (start_session s id name mode)
run_call s (end_session id) = if s.ends_session id then some session_ended else none
run_call s (get_authentication_modes id layouts) = some (modes_msg s id layouts)
run_call s (get_layout id mode) = some (layout_msg s id mode)
run_call s (send_is_authenticated id item secret) = some (is_authenticated_msg s id item secret)
run_call s (check_new_password old new) = some (quality_msg s old new)
run_call s cancel_and_wait = none
run_call s (wait_and_start client layout item) = some (started_msg client layout item)
run_call s (emit_event e) = failing (s.emits e) "Sending GDM event failed"
run_call s (request_change_stage stage) =
    failing (s.changes_stage stage) "Changing GDM stage failed"
run_call s request_ui_capabilities = some (capabilities_msg s)
run_call s wait_poll_frequency = none
run_call s health_check = health_msg s.health
