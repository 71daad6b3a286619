-- ===== src/Adapter/Messages.antt =====
-- pam/internal/adapter: what passes through the event loop. A message is a value, a command is what it
-- will do when the loop runs it. Of a text that wraps another error only the fixed part is kept.
use authd.Prelude.{
  ◌++◌, [], ◌∷◌, ℕ, ◌+◌, String, Bool, Option, none, some, List, ◌==◌, string_eq, nat_eq,
}
use authd.Pam.Layouts.{UiLayout}
use authd.Pam.{SessionMode}

-- PamClientType
pub data ClientType : Type 0 where
  native interactive_terminal gdm : ClientType

-- The enumeration Stage of pam.proto, with the values that it does not name.
pub data Stage : Type 0 where
  user_selection broker_selection auth_mode_selection challenge : Stage
  other_stage : ℕ → Stage

abbrev pub stage_number : Stage → ℕ
stage_number user_selection = 0
stage_number broker_selection = 1
stage_number auth_mode_selection = 2
stage_number challenge = 3
stage_number (other_stage n) = n + 4

abbrev pub same_stage : Stage → Stage → Bool
same_stage s t = stage_number s == stage_number t

-- The codes of pam.Error that the code names, and the others.
pub data Status : Type 0 where
  err_system err_abort err_auth err_authinfo_unavail err_cred_unavail : Status
  err_perm_denied err_ignore : Status
  other_status : ℕ → Status

-- The data of an authentication request, IARequest_AuthenticationData.
pub data Item : Type 0 where
  challenge_item wait_item skip_item : String → Item
  no_item : Item

-- The ID and the name of a broker or of an authentication mode: brokerItem, authModeItem and choicePair.
pub record Choice : Type 0 where
  pub id : String
  pub label : String

-- An error of the PAM transaction: the code that it wraps, if any, and its text.
pub record Failure : Type 0 where
  pub status : Option Status
  pub text : String

-- The types of message, under their Go names. `other` is what the widgets send to themselves.
pub data Msg : Type 0 where
  key : String → Msg
  pam_success : String → String → Msg
  pam_error : Status → String → Msg
  broker_list_received username_selected : Msg
  broker_selected_event : String → Msg
  session_started : String → String → String → Msg
  get_authentication_modes_requested : Msg
  auth_mode_selected_event : String → Msg
  ui_layout_received : UiLayout → Msg
  session_ended : Msg
  change_stage : Stage → Msg
  user_selected : String → Msg
  user_required : Msg
  brokers_list_received : List Choice → Msg
  broker_selected : String → Msg
  broker_selection_required : Msg
  supported_ui_layouts_received : List UiLayout → Msg
  supported_ui_layouts_set : Msg
  auth_modes_received : List Choice → Msg
  auth_mode_selected : String → Msg
  auth_mode_selection_focused : Msg
  is_authenticated_requested is_authenticated_requested_send : Item → Msg
  is_authenticated_result_received : String → Option String → String → Msg
  is_authenticated_cancelled : String → Msg
  reselect_auth_mode start_authentication : Msg
  err_msg_to_display : String → Msg
  new_password_check : String → Msg
  new_password_check_result : String → String → Msg
  button_selection_event : ℕ → Msg
  gdm_poll_done : Msg
  gdm_is_authenticated_result_received : String → Option String → String → Msg
  native_change_stage native_stage_change_request : Stage → Msg
  native_user_selection native_broker_selection native_auth_selection : Msg
  native_challenge_requested native_async_operation_completed native_go_back : Msg
  quit_msg other : Msg

-- What is sent to GDM without waiting for more than its acknowledgement: the events that
-- gdmModel.Update emits.
pub data GdmEvent : Type 0 where
  emit_user_selected emit_broker_selected emit_auth_mode_selected : String → GdmEvent
  emit_brokers_received emit_auth_modes_received : List Choice → GdmEvent
  emit_ui_layout_received : UiLayout → GdmEvent
  emit_start_authentication : GdmEvent
  emit_auth_event : String → String → GdmEvent

-- The closures that wait for something outside the loop, with what they capture.
pub data Call : Type 0 where
  get_available_brokers : Call
  auto_select_for_user : String → Call
  start_broker_session : String → String → SessionMode → Call
  end_session : String → Call
  get_authentication_modes : String → List UiLayout → Call
  get_layout : String → String → Call
  send_is_authenticated : String → Item → Option String → Call
  check_new_password : String → String → Call
  cancel_and_wait : Call
  wait_and_start : ClientType → String → Item → Call
  emit_event : GdmEvent → Call
  request_change_stage : Stage → Call
  request_ui_capabilities : Call
  health_check : Call
  wait_poll_frequency : Call

-- tea.Cmd: nil, sendEvent, tea.Sequence, tea.Batch, and a closure.
pub data Cmd : Type 0 where
  nil : Cmd
  send : Msg → Cmd
  call : Call → Cmd
  sequence batch : Cmd → Cmd → Cmd

-- maybeSendPamError
unfoldable pub maybe_send_pam_error : Option Failure → Cmd
maybe_send_pam_error none = nil
maybe_send_pam_error (some f) = elim f.status [
  | some status ↦ send (pam_error status f.text)
  | none ↦ send (pam_error err_system f.text)
]

-- The authentication requests that a command sends, in order.
abbrev pub requests : Cmd → List Item
requests nil = []
requests (send (is_authenticated_requested item)) = item ∷ []
requests (send _) = []
requests (call c) = []
requests (sequence a b) = requests a ++ requests b
requests (batch a b) = requests a ++ requests b

-- The closures that a command runs, in order.
abbrev pub closures : Cmd → List Call
closures nil = []
closures (send msg) = []
closures (call c) = c ∷ []
closures (sequence a b) = closures a ++ closures b
closures (batch a b) = closures a ++ closures b
