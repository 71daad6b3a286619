-- ===== src/Adapter/Native/Update.antt =====
-- pam/internal/adapter/nativemodel.go: Init and Update.
use authd.Prelude.{
  String, Bool, true, false, not, ◌||◌, Option, none, some, [], ◌∷◌, ◌==◌, string_eq, nat_eq,
  if◌then◌else◌, select,
}
use authd.Pam.Layouts.{UiLayout}
use authd.Brokers.Broker.{local_broker_name}
use authd.Adapter.Messages.{
  Stage, user_selection, broker_selection, auth_mode_selection, challenge, other_stage, same_stage,
  err_system, maybe_send_pam_error, Msg, Cmd, nil, send, sequence, pam_error, ui_layout_received,
  change_stage, user_required, brokers_list_received, broker_selected, broker_selection_required,
  auth_modes_received, auth_mode_selected, is_authenticated_result_received,
  is_authenticated_cancelled, start_authentication, new_password_check_result, native_change_stage,
  native_stage_change_request, native_user_selection, native_broker_selection,
  native_auth_selection, native_challenge_requested, native_async_operation_completed,
  native_go_back,
}
use authd.Adapter.Conversation.{send_text}
use authd.Adapter.Widgets.{Env, Run}
use authd.Adapter.Authentication.{data_to_msg, message, bad_data}
use authd.Adapter.Native.{
  Talk, NativeModel, polkit_service_name, request_stage_change, go_back_command, start_async_op,
  maybe_pre_check_user, ask_user, ask_broker, ask_auth_mode,
}
use authd.Adapter.Native.Challenge.{start_challenge, new_password_challenge}

abbrev started : NativeModel → Run Cmd → Run (NativeModel × Cmd)
started m none = none
started m (some ret) = some (start_async_op m ret)

abbrev with_model : NativeModel → Run Cmd → Run (NativeModel × Cmd)
with_model m none = none
with_model m (some cmd) = some (m, cmd)

-- nativeStageChangeRequest; a stage that the enumeration does not name sends nothing
abbrev stage_selection : Stage → Option Msg
stage_selection user_selection = some native_user_selection
stage_selection broker_selection = some native_broker_selection
stage_selection auth_mode_selection = some native_auth_selection
stage_selection challenge = some native_challenge_requested
stage_selection (other_stage n) = none

unfoldable pub handle_stage_request : Stage → NativeModel → NativeModel × Cmd
handle_stage_request stage m =
    let base : Cmd = if same_stage m.current_stage stage then nil else send (change_stage stage) in
    (
      record m {
        current_stage = if same_stage m.current_stage stage then m.current_stage else stage;
      },
      elim (stage_selection stage) [ none ↦ nil | some msg ↦ sequence base (send msg) ],
    )

-- nativeUserSelection, with the user item of PAM, which it empties
unfoldable pub handle_user_selection :
    Env → Talk → String → NativeModel → Run (NativeModel × String × Cmd)
handle_user_selection env talk pam_user m =
    if not (same_stage m.current_stage user_selection)
    then some (m, pam_user, nil)
    else if m.busy
    then some (m, pam_user, nil)
    else elim env.set_user_error [
      | some f ↦ some (m, pam_user, maybe_send_pam_error (some f))
      | none ↦ elim (ask_user talk m) [
        | none ↦ none
        | some ret ↦ let (m', cmd) = start_async_op m ret in some (m', "", cmd)
      ]
    ]

unfoldable pub handle_broker_selection : Talk → NativeModel → Run (NativeModel × Cmd)
handle_broker_selection talk m =
    if not (same_stage m.current_stage broker_selection) || m.busy
    then some (m, nil)
    else elim m.available_brokers [
      | [] ↦ some (m, send (pam_error err_system "No brokers available to select"))
      | b ∷ [] ↦ some (m, send (broker_selected b.id))
      | b ∷ c ∷ bs ↦ started m (ask_broker talk m)
    ]

unfoldable pub handle_auth_selection : Talk → NativeModel → Run (NativeModel × Cmd)
handle_auth_selection talk m =
    if not (same_stage m.current_stage auth_mode_selection)
      || m.busy
      || not (m.selected_auth_mode == "")
    then some (m, nil)
    else elim m.auth_modes [
      | [] ↦ some (m, send (pam_error err_system "Can't authenticate without authentication modes"))
      | a ∷ [] ↦ some (m, send (auth_mode_selected a.id))
      | a ∷ b ∷ modes ↦ started m (ask_auth_mode talk m)
    ]

-- a text that is shown, and the error of showing it
unfoldable pub show : Talk → String → NativeModel → Run (NativeModel × Cmd)
show talk text m = elim (send_text text talk.answers) [
  | none ↦ none
  | some (shown, _) ↦ some (m, maybe_send_pam_error shown)
]

unfoldable pub handle_native_result :
    Env → Talk → String → String → NativeModel → Run (NativeModel × Cmd)
handle_native_result env talk access msg m = elim (data_to_msg env msg) [
  | bad_data e ↦ some (m, send (pam_error err_system e))
  | message text ↦
      if access == "granted"
      then show talk text m
      else if access == "next"
      then show talk text (record m { ui_layout = none })
      else if access == "retry"
      then show talk text m
      else if access == "denied"
      then some (m, nil)
      else if access == "cancelled"
      then some (m, send (is_authenticated_cancelled ""))
      else show talk "Access is not valid" m
]

-- The getters of a nil layout give empty texts.
abbrev pub empty_layout : UiLayout
empty_layout = record {
  type = "";
  label = "";
  button = "";
  wait = "";
  entry = "";
  content = "";
  code = "";
  renders_qrcode = none;
}

abbrev pub layout_of : NativeModel → UiLayout
layout_of m = elim m.ui_layout [ none ↦ empty_layout | some layout ↦ layout ]

unfoldable pub handle_check_result : Talk → String → String → NativeModel → Run (NativeModel × Cmd)
handle_check_result talk password msg m =
    if msg == ""
    then with_model m (new_password_challenge m (layout_of m) (some password) talk.answers)
    else elim (send_text msg talk.answers) [
      | none ↦ none
      | some (some f, _) ↦ some (m, maybe_send_pam_error (some f))
      | some (none, rest) ↦ with_model m (new_password_challenge m (layout_of m) none rest)
    ]

-- the messages of Update that do not change the user item of PAM
unfoldable pub handle_native : Env → Talk → String → Msg → NativeModel → Run (NativeModel × Cmd)
handle_native env talk pam_user (native_change_stage stage) m =
    some (record m { current_stage = stage }, nil)
handle_native env talk pam_user (native_stage_change_request stage) m =
    some (handle_stage_request stage m)
handle_native env talk pam_user native_async_operation_completed m =
    some (record m { busy = false }, nil)
handle_native env talk pam_user native_go_back m = some (go_back_command m)
handle_native env talk pam_user user_required m =
    some (record m { user_selection_allowed = true }, request_stage_change user_selection)
handle_native env talk pam_user (brokers_list_received bs) m = some (
  record m {
    available_brokers =
        if m.service_name == polkit_service_name
        then select (λ b. not (b.id == local_broker_name)) bs
        else bs;
  },
  nil,
)
handle_native env talk pam_user (auth_modes_received modes) m =
    some (record m { auth_modes = modes }, nil)
handle_native env talk pam_user broker_selection_required m =
    if m.busy then some (m, nil) else elim env.get_user_error [
      | some f ↦ some (m, maybe_send_pam_error (some f))
      | none ↦ some (
          start_async_op m
            (maybe_pre_check_user talk m pam_user (request_stage_change broker_selection)))
    ]
handle_native env talk pam_user native_broker_selection m = handle_broker_selection talk m
handle_native env talk pam_user native_auth_selection m = handle_auth_selection talk m
handle_native env talk pam_user (auth_mode_selected id) m =
    some (record m { selected_auth_mode = id }, nil)
handle_native env talk pam_user (ui_layout_received layout) m =
    some (record m { ui_layout = some layout }, nil)
handle_native env talk pam_user start_authentication m = some (m, request_stage_change challenge)
handle_native env talk pam_user native_challenge_requested m =
    if same_stage m.current_stage challenge
    then with_model m (start_challenge env m talk.answers)
    else some (m, nil)
handle_native env talk pam_user (new_password_check_result password msg) m =
    handle_check_result talk password msg m
handle_native env talk pam_user (is_authenticated_result_received access secret msg) m =
    handle_native_result env talk access msg m
handle_native env talk pam_user (is_authenticated_cancelled msg) m = some (go_back_command m)
handle_native env talk pam_user _ m = some (m, nil)

abbrev is_native_user_selection : Msg → Bool
is_native_user_selection native_user_selection = true
is_native_user_selection _ = false

unfoldable pub update_native :
    Env → Talk → String → Msg → NativeModel → Run (NativeModel × String × Cmd)
update_native env talk pam_user msg m =
    if is_native_user_selection msg
    then handle_user_selection env talk pam_user m
    else elim (handle_native env talk pam_user msg m) [
      | none ↦ none
      | some (m', cmd) ↦ some (m', pam_user, cmd)
    ]
