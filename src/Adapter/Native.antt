-- ===== src/Adapter/Native.antt =====
-- pam/internal/adapter/nativemodel.go: the client of plain PAM conversations. What PAM answers in the
-- conversation that an update starts is a script, so that an update is none where the script is used up.
-- An asynchronous operation is computed with the script that its closure will get.
pub mod Challenge
pub mod Update
use authd.Prelude.{
  ℕ, ◌+◌, String, Bool, true, false, not, ◌||◌, ◌&&◌, Option, none, some, List, [], ◌∷◌, ◌==◌,
  string_eq, nat_eq, if◌then◌else◌, length, ltb, leb, select,
}
use authd.Pam.Layouts.{UiLayout}
use authd.Brokers.Broker.{local_broker_name}
use authd.Adapter.Messages.{
  Stage, user_selection, broker_selection, auth_mode_selection, challenge, other_stage, same_stage,
  stage_number, err_system, Failure, maybe_send_pam_error, Choice, Msg, Cmd, nil, send, sequence,
  pam_error, ui_layout_received, change_stage, user_selected, user_required, brokers_list_received,
  broker_selected, broker_selection_required, auth_modes_received, auth_mode_selected,
  is_authenticated_result_received, is_authenticated_cancelled, start_authentication,
  new_password_check_result, native_change_stage, native_stage_change_request,
  native_user_selection, native_broker_selection, native_auth_selection, native_challenge_requested,
  native_async_operation_completed, native_go_back,
}
use authd.Adapter.Conversation.{
  Answer, Conv, Input, PromptError, go_back, empty_response, not_an_integer, unhandled_entry,
  failure, prompt_for_input, prompt_for_choice, send_text,
}
use authd.Adapter.Widgets.{Env, Run}
use authd.Adapter.Authentication.{data_to_msg, message, bad_data}

-- The answers of the conversation, and whether GetPasswdByName with its pre-check succeeds.
pub record Talk : Type 0 where
  pub answers : List Answer
  pub prechecks : String → Bool

pub record NativeModel : Type 0 where
  pub has_nss_client : Bool
  pub available_brokers : List Choice
  pub auth_modes : List Choice
  pub selected_auth_mode : String
  pub ui_layout : Option UiLayout
  pub service_name : String
  pub interactive : Bool
  pub current_stage : Stage
  pub busy : Bool
  pub user_selection_allowed : Bool

abbrev pub polkit_service_name : String
polkit_service_name = "polkit-1"

unfoldable pub request_stage_change : Stage → Cmd
request_stage_change stage = send (native_stage_change_request stage)

-- s > t and s >= t on stages
abbrev pub stage_after : Stage → Stage → Bool
stage_after s t = ltb (stage_number t) (stage_number s)

abbrev pub stage_from : Stage → Stage → Bool
stage_from s t = leb (stage_number t) (stage_number s)

unfoldable pub previous_stage : NativeModel → Stage
previous_stage m =
    if stage_after m.current_stage auth_mode_selection && ltb 1 (length m.auth_modes)
    then auth_mode_selection
    else if stage_after m.current_stage broker_selection && ltb 1 (length m.available_brokers)
    then broker_selection
    else user_selection

unfoldable pub can_go_back : NativeModel → Bool
can_go_back m =
    if m.user_selection_allowed
    then stage_after m.current_stage user_selection
    else stage_after (previous_stage m) user_selection

unfoldable pub go_back_command : NativeModel → NativeModel × Cmd
go_back_command m =
    if stage_from m.current_stage challenge && elim m.ui_layout [ some _ ↦ true | none ↦ false ]
    then (record m { ui_layout = none }, send (is_authenticated_cancelled ""))
    else (let m' : NativeModel = record m {
      selected_auth_mode =
          if stage_from m.current_stage auth_mode_selection then "" else m.selected_auth_mode;
      auth_modes = if same_stage m.current_stage auth_mode_selection then [] else m.auth_modes;
    } in
        (m', if can_go_back m' then request_stage_change (previous_stage m') else nil))

-- maybeSendPamError of an error of a prompt: only those of PAM wrap a status
unfoldable pub send_prompt_error : PromptError → Cmd
send_prompt_error (failure f) = maybe_send_pam_error (some f)
send_prompt_error go_back = send (pam_error err_system "request to go back")
send_prompt_error empty_response = send (pam_error err_system "empty response received")
send_prompt_error not_an_integer = send (pam_error err_system "parsed value is not an integer")
send_prompt_error unhandled_entry = send (pam_error err_system "Unhandled entry")

unfoldable pub start_async_op : NativeModel → Cmd → NativeModel × Cmd
start_async_op m ret =
    (record m { busy = true }, sequence (send native_async_operation_completed) ret)

unfoldable pub maybe_pre_check_user : Talk → NativeModel → String → Cmd → Cmd
maybe_pre_check_user talk m user next =
    if not m.has_nss_client
    then next
    else if talk.prechecks user
    then next
    else send (broker_selected local_broker_name)

unfoldable pub ask_user : Talk → NativeModel → Run Cmd
ask_user talk m = elim (prompt_for_input (can_go_back m) talk.answers) [
  | none ↦ none
  | some ((user, none), _) ↦ some (maybe_pre_check_user talk m user (send (user_selected user)))
  | some ((user, some empty_response), _) ↦ some (send native_user_selection)
  | some ((user, some e), _) ↦ some (send_prompt_error e)
]

abbrev selection_error : String → Cmd
selection_error text = send (pam_error err_system text)

unfoldable pub ask_broker : Talk → NativeModel → Run Cmd
ask_broker talk m = elim (prompt_for_choice (can_go_back m) m.available_brokers talk.answers) [
  | none ↦ none
  | some ((id, none), _) ↦ some (send (broker_selected id))
  | some ((id, some go_back), _) ↦ some (send native_go_back)
  | some ((id, some _), _) ↦ some (selection_error "Provider selection error")
]

unfoldable pub ask_auth_mode : Talk → NativeModel → Run Cmd
ask_auth_mode talk m = elim (prompt_for_choice (can_go_back m) m.auth_modes talk.answers) [
  | none ↦ none
  | some ((id, none), _) ↦ some (send (auth_mode_selected id))
  | some ((id, some go_back), _) ↦ some (send native_go_back)
  | some ((id, some empty_response), _) ↦ some (request_stage_change challenge)
  | some ((id, some _), _) ↦ some (selection_error "Authentication method selection error")
]
