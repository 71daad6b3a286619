-- ===== src/Adapter/Model.antt =====
-- pam/internal/adapter/model.go: the model that orchestrates the others.
pub mod Update
pub mod Init
pub mod Polkit
pub mod Back
mod Examples
use authd.Prelude.{
  String, Bool, true, false, Option, none, some, List, [], ◌∷◌, ◌++◌, ◌==◌, string_eq, nat_eq,
  if◌then◌else◌,
}
use authd.Pam.{SessionMode}
use authd.Brokers.Broker.{local_broker_name}
use authd.Adapter.Messages.{
  ClientType, native, interactive_terminal, gdm, Stage, user_selection, broker_selection,
  auth_mode_selection, challenge, other_stage, same_stage, Status, err_system, Choice, Msg, Cmd,
  nil, send, call, sequence, pam_error, brokers_list_received, auth_mode_selection_focused,
  native_change_stage, quit_msg, end_session,
}
use authd.Adapter.Widgets.{Env, Run}
use authd.Adapter.Authentication.{
  AuthenticationModel, focused, focus, blur, reset_authentication, is_gdm,
}
use authd.Adapter.UserSelection.{UserSelectionModel, focus_user, blur_user}
use authd.Adapter.BrokerSelection.{BrokerSelectionModel}
use authd.Adapter.AuthModeSelection.{AuthModeSelectionModel, reset_auth_mode}
use authd.Adapter.Gdm.{Peer, GdmModel, update_gdm, change_gdm_stage, stop_conversations}
use authd.Adapter.Native.{Talk, NativeModel, polkit_service_name}
use authd.Adapter.Native.Update.{update_native}

pub record SessionInfo : Type 0 where
  pub broker_id : String
  pub session_id : String
  pub encryption_key : String

-- PamReturnStatus
pub data ExitStatus : Type 0 where
  exit_success : String → String → ExitStatus
  exit_error : Status → String → ExitStatus

-- `pam_user` is the user item of the PAM transaction.
pub record UiModel : Type 0 where
  pub client_type : ClientType
  pub session_mode : SessionMode
  pub pam_user : String
  pub session_starting_for_broker : String
  pub current_session : Option SessionInfo
  pub user_selection_model : UserSelectionModel
  pub broker_selection_model : BrokerSelectionModel
  pub auth_mode_selection_model : AuthModeSelectionModel
  pub authentication_model : AuthenticationModel
  pub gdm_model : GdmModel
  pub native_model : NativeModel
  pub exit_status : Option ExitStatus

-- ExitStatus, with errNoExitStatus
unfoldable pub return_status : UiModel → ExitStatus
return_status m = elim m.exit_status [
  | none ↦ exit_error err_system "model did not return anything"
  | some status ↦ status
]

-- what one update takes from outside
pub record Outside : Type 0 where
  pub env : Env
  pub peer : Peer
  pub talk : Talk

-- The result of an update; none as for `Run`.
abbrev pub Updated : Type 0
Updated = Run (UiModel × Cmd)

abbrev pub done : UiModel → Cmd → Updated
done m cmd = some (m, cmd)

-- endSession of commands.go
unfoldable pub end_session_cmd : Option SessionInfo → Cmd
end_session_cmd none = nil
end_session_cmd (some s) = call (end_session s.session_id)

unfoldable pub quit : UiModel → Cmd
quit m = elim m.current_session [
  | none ↦ send quit_msg
  | some s ↦ sequence (end_session_cmd (some s)) (send quit_msg)
]

unfoldable pub current_stage : UiModel → Stage
current_stage m =
    if m.user_selection_model.input.focused
    then user_selection
    else if m.broker_selection_model.focused
    then broker_selection
    else if m.auth_mode_selection_model.focused
    then auth_mode_selection
    else if focused m.authentication_model
    then challenge
    else user_selection

-- the first switch of changeStage
unfoldable pub blur_stage : Stage → UiModel → UiModel
blur_stage user_selection m = record m { user_selection_model = blur_user m.user_selection_model }
blur_stage broker_selection m = record m {
  broker_selection_model = record (m.broker_selection_model) { focused = false };
}
blur_stage auth_mode_selection m = record m {
  auth_mode_selection_model = record (m.auth_mode_selection_model) { focused = false };
}
blur_stage challenge m = record m { authentication_model = blur m.authentication_model }
blur_stage (other_stage n) m = m

abbrev pub client_stage_cmd : Stage → UiModel → Cmd
client_stage_cmd s m = elim m.client_type [
  | gdm ↦ change_gdm_stage s m.gdm_model
  | native ↦ send (native_change_stage s)
  | interactive_terminal ↦ nil
]

-- the second switch of changeStage; the command of what came before goes first
unfoldable pub enter_stage : Env → Stage → Cmd → UiModel → UiModel × Cmd
enter_stage env user_selection before m =
    let (u, cmd) = focus_user env m.user_selection_model in
    (
      record m { user_selection_model = u },
      sequence before (sequence (end_session_cmd m.current_session) cmd),
    )
enter_stage env broker_selection before m = (
  record m {
    auth_mode_selection_model = reset_auth_mode m.auth_mode_selection_model;
    broker_selection_model = record (m.broker_selection_model) { focused = true };
  },
  sequence before (end_session_cmd m.current_session),
)
enter_stage env auth_mode_selection before m =
    let (a, cmd) = reset_authentication m.authentication_model in
    (
      record m { authentication_model = a },
      sequence before (sequence cmd (send auth_mode_selection_focused)),
    )
enter_stage env challenge before m =
    let (a, cmd) = focus env m.authentication_model in
    (record m { authentication_model = a }, sequence before cmd)
enter_stage env (other_stage n) before m = (m, send (pam_error err_system "unknown PAM stage"))

unfoldable pub to_stage : Env → Stage → UiModel → UiModel × Cmd
to_stage env s m =
    if same_stage (current_stage m) s
    then enter_stage env s nil m
    else enter_stage env s (client_stage_cmd s m) (blur_stage (current_stage m) m)

-- slices.DeleteFunc of the native client on the slice that both models hold: what stays moves to the
-- front, and the rest of the slice is cleared. The list of a message has no nil pointer before that.
unfoldable pub delete_in_place : (Choice → Bool) → List (Option Choice) → List (Option Choice)
delete_in_place drop [] = []
delete_in_place drop (none ∷ bs) = none ∷ delete_in_place drop bs
delete_in_place drop (some b ∷ bs) =
    let rest = delete_in_place drop bs in if drop b then rest ++ none ∷ [] else some b ∷ rest

abbrev pub is_local : Choice → Bool
is_local b = b.id == local_broker_name

-- the effect of the native client's update on the slice of the broker selection
unfoldable pub share_brokers : Msg → UiModel → UiModel
share_brokers (brokers_list_received (b ∷ bs)) m =
    if m.native_model.service_name == polkit_service_name
    then record m {
      broker_selection_model = record (m.broker_selection_model) {
        available_brokers = delete_in_place is_local m.broker_selection_model.available_brokers;
      };
    }
    else m
share_brokers _ m = m

unfoldable pub update_client_model : Outside → Msg → UiModel → Updated
update_client_model o msg m = elim m.client_type [
  | gdm ↦ elim (update_gdm o.env o.peer msg m.gdm_model) [
    | none ↦ none
    | some (g, cmd) ↦ done (record m { gdm_model = g }) cmd
  ]
  | native ↦ elim (update_native o.env o.talk m.pam_user msg m.native_model) [
    | none ↦ none
    | some (n, user, cmd) ↦
        done (share_brokers msg (record m { native_model = n; pam_user = user })) cmd
  ]
  | interactive_terminal ↦ done m nil
]

-- MsgFilter
unfoldable pub msg_filter : Msg → UiModel → UiModel
msg_filter quit_msg m =
    if is_gdm m.client_type then record m { gdm_model = stop_conversations m.gdm_model } else m
msg_filter _ m = m
