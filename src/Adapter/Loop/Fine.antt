-- ===== src/Adapter/Loop/Fine.antt =====
-- The predicate on the commands of the event loop that the lemmas of Loop are about, and the sub models of
-- the terminal.
use authd.Prelude.{
  ◌==◌, string_eq, ◌≡◌, String, Bool, true, Option, none, some, [], ◌∷◌, string_eq, nat_eq, arith,
}
use authd.Adapter.Messages.{
  Msg, Cmd, nil, send, call, sequence, batch, key, pam_success, is_authenticated_result_received,
  Failure, maybe_send_pam_error, user_selected, user_required, auth_mode_selection_focused,
  supported_ui_layouts_received, auth_modes_received, auth_mode_selected, brokers_list_received,
  supported_ui_layouts_set, broker_selection_required, broker_selected, start_authentication,
}
use authd.Adapter.Widgets.{Env, Button, update_button}
use authd.Adapter.AuthModeSelection.{
  AuthModeSelectionModel, press_auth_mode, update_auth_mode_selection,
}
use authd.Adapter.UserSelection.{
  UserSelectionModel, update_user_selection, handle_user_selected, edit_user,
}
use authd.Adapter.BrokerSelection.{BrokerSelectionModel, update_broker_selection, press_broker}

abbrev pub FineMsg : Bool → Msg → Type 0
FineMsg g (pam_success broker_id text) = g ≡ true
FineMsg g (is_authenticated_result_received access secret text) =
    (access == "granted") ≡ true → g ≡ true
FineMsg g _ = Unit

abbrev pub IsFine : Bool → Cmd → Type 0
IsFine g nil = Unit
IsFine g (send msg) = FineMsg g msg
IsFine g (call c) = Unit
IsFine g (sequence a b) = IsFine g a × IsFine g b
IsFine g (batch a b) = IsFine g a × IsFine g b

pub maybe_send_pam_error-IsFine :
    (g : Bool) (f : Option Failure) → IsFine g (maybe_send_pam_error f)
unfolding maybe_send_pam_error
maybe_send_pam_error-IsFine g none = tt
maybe_send_pam_error-IsFine g (some f) = ground arith

pub update_button-IsFine :
    (g : Bool) (env : Env) (msg : Msg) (b : Button) → IsFine g (update_button env msg b).1
unfolding update_button
update_button-IsFine g env start_authentication b = tt
update_button-IsFine g env (key name) b = ground arith
update_button-IsFine g env _ b = tt

handle_user_selected-IsFine :
    (g : Bool) (env : Env) (user name : String) (m : UserSelectionModel)
    → IsFine g (handle_user_selected env user name m).2
unfolding handle_user_selected maybe_send_pam_error
handle_user_selected-IsFine g env user name m = ground arith

edit_user-IsFine :
    (g : Bool) (env : Env) (msg : Msg) (m : UserSelectionModel) → IsFine g (edit_user env msg m).1
unfolding edit_user
edit_user-IsFine g env msg m = ground arith

pub update_user_selection-IsFine :
    (g : Bool) (env : Env) (user : String) (msg : Msg) (m : UserSelectionModel)
    → IsFine g (update_user_selection env user msg m).2
unfolding update_user_selection
update_user_selection-IsFine g env user (user_selected name) m =
    handle_user_selected-IsFine g env user name m
update_user_selection-IsFine g env user user_required m = tt
update_user_selection-IsFine g env user msg m = edit_user-IsFine g env msg m

press_broker-IsFine :
    (g : Bool) (env : Env) (msg : Msg) (m : BrokerSelectionModel)
    → IsFine g (press_broker env msg m).1
unfolding press_broker
press_broker-IsFine g env msg m = ground arith

pub update_broker_selection-IsFine :
    (g : Bool) (env : Env) (msg : Msg) (m m' : BrokerSelectionModel) (cmd : Cmd)
    → update_broker_selection env msg m ≡ some (m', cmd)
    → IsFine g cmd
unfolding update_broker_selection
update_broker_selection-IsFine g env supported_ui_layouts_set m m' cmd h = ground arith
update_broker_selection-IsFine g env (brokers_list_received []) m m' cmd h = ground arith
update_broker_selection-IsFine g env (brokers_list_received (b ∷ bs)) m m' cmd h = ground arith
update_broker_selection-IsFine g env broker_selection_required m m' cmd h = ground arith
update_broker_selection-IsFine g env (broker_selected id) m m' cmd h = ground arith
update_broker_selection-IsFine g env msg m m' cmd h =
    ground (arith, press_broker-IsFine g env msg m)

press_auth_mode-IsFine :
    (g : Bool) (env : Env) (msg : Msg) (m : AuthModeSelectionModel)
    → IsFine g (press_auth_mode env msg m).1
unfolding press_auth_mode
press_auth_mode-IsFine g env msg m = ground arith

pub update_auth_mode_selection-IsFine :
    (g : Bool) (env : Env) (msg : Msg) (m : AuthModeSelectionModel)
    → IsFine g (update_auth_mode_selection env msg m).1
unfolding update_auth_mode_selection
update_auth_mode_selection-IsFine g env auth_mode_selection_focused m =
    press_auth_mode-IsFine g env auth_mode_selection_focused (record m { focused = true })
update_auth_mode_selection-IsFine g env (supported_ui_layouts_received []) m = tt
update_auth_mode_selection-IsFine g env (supported_ui_layouts_received (l ∷ ls)) m = tt
update_auth_mode_selection-IsFine g env (auth_modes_received modes) m = ground arith
update_auth_mode_selection-IsFine g env (auth_mode_selected id) m = ground arith
update_auth_mode_selection-IsFine g env msg m = press_auth_mode-IsFine g env msg m
