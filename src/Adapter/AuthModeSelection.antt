-- ===== src/Adapter/AuthModeSelection.antt =====
-- pam/internal/adapter/authmodeselection.go
use authd.Prelude.{
  String, Bool, true, false, not, ◌||◌, List, [], ◌∷◌, ◌==◌, string_eq, nat_eq, if◌then◌else◌, any,
}
use authd.Pam.Layouts.{UiLayout}
use authd.Adapter.Messages.{
  ClientType, Choice, Msg, Cmd, nil, send, sequence, pam_error, err_cred_unavail,
  auth_mode_selected_event, supported_ui_layouts_received, supported_ui_layouts_set,
  auth_modes_received, auth_mode_selected, auth_mode_selection_focused,
}
use authd.Adapter.Widgets.{Env, ListModel, empty_list, widget_cmd}
use authd.Adapter.Authentication.{is_interactive}
use authd.Adapter.BrokerSelection.{key_action, ignored, chosen, passed_on, select_items}

pub record AuthModeSelectionModel : Type 0 where
  pub list : ListModel
  pub focused : Bool
  pub client_type : ClientType
  pub supported_ui_layouts : List UiLayout
  pub available_auth_modes : List Choice
  pub current_auth_mode_selected_id : String

unfoldable pub new_auth_mode_selection_model : ClientType → AuthModeSelectionModel
new_auth_mode_selection_model client_type = record {
  list = empty_list;
  focused = false;
  client_type = client_type;
  supported_ui_layouts = [];
  available_auth_modes = [];
  current_auth_mode_selected_id = "";
}

unfoldable pub valid_auth_mode_id : String → List Choice → Bool
valid_auth_mode_id id modes = any (λ a. a.id == id) modes

-- the first ID that is not empty
abbrev first_auth_mode_id : List Choice → String
first_auth_mode_id [] = ""
first_auth_mode_id (a ∷ modes) =
    let rest = first_auth_mode_id modes in if a.id == "" then rest else a.id

-- what follows the first switch of authModeSelectionModel.Update
unfoldable pub press_auth_mode : Env → Msg → AuthModeSelectionModel → AuthModeSelectionModel × Cmd
press_auth_mode env msg m =
    if not (is_interactive m.client_type) || not m.focused
    then (m, nil)
    else elim (key_action env msg m.list) [
      | ignored ↦ (m, nil)
      | chosen id ↦ (m, send (auth_mode_selected id))
      | passed_on ↦ (record m { list = env.list_update msg m.list }, widget_cmd env)
    ]

abbrev select_first : String → Cmd
select_first id = if id == "" then nil else send (auth_mode_selected id)

unfoldable pub update_auth_mode_selection :
    Env → Msg → AuthModeSelectionModel → AuthModeSelectionModel × Cmd
update_auth_mode_selection env auth_mode_selection_focused m =
    press_auth_mode env auth_mode_selection_focused (record m { focused = true })
update_auth_mode_selection env (supported_ui_layouts_received []) m =
    (m, send (pam_error err_cred_unavail "UI does not support any layouts"))
update_auth_mode_selection env (supported_ui_layouts_received (l ∷ ls)) m =
    (record m { supported_ui_layouts = l ∷ ls }, send supported_ui_layouts_set)
update_auth_mode_selection env (auth_modes_received modes) m = (
  record m { available_auth_modes = modes; list = env.set_items modes m.list },
  sequence (widget_cmd env) (select_first (first_auth_mode_id modes)),
)
update_auth_mode_selection env (auth_mode_selected id) m =
    if valid_auth_mode_id id m.available_auth_modes
    then (
      record m {
        current_auth_mode_selected_id = id;
        list = select_items env id 0 m.list.items m.list;
      },
      send (auth_mode_selected_event id),
    )
    else (m, nil)
update_auth_mode_selection env msg m = press_auth_mode env msg m

-- Reset
unfoldable pub reset_auth_mode : AuthModeSelectionModel → AuthModeSelectionModel
reset_auth_mode m = record m { current_auth_mode_selected_id = "" }
