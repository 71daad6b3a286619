-- ===== src/Adapter/UserSelection.antt =====
-- pam/internal/adapter/userselection.go. The user item of the PAM transaction is a text beside the
-- model, since several models share the transaction.
use authd.Prelude.{
  String, Bool, true, false, not, ◌||◌, ◌&&◌, none, some, ◌==◌, string_eq, nat_eq, if◌then◌else◌,
}
use authd.Adapter.Messages.{
  ClientType, maybe_send_pam_error, Msg, Cmd, nil, send, key, pam_error, user_selection,
  err_perm_denied, username_selected, change_stage, user_selected, user_required,
}
use authd.Adapter.Widgets.{Env, TextInput, widget_cmd}
use authd.Adapter.Authentication.{is_interactive}

pub record UserSelectionModel : Type 0 where
  pub input : TextInput
  pub client_type : ClientType
  pub enabled : Bool
  pub selected : Bool

unfoldable pub new_user_selection_model : ClientType → UserSelectionModel
new_user_selection_model client_type = record {
  input = record { value = ""; focused = false };
  client_type = client_type;
  enabled = false;
  selected = false;
}

-- SelectUser, with the user item of PAM
unfoldable pub select_user : Env → String → Cmd
select_user env pam_user = elim env.get_user_error [
  | some f ↦ maybe_send_pam_error (some f)
  | none ↦ if pam_user == "" then send user_required else send (user_selected pam_user)
]

-- the end of userSelected, once PAM has the name
abbrev accept_user : String → UserSelectionModel → UserSelectionModel × Cmd
accept_user name m =
    let m' : UserSelectionModel = record m {
      selected = not (name == "");
      input = record (m.input) { value = name };
    } in
    (m', if name == "" then nil else send username_selected)

-- userSelected: the new model, the user item of PAM, and the command
unfoldable pub handle_user_selected :
    Env → String → String → UserSelectionModel → UserSelectionModel × String × Cmd
handle_user_selected env pam_user name m = elim env.get_user_error [
  | some f ↦ (m, pam_user, maybe_send_pam_error (some f))
  | none ↦
      if not m.enabled && not (pam_user == "") && not (name == pam_user)
      then (m, pam_user, send (pam_error err_perm_denied "Changing username is not allowed"))
      else if name == pam_user
      then (let (m', cmd) = accept_user name m in (m', pam_user, cmd))
      else elim env.set_user_error [
        | some f ↦ (m, pam_user, maybe_send_pam_error (some f))
        | none ↦ let (m', cmd) = accept_user name m in (m', name, cmd)
      ]
]

abbrev is_enter : Msg → Bool
is_enter (key name) = name == "enter"
is_enter _ = false

-- what follows the first switch of userSelectionModel.Update
unfoldable pub edit_user : Env → Msg → UserSelectionModel → UserSelectionModel × Cmd
edit_user env msg m =
    if not m.enabled || not (is_interactive m.client_type) || not m.input.focused
    then (m, nil)
    else if is_enter msg
    then (m, send (user_selected m.input.value))
    else (record m { input = env.type_text msg m.input }, widget_cmd env)

unfoldable pub update_user_selection :
    Env → String → Msg → UserSelectionModel → UserSelectionModel × String × Cmd
update_user_selection env pam_user (user_selected name) m = handle_user_selected env pam_user name m
update_user_selection env pam_user user_required m =
    (record m { enabled = true }, pam_user, send (change_stage user_selection))
update_user_selection env pam_user msg m =
    let (m', cmd) = edit_user env msg m in (m', pam_user, cmd)

-- Username: in a terminal only what was confirmed
unfoldable pub username : UserSelectionModel → String
username m = if is_interactive m.client_type && not m.selected then "" else m.input.value

unfoldable pub focus_user : Env → UserSelectionModel → UserSelectionModel × Cmd
focus_user env m =
    (record m { selected = false; input = record (m.input) { focused = true } }, widget_cmd env)

unfoldable pub blur_user : UserSelectionModel → UserSelectionModel
blur_user m = record m { input = record (m.input) { focused = false } }
