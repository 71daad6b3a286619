-- ===== src/Adapter/Forms.antt =====
-- formmodel.go and qrcodemodel.go of pam/internal/adapter, and the sub models of the authentication
-- model behind the interface authenticationComponent.
use authd.Prelude.{
  ℕ, suc, zero, ◌+◌, String, Bool, true, false, not, ◌||◌, Option, none, some, List, [], ◌∷◌, ◌++◌,
  ◌==◌, string_eq, nat_eq, if◌then◌else◌, length,
}
use authd.Adapter.Messages.{
  Msg, Cmd, nil, send, sequence, key, start_authentication, is_authenticated_requested,
  challenge_item, wait_item,
}
use authd.Adapter.Widgets.{
  Env, Run, Button, Field, text_field, reselect_field, update_field, focus_field, field_focused,
  focus_cmd, clear_field, update_reselect_button,
}
use authd.Adapter.NewPassword as New
use authd.Adapter.NewPassword.{NewPasswordModel, update_new_password, new_password_focused}

pub record FormModel : Type 0 where
  pub fields : List Field
  pub focus_index : ℕ
  pub wait : Bool

abbrev new_button : Env → String → Button
new_button env label = record {
  label = label;
  selection_time = none;
  focused = false;
  address = env.address;
}

-- newFormModel; the label is only shown
unfoldable pub new_form_model : Env → String → String → Bool → FormModel
new_form_model env entry_type button_label wait =
    let entries : List Field =
      if entry_type == "chars" || entry_type == "chars_password"
      then text_field (record { value = ""; focused = false }) ∷ []
      else [] in
    let buttons : List Field =
      if button_label == "" then [] else reselect_field (new_button env button_label) ∷ [] in
    record { fields = entries ++ buttons; focus_index = 0; wait = wait }

unfoldable pub field_at : ℕ → List Field → Option Field
field_at i [] = none
field_at zero (f ∷ fs) = some f
field_at (suc i) (f ∷ fs) = field_at i fs

unfoldable pub set_field : ℕ → Field → List Field → List Field
set_field i g [] = []
set_field zero g (f ∷ fs) = g ∷ fs
set_field (suc i) g (f ∷ fs) = f ∷ set_field i g fs

abbrev pub clear_fields : List Field → List Field
clear_fields [] = []
clear_fields (f ∷ fs) = clear_field f ∷ clear_fields fs

abbrev blur_all : List Field → List Field
blur_all [] = []
blur_all (g ∷ gs) = focus_field false g ∷ blur_all gs

-- the loop of "tab": the field at the index is focused, the others are blurred
unfoldable pub focus_fields : ℕ → List Field → List Field
focus_fields i [] = []
focus_fields zero (f ∷ fs) = focus_field true f ∷ blur_all fs
focus_fields (suc i) (f ∷ fs) = focus_field false f ∷ focus_fields i fs

-- updateFocusModel of the form
unfoldable pub update_focused_field : Env → Msg → FormModel → FormModel × Cmd
update_focused_field env msg m = elim (field_at m.focus_index m.fields) [
  | none ↦ (m, nil)
  | some f ↦
      let (f', cmd) = update_field env msg f in
      (record m { fields = set_field m.focus_index f' m.fields }, cmd)
]

abbrev pub cmd_at : Env → Option Field → Cmd
cmd_at env none = nil
cmd_at env (some f) = focus_cmd env f

unfoldable pub next_field : Env → FormModel → FormModel × Cmd
next_field env m =
    let i : ℕ = if m.focus_index + 1 == length m.fields then 0 else m.focus_index + 1 in
    (
      record m { fields = focus_fields i m.fields; focus_index = i },
      cmd_at env (field_at i m.fields),
    )

abbrev pressed : Env → Msg → FormModel → Option Field → FormModel × Cmd
pressed env msg m none = (m, nil)
pressed env msg m (some (text_field t)) =
    (m, send (is_authenticated_requested (challenge_item t.value)))
pressed env msg m (some (reselect_field b)) = update_focused_field env msg m

unfoldable pub update_form : Env → Msg → FormModel → FormModel × Cmd
update_form env start_authentication m =
    let cleared : FormModel = record m { fields = clear_fields m.fields } in
    if not m.wait
    then (cleared, nil)
    else (let (m', cmd) = update_focused_field env start_authentication cleared in
        (m', sequence cmd (send (is_authenticated_requested (wait_item "true")))))
update_form env (key name) m =
    if name == "enter"
    then pressed env (key name) m (field_at m.focus_index m.fields)
    else if name == "tab"
    then next_field env m
    else update_focused_field env (key name) m
update_form env msg m = update_focused_field env msg m

abbrev any_focused : List Field → Bool
any_focused [] = false
any_focused (f ∷ fs) = field_focused f || any_focused fs

abbrev none_to_focus : List Field → Bool
none_to_focus [] = true
none_to_focus _ = false

unfoldable pub form_focused : FormModel → Bool
form_focused m = none_to_focus m.fields || any_focused m.fields

-- `none` is the nil button.
pub record QrcodeModel : Type 0 where
  pub button : Option Button
  pub content : String
  pub wait : Bool

-- newQRCodeModel; `none` is its error
unfoldable pub new_qrcode_model : Env → String → String → Bool → Option QrcodeModel
new_qrcode_model env content button_label wait =
    if env.encodes_qrcode content
    then some (record {
      button = if button_label == "" then none else some (new_button env button_label);
      content = content;
      wait = wait;
    })
    else none

-- Init and Update of a nil button are panics.
unfoldable pub init_qrcode : QrcodeModel → Run Cmd
init_qrcode m = elim m.button [ none ↦ none | some b ↦ some nil ]

unfoldable pub update_qrcode_button : Env → Msg → QrcodeModel → Run (QrcodeModel × Cmd)
update_qrcode_button env msg m = elim m.button [
  | none ↦ none
  | some b ↦
      let (b', cmd) = update_reselect_button env msg b in some (record m { button = some b' }, cmd)
]

unfoldable pub update_qrcode : Env → Msg → QrcodeModel → Run (QrcodeModel × Cmd)
update_qrcode env start_authentication m =
    if not m.wait
    then some (m, nil)
    else some (m, send (is_authenticated_requested (wait_item "true")))
update_qrcode env msg m = update_qrcode_button env msg m

pub data Component : Type 0 where
  form : FormModel → Component
  qrcode : QrcodeModel → Component
  new_password : NewPasswordModel → Component

unfoldable pub update_component : Env → Msg → Component → Run (Component × Cmd)
update_component env msg (form m) = let (m', cmd) = update_form env msg m in some (form m', cmd)
update_component env msg (qrcode m) = elim (update_qrcode env msg m) [
  | none ↦ none
  | some (m', cmd) ↦ some (qrcode m', cmd)
]
update_component env msg (new_password m) = elim (update_new_password env msg m) [
  | none ↦ none
  | some (m', cmd) ↦ some (new_password m', cmd)
]

-- The fields and the buttons have no command to start with.
unfoldable pub init_component : Component → Run Cmd
init_component (form m) = some nil
init_component (qrcode m) = init_qrcode m
init_component (new_password m) = some nil

-- Focus and Blur of the field that the index points to
unfoldable pub set_component_focus : Bool → Component → Component
set_component_focus focused (form m) = form (elim (field_at m.focus_index m.fields) [
  | none ↦ m
  | some f ↦ record m { fields = set_field m.focus_index (focus_field focused f) m.fields }
])
set_component_focus focused (qrcode m) = qrcode (elim m.button [
  | none ↦ m
  | some b ↦ record m { button = some (record b { focused = focused }) }
])
set_component_focus focused (new_password m) = new_password (New.set_current_focus focused m)

-- the command of Focus
unfoldable pub focus_component_cmd : Env → Component → Cmd
focus_component_cmd env (form m) = cmd_at env (field_at m.focus_index m.fields)
focus_component_cmd env (qrcode m) = nil
focus_component_cmd env (new_password m) = New.focus_cmd env m.focus_index

unfoldable pub component_focused : Component → Bool
component_focused (form m) = form_focused m
component_focused (qrcode m) = true
component_focused (new_password m) = new_password_focused m
