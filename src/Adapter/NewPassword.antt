-- ===== src/Adapter/NewPassword.antt =====
-- pam/internal/adapter/newpasswordmodel.go: two password entries and, where the change may be skipped, a
-- button. passwordEntries and the first two focusableModels are the same objects; errorMsg is only
-- ever cleared, and is left out.
pub mod Entries
pub mod Unchecked
use authd.Prelude.{
  ℕ, suc, zero, ◌+◌, ◌-◌, ◌%◌, String, Bool, true, false, not, ◌||◌, Option, none, some, ◌==◌,
  string_eq, nat_eq, if◌then◌else◌, leb,
}
use authd.Adapter.Messages.{
  Msg, Cmd, nil, send, batch, key, start_authentication, button_selection_event, new_password_check,
  new_password_check_result, err_msg_to_display, is_authenticated_requested, challenge_item,
  skip_item,
}
use authd.Adapter.Widgets.{Env, Run, TextInput, Button, widget_cmd, update_button}

pub record NewPasswordModel : Type 0 where
  pub label : String
  pub first : TextInput
  pub second : TextInput
  pub button : Option Button
  pub focus_index : ℕ

-- The model that is skippable is the one with a button.
abbrev pub skippable : NewPasswordModel → Bool
skippable m = elim m.button [ some _ ↦ true | none ↦ false ]

-- len(m.focusableModels)
abbrev pub focusable_len : NewPasswordModel → ℕ
focusable_len m = elim m.button [ some _ ↦ 3 | none ↦ 2 ]

abbrev pub blank : TextInput
blank = record { value = ""; focused = false }

unfoldable pub new_new_password_model : Env → String → String → NewPasswordModel
new_new_password_model env label button_label = record {
  label = label;
  first = blank;
  second = blank;
  button =
      if button_label == ""
      then none
      else some (record {
        label = button_label;
        selection_time = none;
        focused = false;
        address = env.address;
      });
  focus_index = 0;
}

abbrev set_focus : Bool → TextInput → TextInput
set_focus focused t = record t { focused = focused }

-- The loop of focusField and of Clear: the model at the index is focused, the others are blurred.
unfoldable pub focus_only : ℕ → NewPasswordModel → NewPasswordModel
focus_only i m = record m {
  first = set_focus (i == 0) m.first;
  second = set_focus (i == 1) m.second;
  button = elim m.button [ none ↦ none | some b ↦ some (record b { focused = i == 2 }) ];
  focus_index = i;
}

-- an index that may be past the end, wrapped around
abbrev pub wrap : ℕ → ℕ → ℕ
wrap i len = if leb len i then (i % len + len) % len else i

-- the command of Focus: a text may blink, a button gives nil
abbrev pub focus_cmd : Env → ℕ → Cmd
focus_cmd env i = if i == 2 then nil else widget_cmd env

-- focusField with the new index
unfoldable pub focus_at : Env → ℕ → NewPasswordModel → NewPasswordModel × Cmd
unfolding focus_only
focus_at env i m = (focus_only i m, focus_cmd env i)

unfoldable pub focus_next_field : Env → NewPasswordModel → NewPasswordModel × Cmd
unfolding focus_at
focus_next_field env m = focus_at env (wrap (m.focus_index + 1) (focusable_len m)) m

-- -1 % len is -1 in Go, and the length is above 1
abbrev pub prev_index : ℕ → ℕ → ℕ
prev_index zero len = (len - 1) % len
prev_index (suc i) len = wrap i len

unfoldable pub focus_prev_field : Env → NewPasswordModel → NewPasswordModel × Cmd
unfolding focus_at
focus_prev_field env m = focus_at env (prev_index m.focus_index (focusable_len m)) m

unfoldable pub clear : NewPasswordModel → NewPasswordModel
unfolding focus_only
clear m = focus_only 0 (record m {
  first = record (m.first) { value = "" };
  second = record (m.second) { value = "" };
})

-- an index past the end has no model
unfoldable pub update_focus_model : Env → Msg → NewPasswordModel → NewPasswordModel × Cmd
update_focus_model env msg m =
    if m.focus_index == 0
    then (record m { first = env.type_text msg m.first }, widget_cmd env)
    else if m.focus_index == 1
    then (record m { second = env.type_text msg m.second }, widget_cmd env)
    else if m.focus_index == 2
    then elim m.button [
      | none ↦ (m, nil)
      | some b ↦ let (b', cmd) = update_button env msg b in (record m { button = some b' }, cmd)
    ]
    else (m, nil)

-- "tab" and "shift+tab"
unfoldable pub press_tab : Env → NewPasswordModel → NewPasswordModel × Cmd
press_tab env m =
    if not (skippable m)
    then (m, nil)
    else if not (m.first.value == "") || not (m.second.value == "")
    then (m, nil)
    else if m.focus_index == 0
    then focus_prev_field env m
    else focus_next_field env m

-- "enter"; an index past the end is a panic
unfoldable pub press_enter : Env → Msg → NewPasswordModel → Run (NewPasswordModel × Cmd)
press_enter env msg m =
    if leb (focusable_len m) m.focus_index
    then none
    else if m.focus_index == 0
    then some (m, send (new_password_check m.first.value))
    else if m.focus_index == 1
    then (if m.first.value == m.second.value
        then some (m, send (is_authenticated_requested (challenge_item m.second.value)))
        else some (clear m, send (err_msg_to_display "Password entries don't match")))
    else some (update_focus_model env msg m)

abbrev pub button_address : NewPasswordModel → Option ℕ
button_address m =
    if m.focus_index == 2 then elim m.button [ none ↦ none | some b ↦ some b.address ] else none

unfoldable pub update_new_password : Env → Msg → NewPasswordModel → Run (NewPasswordModel × Cmd)
update_new_password env start_authentication m =
    some (update_focus_model env start_authentication (clear m))
update_new_password env (new_password_check_result password msg) m =
    if not (msg == "")
    then some (clear m, send (err_msg_to_display msg))
    else (let (m', cmd) = focus_next_field env m in
        some (m', batch (send (err_msg_to_display "")) cmd))
update_new_password env (button_selection_event address) m = elim (button_address m) [
  | none ↦ some (update_focus_model env (button_selection_event address) m)
  | some own ↦
      if address == own
      then some (m, send (is_authenticated_requested (skip_item "true")))
      else some (update_focus_model env (button_selection_event address) m)
]
update_new_password env (key name) m =
    if name == "tab" || name == "shift+tab"
    then some (press_tab env m)
    else if name == "enter"
    then press_enter env (key name) m
    else some (update_focus_model env (key name) m)
update_new_password env msg m = some (update_focus_model env msg m)

-- Focus and Blur act on the model at the index.
unfoldable pub set_current_focus : Bool → NewPasswordModel → NewPasswordModel
set_current_focus focused m =
    if m.focus_index == 0
    then record m { first = set_focus focused m.first }
    else if m.focus_index == 1
    then record m { second = set_focus focused m.second }
    else if m.focus_index == 2
    then record m {
      button = elim m.button [ none ↦ none | some b ↦ some (record b { focused = focused }) ];
    }
    else m

abbrev button_focused : Option Button → Bool
button_focused none = false
button_focused (some b) = b.focused

unfoldable pub new_password_focused : NewPasswordModel → Bool
new_password_focused m = m.first.focused || m.second.focused || button_focused m.button
