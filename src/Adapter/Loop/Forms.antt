-- ===== src/Adapter/Loop/Forms.antt =====
-- The sub models of the authentication model: the lemmas about what their commands send.
use authd.Prelude.{◌≡◌, Bool, some, arith, Option-cases, inl, inr}
use authd.Adapter.Messages.{
  Msg, Cmd, key, start_authentication, button_selection_event, new_password_check_result,
}
use authd.Adapter.Widgets.{
  Env, Button, Field, update_reselect_button, update_field, text_field, reselect_field,
}
use authd.Adapter.NewPassword.{
  NewPasswordModel, update_new_password, update_focus_model, press_tab, press_enter,
  focus_next_field, focus_prev_field, focus_at, clear,
}
use authd.Adapter.Forms.{
  FormModel, QrcodeModel, Component, form, qrcode, new_password, update_form, update_qrcode,
  update_component, update_focused_field, next_field, update_qrcode_button, field_at, clear_fields,
}
use authd.Adapter.Loop.Fine.{IsFine, update_button-IsFine}

update_reselect_button-IsFine :
    (g : Bool) (env : Env) (msg : Msg) (b : Button) → IsFine g (update_reselect_button env msg b).1
unfolding update_reselect_button
update_reselect_button-IsFine g env msg b = ground (arith, update_button-IsFine g env msg b)

update_field-IsFine :
    (g : Bool) (env : Env) (msg : Msg) (f : Field) → IsFine g (update_field env msg f).1
unfolding update_field
update_field-IsFine g env msg (text_field t) = ground arith
update_field-IsFine g env msg (reselect_field b) = update_reselect_button-IsFine g env msg b

update_focused_field-IsFine :
    (g : Bool) (env : Env) (msg : Msg) (m : FormModel) → IsFine g (update_focused_field env msg m).1
unfolding update_focused_field
update_focused_field-IsFine g env msg m = elim (Option-cases (field_at m.focus_index m.fields)) [
  | inl e ↦ ground arith
  | inr (f, e) ↦ ground (arith, update_field-IsFine g env msg f)
]

next_field-IsFine : (g : Bool) (env : Env) (m : FormModel) → IsFine g (next_field env m).1
unfolding next_field
next_field-IsFine g env m = ground arith

update_form-IsFine :
    (g : Bool) (env : Env) (msg : Msg) (m : FormModel) → IsFine g (update_form env msg m).1
unfolding update_form
update_form-IsFine g env start_authentication m = ground (
  arith,
  update_focused_field-IsFine g env start_authentication
      (record m { fields = clear_fields m.fields }),
)
update_form-IsFine g env (key name) m =
    ground (arith, update_focused_field-IsFine g env (key name) m, next_field-IsFine g env m)
update_form-IsFine g env msg m = update_focused_field-IsFine g env msg m

update_qrcode_button-IsFine :
    (g : Bool) (env : Env) (msg : Msg) (m m' : QrcodeModel) (cmd : Cmd)
    → update_qrcode_button env msg m ≡ some (m', cmd)
    → IsFine g cmd
unfolding update_qrcode_button
update_qrcode_button-IsFine g env msg m m' cmd h = elim (Option-cases m.button) [
  | inl e ↦ ground arith
  | inr (b, e) ↦ ground (arith, update_reselect_button-IsFine g env msg b)
]

update_qrcode-IsFine :
    (g : Bool) (env : Env) (msg : Msg) (m m' : QrcodeModel) (cmd : Cmd)
    → update_qrcode env msg m ≡ some (m', cmd)
    → IsFine g cmd
unfolding update_qrcode
update_qrcode-IsFine g env start_authentication m m' cmd h = ground arith
update_qrcode-IsFine g env msg m m' cmd h = update_qrcode_button-IsFine g env msg m m' cmd h

update_focus_model-IsFine :
    (g : Bool) (env : Env) (msg : Msg) (m : NewPasswordModel)
    → IsFine g (update_focus_model env msg m).1
unfolding update_focus_model
update_focus_model-IsFine g env msg m = elim (Option-cases m.button) [
  | inl e ↦ ground arith
  | inr (b, e) ↦ ground (arith, update_button-IsFine g env msg b)
]

press_tab-IsFine : (g : Bool) (env : Env) (m : NewPasswordModel) → IsFine g (press_tab env m).1
unfolding press_tab focus_prev_field focus_next_field focus_at
press_tab-IsFine g env m = ground arith

press_enter-IsFine :
    (g : Bool) (env : Env) (msg : Msg) (m m' : NewPasswordModel) (cmd : Cmd)
    → press_enter env msg m ≡ some (m', cmd)
    → IsFine g cmd
unfolding press_enter
press_enter-IsFine g env msg m m' cmd h = ground (arith, update_focus_model-IsFine g env msg m)

update_new_password-IsFine :
    (g : Bool) (env : Env) (msg : Msg) (m m' : NewPasswordModel) (cmd : Cmd)
    → update_new_password env msg m ≡ some (m', cmd)
    → IsFine g cmd
unfolding update_new_password focus_next_field focus_at
update_new_password-IsFine g env start_authentication m m' cmd h =
    ground (arith, update_focus_model-IsFine g env start_authentication (clear m))
update_new_password-IsFine g env (new_password_check_result password msg) m m' cmd h = ground arith
update_new_password-IsFine g env (button_selection_event address) m m' cmd h =
    ground (arith, update_focus_model-IsFine g env (button_selection_event address) m)
update_new_password-IsFine g env (key name) m m' cmd h = ground (
  arith,
  press_tab-IsFine g env m,
  press_enter-IsFine g env (key name) m m' cmd,
  update_focus_model-IsFine g env (key name) m,
)
update_new_password-IsFine g env msg m m' cmd h =
    ground (arith, update_focus_model-IsFine g env msg m)

pub update_component-IsFine :
    (g : Bool) (env : Env) (msg : Msg) (c c' : Component) (cmd : Cmd)
    → update_component env msg c ≡ some (c', cmd)
    → IsFine g cmd
unfolding update_component
update_component-IsFine g env msg (form m) c' cmd h = ground (arith, update_form-IsFine g env msg m)
update_component-IsFine g env msg (qrcode m) c' cmd h =
    elim (Option-cases (update_qrcode env msg m)) [
      | inl e ↦ ground arith
      | inr (r, e) ↦ ground (arith, update_qrcode-IsFine g env msg m r.0 r.1)
    ]
update_component-IsFine g env msg (new_password m) c' cmd h =
    elim (Option-cases (update_new_password env msg m)) [
      | inl e ↦ ground arith
      | inr (r, e) ↦ ground (arith, update_new_password-IsFine g env msg m r.0 r.1)
    ]
