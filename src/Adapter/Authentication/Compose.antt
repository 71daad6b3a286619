-- ===== src/Adapter/Authentication/Compose.antt =====
-- Compose of authenticationModel, pam/internal/adapter/authentication.go: the sub model of a layout.
use authd.Prelude.{String, not, ◌⊎◌, inl, inr, Option, none, some, ◌==◌, string_eq, if◌then◌else◌}
use authd.Pam.Layouts.{UiLayout}
use authd.Adapter.Messages.{
  challenge, err_system, Cmd, send, sequence, pam_error, change_stage, start_authentication,
}
use authd.Adapter.Widgets.{Env, Run}
use authd.Adapter.NewPassword.{new_new_password_model}
use authd.Adapter.Forms.{
  Component, form, qrcode, new_password, init_component, new_form_model, new_qrcode_model,
}
use authd.Adapter.Authentication.{AuthenticationModel, is_interactive}

-- the sub model of a layout; `inr` is the text of the error
unfoldable pub component_of : Env → UiLayout → Component ⊎ String
component_of env layout =
    if layout.type == "form"
    then inl (form (new_form_model env layout.entry layout.button (layout.wait == "true")))
    else if layout.type == "qrcode"
    then elim (new_qrcode_model env layout.content layout.button (layout.wait == "true")) [
      | none ↦ inr "can't generate QR code"
      | some q ↦ inl (qrcode q)
    ]
    else if layout.type == "newpassword"
    then inl (new_password (new_new_password_model env layout.label layout.button))
    else inr "unknown layout type"

unfoldable pub compose :
    Env
    → String
    → String
    → Option String
    → UiLayout
    → AuthenticationModel
    → Run (AuthenticationModel × Cmd)
compose env broker_id session_id key layout m =
    let m' : AuthenticationModel = record m {
      current_broker_id = broker_id;
      current_session_id = session_id;
      encryption_key = key;
      current_layout = layout.type;
      error_msg = "";
    } in
    let start : Cmd = sequence (send (change_stage challenge)) (send start_authentication) in
    if not (is_interactive m.client_type)
    then some (m', start)
    else elim (component_of env layout) [
      | inr e ↦ some (m', send (pam_error err_system e))
      | inl c ↦ elim (init_component c) [
        | none ↦ none
        | some init ↦ some (record m' { current_model = some c }, sequence init start)
      ]
    ]
