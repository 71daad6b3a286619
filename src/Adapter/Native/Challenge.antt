-- ===== src/Adapter/Native/Challenge.antt =====
-- pam/internal/adapter/nativemodel.go: the forms, the QR code and the new password of the native client.
use Prim.Native.Char.{code}
use Prim.Native.String.{String}
use authd.Prelude.{
  Bool, not, ◌||◌, Option, none, some, List, [], ◌∷◌, ◌==◌, string_eq, nat_eq, if◌then◌else◌,
}
use authd.Pam.Layouts.{UiLayout}
use authd.Adapter.Messages.{
  err_system, Failure, maybe_send_pam_error, Choice, Cmd, nil, send, pam_error, challenge_item,
  wait_item, skip_item, is_authenticated_requested, reselect_auth_mode, new_password_check,
  native_challenge_requested, native_go_back,
}
use authd.Adapter.Conversation.{
  Answer, Conv, Input, go_back, empty_response, unhandled_entry, prompt_for_input,
  prompt_for_numeric_input_as_string, prompt_for_choice, show_text,
}
use authd.Adapter.Widgets.{Env, Run}
use authd.Adapter.Native.{NativeModel, can_go_back, send_prompt_error}

unfoldable pub send_auth_wait_command : Cmd
send_auth_wait_command = send (is_authenticated_requested (wait_item "true"))

unfoldable pub prompt_for_secret : NativeModel → UiLayout → Conv (Input String)
prompt_for_secret m layout script =
    if layout.entry == "chars" || layout.entry == "" || layout.entry == "chars_password"
    then prompt_for_input (can_go_back m) script
    else if layout.entry == "digits" || layout.entry == "digits_password"
    then prompt_for_numeric_input_as_string (can_go_back m) script
    else some (("", some unhandled_entry), script)

-- strings.TrimSuffix with a colon
unfoldable pub trim_colon : String → String
trim_colon String.[] = String.[]
trim_colon (String.◌∷◌ c String.[]) = if code c == b':' then String.[] else String.◌∷◌ c String.[]
trim_colon (String.◌∷◌ c (String.◌∷◌ d s)) = String.◌∷◌ c (trim_colon (String.◌∷◌ d s))

abbrev pub action_choices : String → List Choice
action_choices button =
    record { id = "continue"; label = "Proceed" } ∷ record { id = "button"; label = button } ∷ []

-- The question that comes first where the layout has a button: `go_on` is asked for the rest, with what
-- is left of the script, and `pressed` is the command of the button.
unfoldable pub ask_action :
    NativeModel → UiLayout → Cmd → (List Answer → Run Cmd) → List Answer → Run Cmd
ask_action m layout pressed go_on script =
    if layout.button == ""
    then go_on script
    else elim (prompt_for_choice (can_go_back m) (action_choices layout.button) script) [
      | none ↦ none
      | some ((id, some go_back), rest) ↦ some (send native_go_back)
      | some ((id, some empty_response), rest) ↦ some (send native_challenge_requested)
      | some ((id, some e), rest) ↦ some (send_prompt_error e)
      | some ((id, none), rest) ↦ if id == "button" then some pressed else go_on rest
    ]

-- what becomes of the secret that was entered, with its error
unfoldable pub form_secret : Bool → Input String → Cmd
form_secret has_wait (secret, some go_back) = send native_go_back
form_secret has_wait (secret, some empty_response) =
    if has_wait
    then send_auth_wait_command
    else send (is_authenticated_requested (challenge_item secret))
form_secret has_wait (secret, some e) = send_prompt_error e
form_secret has_wait (secret, none) = send (is_authenticated_requested (challenge_item secret))

-- the form from its label on
unfoldable pub ask_form_secret : NativeModel → UiLayout → List Answer → Run Cmd
ask_form_secret m layout script =
    if trim_colon layout.label == ""
    then some (send (pam_error err_system "No label provided for entry"))
    else elim (show_text script) [
      | none ↦ none
      | some (some f, rest) ↦ some (maybe_send_pam_error (some f))
      | some (none, rest) ↦ elim (prompt_for_secret m layout rest) [
        | none ↦ none
        | some (input, _) ↦ some (form_secret (layout.wait == "true") input)
      ]
    ]

unfoldable pub handle_form_challenge : NativeModel → UiLayout → List Answer → Run Cmd
handle_form_challenge m layout =
    ask_action m layout (send reselect_auth_mode) (ask_form_secret m layout)

abbrev pub qr_choices : String → List Choice
qr_choices button =
    let waiting : Choice = record { id = "wait"; label = "Wait for authentication result" } in
    if button == "" then waiting ∷ [] else waiting ∷ record { id = "button"; label = button } ∷ []

-- The code itself is only shown.
unfoldable pub handle_qr_code : Env → NativeModel → UiLayout → List Answer → Run Cmd
handle_qr_code env m layout script =
    if not (env.encodes_qrcode layout.content)
    then some (send (pam_error err_system "Can't generate qrcode"))
    else elim (prompt_for_choice (can_go_back m) (qr_choices layout.button) script) [
      | none ↦ none
      | some ((id, some go_back), rest) ↦ some (send native_go_back)
      | some ((id, some empty_response), rest) ↦ some send_auth_wait_command
      | some ((id, some e), rest) ↦ some (send_prompt_error e)
      | some ((id, none), rest) ↦
          if id == "button"
          then some (send reselect_auth_mode)
          else if id == "wait"
          then some send_auth_wait_command
          else some nil
    ]

-- What a round of newPasswordChallenge ends with: a command, or another round from the start.
pub data PasswordRound : Type 0 where
  asked : Cmd → PasswordRound
  mismatch : PasswordRound

abbrev entered : Option String → String → PasswordRound
entered none password = asked (send (new_password_check password))
entered (some previous) password =
    if password == previous
    then asked (send (is_authenticated_requested (challenge_item password)))
    else mismatch

unfoldable pub password_input : Option String → Input String → PasswordRound
password_input previous (password, some go_back) = asked (send native_go_back)
password_input previous (password, some empty_response) = entered previous password
password_input previous (password, some e) = asked (send_prompt_error e)
password_input previous (password, none) = entered previous password

-- the instructions, which a confirmation does not show
abbrev pub show_instructions : Option String → Conv (Option Failure)
show_instructions none script = show_text script
show_instructions (some previous) script = some (none, script)

unfoldable pub password_round : NativeModel → UiLayout → Option String → Conv PasswordRound
password_round m layout previous script = elim (show_instructions previous script) [
  | none ↦ none
  | some (some f, rest) ↦ some (asked (maybe_send_pam_error (some f)), rest)
  | some (none, rest) ↦ elim (prompt_for_secret m layout rest) [
    | none ↦ none
    | some (input, rest') ↦ some (password_input previous input, rest')
  ]
]

-- Without a previous password no round ends in a mismatch.
unfoldable pub ask_new_password : NativeModel → UiLayout → List Answer → Run Cmd
ask_new_password m layout script = elim (password_round m layout none script) [
  | none ↦ none
  | some (asked cmd, _) ↦ some cmd
  | some (mismatch, _) ↦ none
]

-- after an error is shown for entries that differ
unfoldable pub ask_again : NativeModel → UiLayout → List Answer → Run Cmd
ask_again m layout script = elim (show_text script) [
  | none ↦ none
  | some (some f, _) ↦ some (maybe_send_pam_error (some f))
  | some (none, rest) ↦ ask_new_password m layout rest
]

unfoldable pub new_password_challenge :
    NativeModel → UiLayout → Option String → List Answer → Run Cmd
new_password_challenge m layout none script = ask_new_password m layout script
new_password_challenge m layout (some previous) script =
    elim (password_round m layout (some previous) script) [
      | none ↦ none
      | some (asked cmd, _) ↦ some cmd
      | some (mismatch, rest) ↦ ask_again m layout rest
    ]

unfoldable pub handle_new_password : NativeModel → UiLayout → List Answer → Run Cmd
handle_new_password m layout =
    ask_action m layout (send (is_authenticated_requested (skip_item "true")))
      (ask_new_password m layout)

unfoldable pub start_challenge : Env → NativeModel → List Answer → Run Cmd
start_challenge env m script = elim m.ui_layout [
  | none ↦ some (send (pam_error err_system "Can't authenticate without ui layout selected"))
  | some layout ↦
      if layout.type == "form"
      then handle_form_challenge m layout script
      else if layout.type == "qrcode"
      then (if layout.wait == "true"
          then handle_qr_code env m layout script
          else some (send (pam_error err_system "Can't handle qrcode without waiting")))
      else if layout.type == "newpassword"
      then handle_new_password m layout script
      else some (send (pam_error err_system "Unknown layout type"))
]
