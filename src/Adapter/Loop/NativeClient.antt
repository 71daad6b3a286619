-- ===== src/Adapter/Loop/NativeClient.antt =====
-- The client of plain PAM conversations: the lemmas about what its prompts send.
use authd.Prelude.{
  ◌≡◌, String, Bool, Option, none, some, List, arith, Option-cases, inl, inr, ◌==◌, string_eq,
}
use authd.Pam.Layouts.{UiLayout}
use authd.Adapter.Messages.{
  user_selected, Cmd, send, reselect_auth_mode, is_authenticated_requested, skip_item,
}
use authd.Adapter.Widgets.{Env, Run}
use authd.Adapter.Conversation.{
  Answer, Input, PromptError, failure, prompt_for_input, prompt_for_choice, show_text, go_back,
  empty_response, not_an_integer, unhandled_entry,
}
use authd.Adapter.Native.{
  Talk, NativeModel, go_back_command, maybe_pre_check_user, ask_user, ask_broker, ask_auth_mode,
  request_stage_change, send_prompt_error, can_go_back,
}
use authd.Adapter.Native.Challenge.{
  start_challenge, new_password_challenge, handle_form_challenge, handle_qr_code,
  handle_new_password, ask_action, ask_form_secret, form_secret, password_round, password_input,
  ask_new_password, ask_again, prompt_for_secret, send_auth_wait_command, PasswordRound, asked,
  mismatch, action_choices, qr_choices, show_instructions,
}
use authd.Adapter.Loop.Fine.{IsFine, maybe_send_pam_error-IsFine}

-- every command that a conversation can end with
abbrev pub RunIsFine : Bool → Run Cmd → Type 0
RunIsFine g none = Unit
RunIsFine g (some cmd) = IsFine g cmd

send_prompt_error-IsFine : (g : Bool) (e : PromptError) → IsFine g (send_prompt_error e)
unfolding send_prompt_error
send_prompt_error-IsFine g go_back = tt
send_prompt_error-IsFine g empty_response = tt
send_prompt_error-IsFine g not_an_integer = tt
send_prompt_error-IsFine g unhandled_entry = tt
send_prompt_error-IsFine g (failure f) = maybe_send_pam_error-IsFine g (some f)

pub go_back_command-IsFine : (g : Bool) (m : NativeModel) → IsFine g (go_back_command m).1
unfolding go_back_command request_stage_change
go_back_command-IsFine g m = ground arith

pub maybe_pre_check_user-IsFine :
    (g : Bool) (talk : Talk) (m : NativeModel) (user : String) (next : Cmd)
    → IsFine g next
    → IsFine g (maybe_pre_check_user talk m user next)
unfolding maybe_pre_check_user
maybe_pre_check_user-IsFine g talk m user next h = ground arith

pub ask_user-IsFine : (g : Bool) (talk : Talk) (m : NativeModel) → RunIsFine g (ask_user talk m)
unfolding ask_user
ask_user-IsFine g talk m = elim (Option-cases (prompt_for_input (can_go_back m) talk.answers)) [
  | inl e ↦ ground arith
  | inr (((user, none), rest), e) ↦
      ground (arith, maybe_pre_check_user-IsFine g talk m user (send (user_selected user)) tt)
  | inr (((user, some p), rest), e) ↦ ground (arith, send_prompt_error-IsFine g p)
]

pub ask_broker-IsFine : (g : Bool) (talk : Talk) (m : NativeModel) → RunIsFine g (ask_broker talk m)
unfolding ask_broker
ask_broker-IsFine g talk m = ground arith

pub ask_auth_mode-IsFine :
    (g : Bool) (talk : Talk) (m : NativeModel) → RunIsFine g (ask_auth_mode talk m)
unfolding ask_auth_mode request_stage_change
ask_auth_mode-IsFine g talk m = ground arith

form_secret-IsFine :
    (g : Bool) (has_wait : Bool) (input : Input String) → IsFine g (form_secret has_wait input)
unfolding form_secret send_auth_wait_command
form_secret-IsFine g w (secret, none) = tt
form_secret-IsFine g w (secret, some go_back) = tt
form_secret-IsFine g w (secret, some empty_response) = ground arith
form_secret-IsFine g w (secret, some e) = send_prompt_error-IsFine g e

ask_action-IsFine :
    (g : Bool) (m : NativeModel) (layout : UiLayout) (pressed : Cmd) (go_on : List Answer → Run Cmd)
    (script : List Answer)
    → IsFine g pressed
    → ((rest : List Answer) → RunIsFine g (go_on rest))
    → RunIsFine g (ask_action m layout pressed go_on script)
unfolding ask_action
ask_action-IsFine g m layout pressed go_on script p h =
    elim (Option-cases (prompt_for_choice (can_go_back m) (action_choices layout.button) script)) [
      | inl e ↦ ground (arith, h script)
      | inr (((id, none), rest), e) ↦ ground (arith, h script, h rest)
      | inr (((id, some x), rest), e) ↦ ground (arith, h script, send_prompt_error-IsFine g x)
    ]

ask_form_secret-IsFine :
    (g : Bool) (m : NativeModel) (layout : UiLayout) (script : List Answer)
    → RunIsFine g (ask_form_secret m layout script)
unfolding ask_form_secret
ask_form_secret-IsFine g m layout script = elim (Option-cases (show_text script)) [
  | inl e ↦ ground arith
  | inr ((some f, rest), e) ↦ ground (arith, maybe_send_pam_error-IsFine g (some f))
  | inr ((none, rest), e) ↦ elim (Option-cases (prompt_for_secret m layout rest)) [
    | inl e' ↦ ground arith
    | inr ((input, rest'), e') ↦ ground (arith, form_secret-IsFine g (layout.wait == "true") input)
  ]
]

handle_form_challenge-IsFine :
    (g : Bool) (m : NativeModel) (layout : UiLayout) (script : List Answer)
    → RunIsFine g (handle_form_challenge m layout script)
unfolding handle_form_challenge
handle_form_challenge-IsFine g m layout script =
    ask_action-IsFine g m layout (send reselect_auth_mode) (ask_form_secret m layout) script tt
      (ask_form_secret-IsFine g m layout)

handle_qr_code-IsFine :
    (g : Bool) (env : Env) (m : NativeModel) (layout : UiLayout) (script : List Answer)
    → RunIsFine g (handle_qr_code env m layout script)
unfolding handle_qr_code send_auth_wait_command
handle_qr_code-IsFine g env m layout script =
    elim (Option-cases (prompt_for_choice (can_go_back m) (qr_choices layout.button) script)) [
      | inl e ↦ ground arith
      | inr (((id, none), rest), e) ↦ ground arith
      | inr (((id, some x), rest), e) ↦ ground (arith, send_prompt_error-IsFine g x)
    ]

abbrev RoundIsFine : Bool → PasswordRound → Type 0
RoundIsFine g (asked cmd) = IsFine g cmd
RoundIsFine g mismatch = Unit

password_input-IsFine :
    (g : Bool) (previous : Option String) (input : Input String)
    → RoundIsFine g (password_input previous input)
unfolding password_input
password_input-IsFine g none (password, none) = tt
password_input-IsFine g (some p) (password, none) = ground arith
password_input-IsFine g previous (password, some go_back) = tt
password_input-IsFine g none (password, some empty_response) = tt
password_input-IsFine g (some p) (password, some empty_response) = ground arith
password_input-IsFine g previous (password, some not_an_integer) =
    send_prompt_error-IsFine g not_an_integer
password_input-IsFine g previous (password, some unhandled_entry) =
    send_prompt_error-IsFine g unhandled_entry
password_input-IsFine g previous (password, some (failure f)) =
    send_prompt_error-IsFine g (failure f)

password_round-IsFine :
    (g : Bool) (m : NativeModel) (layout : UiLayout) (previous : Option String)
    (script : List Answer) (r : PasswordRound) (rest : List Answer)
    → password_round m layout previous script ≡ some (r, rest)
    → RoundIsFine g r
unfolding password_round
password_round-IsFine g m layout previous script r rest h =
    elim (Option-cases (show_instructions previous script)) [
      | inl e ↦ ground arith
      | inr ((some f, left), e) ↦ ground (arith, maybe_send_pam_error-IsFine g (some f))
      | inr ((none, left), e) ↦ elim (Option-cases (prompt_for_secret m layout left)) [
        | inl e' ↦ ground arith
        | inr ((input, left'), e') ↦ ground (arith, password_input-IsFine g previous input)
      ]
    ]

ask_new_password-IsFine :
    (g : Bool) (m : NativeModel) (layout : UiLayout) (script : List Answer)
    → RunIsFine g (ask_new_password m layout script)
unfolding ask_new_password
ask_new_password-IsFine g m layout script =
    elim (Option-cases (password_round m layout none script)) [
      | inl e ↦ ground arith
      | inr ((asked cmd, rest), e) ↦
          ground (arith, password_round-IsFine g m layout none script (asked cmd) rest)
      | inr ((mismatch, rest), e) ↦ ground arith
    ]

ask_again-IsFine :
    (g : Bool) (m : NativeModel) (layout : UiLayout) (script : List Answer)
    → RunIsFine g (ask_again m layout script)
unfolding ask_again
ask_again-IsFine g m layout script = elim (Option-cases (show_text script)) [
  | inl e ↦ ground arith
  | inr ((some f, rest), e) ↦ ground (arith, maybe_send_pam_error-IsFine g (some f))
  | inr ((none, rest), e) ↦ ground (arith, ask_new_password-IsFine g m layout rest)
]

pub new_password_challenge-IsFine :
    (g : Bool) (m : NativeModel) (layout : UiLayout) (previous : Option String)
    (script : List Answer)
    → RunIsFine g (new_password_challenge m layout previous script)
unfolding new_password_challenge
new_password_challenge-IsFine g m layout none script = ask_new_password-IsFine g m layout script
new_password_challenge-IsFine g m layout (some p) script =
    elim (Option-cases (password_round m layout (some p) script)) [
      | inl e ↦ ground arith
      | inr ((asked cmd, rest), e) ↦
          ground (arith, password_round-IsFine g m layout (some p) script (asked cmd) rest)
      | inr ((mismatch, rest), e) ↦ ground (arith, ask_again-IsFine g m layout rest)
    ]

pub start_challenge-IsFine :
    (g : Bool) (env : Env) (m : NativeModel) (script : List Answer)
    → RunIsFine g (start_challenge env m script)
unfolding start_challenge handle_new_password
start_challenge-IsFine g env m script = elim (Option-cases m.ui_layout) [
  | inl e ↦ ground arith
  | inr (layout, e) ↦ ground (
    arith,
    handle_form_challenge-IsFine g m layout script,
    handle_qr_code-IsFine g env m layout script,
    ask_action-IsFine g m layout (send (is_authenticated_requested (skip_item "true")))
        (ask_new_password m layout) script tt (ask_new_password-IsFine g m layout),
  )
]
