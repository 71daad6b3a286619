-- ===== src/Adapter/NewPassword/Entries.antt =====
-- newPasswordModel: the focused model, what is sent, and the quality check.
use authd.Prelude.{
  Bool-cases, ◌&&◌, ◌<◌, ◌≡◌, ◌≢◌, refl, String, none, some, Option-cases, inl, inr, ◌⊎◌, [], ◌∷◌,
  arith, ◌==◌, string_eq, nat_eq, eq_iff,
}
use authd.Adapter.Messages.{
  requests, skip_item, Msg, Cmd, key, start_authentication, button_selection_event,
  new_password_check_result, challenge_item,
}
use authd.Adapter.Widgets.{Env, update_button, Button}
use authd.Adapter.NewPassword.{
  NewPasswordModel, focusable_len, new_new_password_model, focus_only, focus_at, focus_next_field,
  focus_prev_field, clear, update_focus_model, press_tab, press_enter, update_new_password,
}

-- The index points to a model.
abbrev pub IsInRange : NewPasswordModel → Type 0
IsInRange m = m.focus_index < focusable_len m

update_focus_model-IsInRange :
    (env : Env) (msg : Msg) (m : NewPasswordModel)
    → IsInRange m
    → IsInRange (update_focus_model env msg m).0
unfolding update_focus_model
update_focus_model-IsInRange env msg m h = ground arith

clear-IsInRange : (m : NewPasswordModel) → IsInRange (clear m)
unfolding clear focus_only
clear-IsInRange m = ground arith

next-IsInRange :
    (env : Env) (m : NewPasswordModel) → IsInRange m → IsInRange (focus_next_field env m).0
unfolding focus_next_field focus_at focus_only
next-IsInRange env m h = ground arith

press_tab-IsInRange :
    (env : Env) (m : NewPasswordModel) → IsInRange m → IsInRange (press_tab env m).0
unfolding press_tab focus_next_field focus_prev_field focus_at focus_only
press_tab-IsInRange env m h = ground arith

press_enter-ne-none :
    (env : Env) (msg : Msg) (m : NewPasswordModel) → IsInRange m → press_enter env msg m ≢ none
unfolding press_enter
press_enter-ne-none env msg m h = λ p. ground arith

press_enter-IsInRange :
    (env : Env) (msg : Msg) (m m' : NewPasswordModel) (cmd : Cmd)
    → IsInRange m
    → press_enter env msg m ≡ some (m', cmd)
    → IsInRange m'
unfolding press_enter
press_enter-IsInRange env msg m m' cmd h e =
    ground (arith, update_focus_model-IsInRange env msg m, clear-IsInRange m)

update_new_password-ne-none :
    (env : Env) (msg : Msg) (m : NewPasswordModel)
    → IsInRange m
    → update_new_password env msg m ≢ none
unfolding update_new_password
update_new_password-ne-none env (key name) m h =
    λ p. ground (arith, press_enter-ne-none env (key name) m h)
update_new_password-ne-none env (new_password_check_result password msg) m h = λ p. ground arith
update_new_password-ne-none env (button_selection_event address) m h = λ p. ground arith
update_new_password-ne-none env msg m h = λ p. ground arith

update_new_password-IsInRange :
    (env : Env) (msg : Msg) (m m' : NewPasswordModel) (cmd : Cmd)
    → IsInRange m
    → update_new_password env msg m ≡ some (m', cmd)
    → IsInRange m'
unfolding update_new_password
update_new_password-IsInRange env start_authentication m m' cmd h e =
    ground
      (arith, clear-IsInRange m, update_focus_model-IsInRange env start_authentication (clear m))
update_new_password-IsInRange env (key name) m m' cmd h e = ground (
  arith,
  press_tab-IsInRange env m h,
  press_enter-IsInRange env (key name) m m' cmd h,
  update_focus_model-IsInRange env (key name) m,
)
update_new_password-IsInRange env (new_password_check_result password msg) m m' cmd h e =
    ground (arith, clear-IsInRange m, next-IsInRange env m)
update_new_password-IsInRange env (button_selection_event address) m m' cmd h e =
    ground (arith, update_focus_model-IsInRange env (button_selection_event address) m)
update_new_password-IsInRange env msg m m' cmd h e =
    ground (arith, update_focus_model-IsInRange env msg m)

-- What a form becomes by messages, each with what is outside then.
pub data Updates (start : NewPasswordModel) : NewPasswordModel → Type 0 where
  fresh : Updates start start
  after :
      {m m' : NewPasswordModel}
      → Updates start m
      → (env : Env) (msg : Msg) (cmd : Cmd) → update_new_password env msg m ≡ some (m', cmd)
      → Updates start m'

new_new_password_model-IsInRange :
    (env : Env) (label button : String) → IsInRange (new_new_password_model env label button)
unfolding new_new_password_model
new_new_password_model-IsInRange env label button = ground arith

Updates-IsInRange : {start m : NewPasswordModel} → IsInRange start → Updates start m → IsInRange m
Updates-IsInRange h fresh = h
Updates-IsInRange h (after {m} {m'} u env msg cmd e) =
    update_new_password-IsInRange env msg m m' cmd (Updates-IsInRange h u) e

update_button-requests :
    (env : Env) (msg : Msg) (b : Button) → requests (update_button env msg b).1 ≡ []
unfolding update_button
update_button-requests env start_authentication b = refl
update_button-requests env (key name) b = ground arith
update_button-requests env msg b = ground arith

update_focus_model-requests :
    (env : Env) (msg : Msg) (m : NewPasswordModel) → requests (update_focus_model env msg m).1 ≡ []
unfolding update_focus_model
update_focus_model-requests env msg m = elim (Option-cases m.button) [
  | inl e ↦ ground arith
  | inr (b, e) ↦ ground (arith, update_button-requests env msg b)
]

press_tab-requests : (env : Env) (m : NewPasswordModel) → requests (press_tab env m).1 ≡ []
unfolding press_tab focus_next_field focus_prev_field focus_at
press_tab-requests env m = ground arith

-- The entries are confirmed: the second has the focus, and both have this value.
pub record IsConfirmed (m : NewPasswordModel) (value : String) : Type 0 where
  pub second_focused : m.focus_index ≡ 1
  pub first_value : m.first.value ≡ value
  pub second_value : m.second.value ≡ value

-- What an update asks to authenticate with: nothing, the skip of the button, or a confirmed password.
abbrev pub Asks : NewPasswordModel → Cmd → Type 0
Asks m cmd =
    (requests cmd ≡ [])
    ⊎ ((requests cmd ≡ skip_item "true" ∷ [])
        ⊎ ((value : String) × (requests cmd ≡ challenge_item value ∷ []) × IsConfirmed m value))

press_enter-Asks :
    (env : Env) (msg : Msg) (m m' : NewPasswordModel) (cmd : Cmd)
    → press_enter env msg m ≡ some (m', cmd)
    → Asks m cmd
unfolding press_enter
press_enter-Asks env msg m m' cmd e =
    elim (Bool-cases (m.focus_index == 1 && m.first.value == m.second.value)) [
      | inr other ↦ inl (ground (arith, update_focus_model-requests env msg m))
      | inl confirmed ↦ inr (
          inr (
            m.second.value,
            ground arith,
            record {
              second_focused = ground arith;
              first_value = ground (arith, eq_iff m.first.value m.second.value);
              second_value = refl;
            },
          ))
    ]

update_new_password-Asks :
    (env : Env) (msg : Msg) (m m' : NewPasswordModel) (cmd : Cmd)
    → update_new_password env msg m ≡ some (m', cmd)
    → Asks m cmd
unfolding update_new_password focus_next_field focus_at
update_new_password-Asks env start_authentication m m' cmd e =
    inl (ground (arith, update_focus_model-requests env start_authentication (clear m)))
update_new_password-Asks env (key name) m m' cmd e = ground (
  arith,
  press_enter-Asks env (key name) m m' cmd,
  press_tab-requests env m,
  update_focus_model-requests env (key name) m,
)
update_new_password-Asks env (new_password_check_result password msg) m m' cmd e =
    inl (ground arith)
update_new_password-Asks env (button_selection_event address) m m' cmd e =
    ground (arith, update_focus_model-requests env (button_selection_event address) m)
update_new_password-Asks env msg m m' cmd e =
    inl (ground (arith, update_focus_model-requests env msg m))

-- A form for a new password, with a button or without, after any messages: the next message is handled
-- without a panic and leaves the index at a model; and what it asks to authenticate with is nothing, the
-- skip of the button, or a password that both entries hold while the second has the focus.
pub new_password_sends_confirmed :
    (env env' : Env) (label button : String) (m : NewPasswordModel) (msg : Msg)
    → Updates (new_new_password_model env label button) m
    → (m' : NewPasswordModel) × (cmd : Cmd) × (update_new_password env' msg m ≡ some (m', cmd))
      × (m'.focus_index < focusable_len m')
      × Asks m cmd
new_password_sends_confirmed env env' label button m msg u =
    let h = Updates-IsInRange (new_new_password_model-IsInRange env label button) u in
    elim (Option-cases (update_new_password env' msg m)) [
      | inr ((m', cmd), e) ↦ (
        m',
        cmd,
        e,
        update_new_password-IsInRange env' msg m m' cmd h e,
        update_new_password-Asks env' msg m m' cmd e,
      )
      | inl e ↦ absurd (update_new_password-ne-none env' msg m h e)
    ]
