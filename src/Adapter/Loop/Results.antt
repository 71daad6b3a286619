-- ===== src/Adapter/Loop/Results.antt =====
-- authenticationModel: the lemmas about what its commands send for a result of authd.
use authd.Prelude.{
  ◌≡◌, String, Bool, true, Option, some, arith, Option-cases, inl, inr, ◌==◌, string_eq,
}
use authd.Adapter.Messages.{
  Msg, Cmd, reselect_auth_mode, new_password_check, new_password_check_result,
  is_authenticated_requested, is_authenticated_requested_send, is_authenticated_cancelled,
  is_authenticated_result_received, err_msg_to_display,
}
use authd.Adapter.Widgets.{Env}
use authd.Adapter.Forms.{update_component}
use authd.Adapter.Authentication.{
  AuthenticationModel, update_authentication, forward, handle_result, gdm_check_result,
}
use authd.Adapter.Loop.Fine.{FineMsg, IsFine}
use authd.Adapter.Loop.Forms.{update_component-IsFine}

forward-IsFine :
    (g : Bool) (env : Env) (msg : Msg) (m m' : AuthenticationModel) (cmd : Cmd)
    → forward env msg m ≡ some (m', cmd)
    → IsFine g cmd
unfolding forward
forward-IsFine g env msg m m' cmd h = elim (Option-cases m.current_model) [
  | inl e ↦ ground arith
  | inr (c, e) ↦ elim (Option-cases (update_component env msg c)) [
    | inl e' ↦ ground arith
    | inr (r, e') ↦ ground (arith, update_component-IsFine g env msg c r.0 r.1)
  ]
]

handle_result-IsFine :
    (g : Bool) (env : Env) (access msg : String) (secret : Option String)
    (m m' : AuthenticationModel) (cmd : Cmd)
    → ((access == "granted") ≡ true → g ≡ true)
    → handle_result env access secret msg m ≡ some (m', cmd)
    → IsFine g cmd
unfolding handle_result
handle_result-IsFine g env access msg secret m m' cmd f h =
    ground
      (arith, f, forward-IsFine g env (is_authenticated_result_received access secret msg) m m' cmd)

gdm_check_result-IsFine :
    (g : Bool) (env : Env) (password msg : String) → IsFine g (gdm_check_result env password msg)
unfolding gdm_check_result
gdm_check_result-IsFine g env password msg = ground arith

pub update_authentication-IsFine :
    (g : Bool) (env : Env) (msg : Msg) (m m' : AuthenticationModel) (cmd : Cmd)
    → FineMsg g msg
    → update_authentication env msg m ≡ some (m', cmd)
    → IsFine g cmd
unfolding update_authentication
update_authentication-IsFine g env reselect_auth_mode m m' cmd f h = ground arith
update_authentication-IsFine g env (new_password_check password) m m' cmd f h = ground arith
update_authentication-IsFine g env (new_password_check_result password msg) m m' cmd f h = ground (
  arith,
  gdm_check_result-IsFine g env password msg,
  forward-IsFine g env (new_password_check_result password msg) m m' cmd,
)
update_authentication-IsFine g env (is_authenticated_requested item) m m' cmd f h = ground arith
update_authentication-IsFine g env (is_authenticated_requested_send item) m m' cmd f h =
    ground arith
update_authentication-IsFine g env (is_authenticated_cancelled msg) m m' cmd f h = ground arith
update_authentication-IsFine g env (is_authenticated_result_received access secret msg) m m' cmd f
      h =
    elim (Option-cases (handle_result env access secret msg m)) [
      | inl e ↦ ground arith
      | inr (r, e) ↦ ground (arith, handle_result-IsFine g env access msg secret m r.0 r.1 f)
    ]
update_authentication-IsFine g env (err_msg_to_display msg) m m' cmd f h = ground arith
update_authentication-IsFine g env msg m m' cmd f h = forward-IsFine g env msg m m' cmd h
