-- ===== src/Adapter/Loop/NativeUpdate.antt =====
-- Update of the client of plain PAM conversations: the lemmas about what its commands send.
use authd.Prelude.{◌≡◌, refl, String, Bool, none, some, arith, Option-cases, inl, inr, ◌⊎◌}
use authd.Adapter.Messages.{
  Msg, Cmd, send, Stage, user_selection, broker_selection, auth_mode_selection, challenge,
  other_stage, broker_selection_required, native_broker_selection, native_auth_selection,
  native_challenge_requested, new_password_check_result, is_authenticated_result_received,
  is_authenticated_cancelled, native_go_back, native_stage_change_request,
}
use authd.Adapter.Widgets.{Env}
use authd.Adapter.Conversation.{send_text}
use authd.Adapter.Authentication.{Reply, message, bad_data, data_to_msg}
use authd.Adapter.Native.{
  Talk, NativeModel, start_async_op, ask_user, ask_broker, ask_auth_mode, request_stage_change,
}
use authd.Adapter.Native.Challenge.{start_challenge}
use authd.Adapter.Native.Update.{
  handle_native, update_native, handle_user_selection, handle_broker_selection,
  handle_auth_selection, handle_stage_request, handle_native_result, handle_check_result, show,
  layout_of,
}
use authd.Adapter.Loop.Fine.{IsFine, maybe_send_pam_error-IsFine}
use authd.Adapter.Loop.NativeClient.{
  ask_user-IsFine, ask_broker-IsFine, ask_auth_mode-IsFine, start_challenge-IsFine,
  new_password_challenge-IsFine, go_back_command-IsFine, maybe_pre_check_user-IsFine,
}

handle_stage_request-IsFine :
    (g : Bool) (s : Stage) (m : NativeModel) → IsFine g (handle_stage_request s m).1
unfolding handle_stage_request
handle_stage_request-IsFine g user_selection m = ground arith
handle_stage_request-IsFine g broker_selection m = ground arith
handle_stage_request-IsFine g auth_mode_selection m = ground arith
handle_stage_request-IsFine g challenge m = ground arith
handle_stage_request-IsFine g (other_stage n) m = tt

Reply-cases : (r : Reply) → ((e : String) × (r ≡ bad_data e)) ⊎ ((t : String) × (r ≡ message t))
Reply-cases (bad_data e) = inl (e, refl)
Reply-cases (message t) = inr (t, refl)

module _ (g : Bool) (talk : Talk) where
  handle_broker_selection-IsFine :
      (m m' : NativeModel) (cmd : Cmd)
      → handle_broker_selection talk m ≡ some (m', cmd)
      → IsFine g cmd
  unfolding handle_broker_selection start_async_op
  handle_broker_selection-IsFine m m' cmd h = elim (Option-cases (ask_broker talk m)) [
    | inl e ↦ ground arith
    | inr (ret, e) ↦ ground (arith, ask_broker-IsFine g talk m)
  ]

  handle_auth_selection-IsFine :
      (m m' : NativeModel) (cmd : Cmd)
      → handle_auth_selection talk m ≡ some (m', cmd)
      → IsFine g cmd
  unfolding handle_auth_selection start_async_op
  handle_auth_selection-IsFine m m' cmd h = elim (Option-cases (ask_auth_mode talk m)) [
    | inl e ↦ ground arith
    | inr (ret, e) ↦ ground (arith, ask_auth_mode-IsFine g talk m)
  ]

  handle_user_selection-IsFine :
      (env : Env) (user user' : String) (m m' : NativeModel) (cmd : Cmd)
      → handle_user_selection env talk user m ≡ some (m', user', cmd)
      → IsFine g cmd
  unfolding handle_user_selection start_async_op
  handle_user_selection-IsFine env user user' m m' cmd h = elim (Option-cases (ask_user talk m)) [
    | inl e ↦ ground (arith, maybe_send_pam_error-IsFine g env.set_user_error)
    | inr (ret, e) ↦
        ground (arith, ask_user-IsFine g talk m, maybe_send_pam_error-IsFine g env.set_user_error)
  ]

  show-IsFine :
      (text : String) (m m' : NativeModel) (cmd : Cmd)
      → show talk text m ≡ some (m', cmd)
      → IsFine g cmd
  unfolding show
  show-IsFine text m m' cmd h = elim (Option-cases (send_text text talk.answers)) [
    | inl e ↦ ground arith
    | inr ((shown, rest), e) ↦ ground (arith, maybe_send_pam_error-IsFine g shown)
  ]

  handle_native_result-IsFine :
      (env : Env) (access msg : String) (m m' : NativeModel) (cmd : Cmd)
      → handle_native_result env talk access msg m ≡ some (m', cmd)
      → IsFine g cmd
  unfolding handle_native_result
  handle_native_result-IsFine env access msg m m' cmd h = elim (Reply-cases (data_to_msg env msg)) [
    | inl (e, p) ↦ ground arith
    | inr (text, p) ↦ ground (
      arith,
      show-IsFine text m m' cmd,
      show-IsFine text (record m { ui_layout = none }) m' cmd,
      show-IsFine "Access is not valid" m m' cmd,
    )
  ]

  handle_check_result-IsFine :
      (password msg : String) (m m' : NativeModel) (cmd : Cmd)
      → handle_check_result talk password msg m ≡ some (m', cmd)
      → IsFine g cmd
  unfolding handle_check_result
  handle_check_result-IsFine password msg m m' cmd h =
      elim (Option-cases (send_text msg talk.answers)) [
        | inl e ↦
            ground
              (arith, new_password_challenge-IsFine g m (layout_of m) (some password) talk.answers)
        | inr ((some f, rest), e) ↦ ground (
          arith,
          new_password_challenge-IsFine g m (layout_of m) (some password) talk.answers,
          maybe_send_pam_error-IsFine g (some f),
        )
        | inr ((none, rest), e) ↦ ground (
          arith,
          new_password_challenge-IsFine g m (layout_of m) (some password) talk.answers,
          new_password_challenge-IsFine g m (layout_of m) none rest,
        )
      ]

  pub handle_native-IsFine :
      (env : Env) (user : String) (msg : Msg) (m m' : NativeModel) (cmd : Cmd)
      → handle_native env talk user msg m ≡ some (m', cmd)
      → IsFine g cmd
  unfolding handle_native request_stage_change start_async_op
  handle_native-IsFine env user (native_stage_change_request s) m m' cmd h =
      ground (arith, handle_stage_request-IsFine g s m)
  handle_native-IsFine env user native_go_back m m' cmd h =
      ground (arith, go_back_command-IsFine g m)
  handle_native-IsFine env user broker_selection_required m m' cmd h = ground (
    arith,
    maybe_send_pam_error-IsFine g env.get_user_error,
    maybe_pre_check_user-IsFine g talk m user (send (native_stage_change_request broker_selection))
        tt,
  )
  handle_native-IsFine env user native_broker_selection m m' cmd h =
      handle_broker_selection-IsFine m m' cmd h
  handle_native-IsFine env user native_auth_selection m m' cmd h =
      handle_auth_selection-IsFine m m' cmd h
  handle_native-IsFine env user native_challenge_requested m m' cmd h =
      elim (Option-cases (start_challenge env m talk.answers)) [
        | inl e ↦ ground arith
        | inr (ret, e) ↦ ground (arith, start_challenge-IsFine g env m talk.answers)
      ]
  handle_native-IsFine env user (new_password_check_result password msg) m m' cmd h =
      handle_check_result-IsFine password msg m m' cmd h
  handle_native-IsFine env user (is_authenticated_result_received access secret msg) m m' cmd h =
      handle_native_result-IsFine env access msg m m' cmd h
  handle_native-IsFine env user (is_authenticated_cancelled msg) m m' cmd h =
      ground (arith, go_back_command-IsFine g m)
  handle_native-IsFine env user msg m m' cmd h = ground arith

  pub update_native-IsFine :
      (env : Env) (user user' : String) (msg : Msg) (m m' : NativeModel) (cmd : Cmd)
      → update_native env talk user msg m ≡ some (m', user', cmd)
      → IsFine g cmd
  unfolding update_native
  update_native-IsFine env user user' msg m m' cmd h =
      elim (Option-cases (handle_native env talk user msg m)) [
        | inl e ↦ ground (arith, handle_user_selection-IsFine env user user' m m' cmd)
        | inr (r, e) ↦ ground (
          arith,
          handle_user_selection-IsFine env user user' m m' cmd,
          handle_native-IsFine env user msg m r.0 r.1,
        )
      ]
