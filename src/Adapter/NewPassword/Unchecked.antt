-- ===== src/Adapter/NewPassword/Unchecked.antt =====
-- newPasswordModel: the result of a quality check and the entry that is sent.
use authd.Prelude.{◌≡◌, String, some, arith, string_eq, nat_eq}
use authd.Prelude.{==_refl}
use authd.Adapter.Messages.{
  Cmd, key, send, new_password_check_result, is_authenticated_requested, challenge_item,
}
use authd.Adapter.Widgets.{Env}
use authd.Adapter.NewPassword.{
  NewPasswordModel, update_new_password, focus_next_field, focus_at, focus_only, press_enter,
}

-- the same entry typed a second time
abbrev pub confirmed : NewPasswordModel → String → NewPasswordModel
confirmed m value = record m { second = record (m.second) { value = value } }

-- Whatever password the check was about: once it is found good, while the first entry has the focus, the
-- password that this entry holds now, typed again, is what is sent, checked or not.
pub unchecked_password_sent :
    (env env' : Env) (m m' : NewPasswordModel) (checked : String) (cmd : Cmd)
    → m.focus_index ≡ 0
    → update_new_password env (new_password_check_result checked "") m ≡ some (m', cmd)
    → update_new_password env' (key "enter") (confirmed m' m.first.value)
      ≡ some (
        confirmed m' m.first.value,
        send (is_authenticated_requested (challenge_item m.first.value)),
      )
unfolding update_new_password focus_next_field focus_at focus_only press_enter
unchecked_password_sent env env' m m' checked cmd i e = ground (arith, ==_refl m.first.value)
