-- ===== src/Adapter/Examples.antt =====
-- Runs of the models of pam/internal/adapter.
use authd.Prelude.{◌+◌, ◌≤◌, ◌<◌, ◌≡◌, refl, true, false, none, some, [], ◌∷◌}
use authd.Adapter.Messages.{
  nil, sequence, send, call, wait_poll_frequency, is_authenticated_requested, Cmd, key,
  start_authentication, gdm_poll_done, wait_item,
}
use authd.Adapter.Widgets.{Env}
use authd.Adapter.NewPassword.{
  update_focus_model, NewPasswordModel, new_new_password_model, update_new_password, focusable_len,
}
use authd.Adapter.NewPassword.Entries.{Updates, fresh, after, Asks, new_password_sends_confirmed}
use authd.Adapter.Gdm.{
  handle_gdm, emit_event_sync, poll_gdm, poll_events, poll_event, Peer, GdmModel, new_gdm_model,
  update_gdm, poll_is_authenticated_requested,
}
use authd.Adapter.Gdm.Requests.{Session, waiting, requests-le-started}
use authd.Adapter.Gdm.Requests

abbrev pub env : Env
env = record {
  type_text = λ msg t. record t { value = "secret" };
  list_update = λ msg l. l;
  set_items = λ items l. record l { items = items };
  select_index = λ i l. record l { index = i };
  selected_item = λ l. none;
  blinks = false;
  now = 1000;
  address = 1;
  get_user_error = none;
  set_user_error = none;
  encodes_qrcode = λ content. true;
  json_members = λ reply_data. some [];
  json_text = λ text. some text;
  decode_base64 = λ text. some text;
  parse_public_key = λ asn1. some (asn1, true);
  encrypt = λ k secret. some secret;
}

abbrev new_form : NewPasswordModel
new_form = new_new_password_model env "New password" ""

-- the form after the first entry was typed
abbrev typed : NewPasswordModel
typed = record new_form { first = record { value = "secret"; focused = false } }

typed-Updates : Updates new_form typed
unfolding new_new_password_model update_new_password update_focus_model
typed-Updates = after fresh env (key "s") nil refl

new_password_sends_confirmed_example :
    (m' : NewPasswordModel) × (cmd : Cmd) × (update_new_password env (key "enter") typed
      ≡ some (m', cmd))
    × (m'.focus_index < focusable_len m')
    × Asks typed cmd
new_password_sends_confirmed_example =
    new_password_sends_confirmed env env "New password" "" typed (key "enter") typed-Updates

-- GDM asks twice in one poll
abbrev asking_twice : Peer
asking_twice = record {
  polled = some (
      poll_is_authenticated_requested (some (wait_item "true"))
      ∷ poll_is_authenticated_requested (some (wait_item "true"))
      ∷ []);
  emit_fails = λ e. false;
  hello_matches = some true;
}

abbrev waiting_model : GdmModel
waiting_model = record { waiting_auth = true; conversations_stopped = false }

abbrev polled_cmd : Cmd
polled_cmd = sequence (call wait_poll_frequency) (
    sequence (sequence (send gdm_poll_done) (send (is_authenticated_requested (wait_item "true"))))
      nil)

one_request : Session new_gdm_model 1 1
unfolding update_gdm handle_gdm emit_event_sync poll_gdm poll_events poll_event
one_request =
    Requests.after {m = waiting_model}
      (Requests.after Requests.fresh env asking_twice start_authentication nil 1 0 refl refl refl)
      env asking_twice gdm_poll_done polled_cmd 1 1 refl refl refl

requests-le-started_example : 1 + waiting new_gdm_model ≤ 1
requests-le-started_example = requests-le-started one_request
