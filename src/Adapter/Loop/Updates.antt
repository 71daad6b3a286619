-- ===== src/Adapter/Loop/Updates.antt =====
-- UIModel.Update: the lemmas about what it sends and the exit status.
use authd.Prelude.{◌≡◌, refl, String, Bool, Option, none, some, arith, string_eq}
use authd.Adapter.Messages.{
  Msg, Cmd, key, pam_success, pam_error, broker_list_received, username_selected,
  broker_selected_event, session_started, change_stage, get_authentication_modes_requested,
  auth_mode_selected_event, ui_layout_received, session_ended,
}
use authd.Adapter.Widgets.{Env}
use authd.Adapter.UserSelection.{select_user}
use authd.Adapter.Model.{UiModel, ExitStatus, exit_success, exit_error, Outside}
use authd.Adapter.Model.Update.{update, set_exit_status}
use authd.Adapter.Loop.Fine.{FineMsg, IsFine, maybe_send_pam_error-IsFine}
use authd.Adapter.Loop.Stages.{quit-IsFine, to_stage-IsFine, to_stage-exit_status}
use authd.Adapter.Loop.Handlers.{
  update_all-Keeps, press_key-Keeps, handle_broker_selected-Keeps, handle_session_started-Keeps,
  handle_modes_requested-Keeps, handle_auth_mode_selected-Keeps, handle_layout_received-Keeps,
}

set_exit_status-IsFine :
    (g : Bool) (status : ExitStatus) (m : UiModel) → IsFine g (set_exit_status status m).1
unfolding set_exit_status
set_exit_status-IsFine g status m =
    ground (arith, quit-IsFine g (record m { exit_status = some status }))

select_user-IsFine : (g : Bool) (env : Env) (user : String) → IsFine g (select_user env user)
unfolding select_user
select_user-IsFine g env user = ground (arith, maybe_send_pam_error-IsFine g env.get_user_error)

-- The status that a message asks to exit with.
abbrev pub asked_status : Msg → Option ExitStatus
asked_status (pam_success broker_id text) = some (exit_success broker_id text)
asked_status (pam_error status text) = some (exit_error status text)
asked_status _ = none

-- the first status that was asked for
abbrev pub first_status : Option ExitStatus → Option ExitStatus → Option ExitStatus
first_status (some status) asked = some status
first_status none asked = asked

set_exit_status-exit_status :
    (status : ExitStatus) (m : UiModel)
    → (set_exit_status status m).0.exit_status ≡ first_status m.exit_status (some status)
unfolding set_exit_status
set_exit_status-exit_status status m = ground arith

first_status-none : (o : Option ExitStatus) → first_status o none ≡ o
first_status-none none = refl
first_status-none (some s) = refl

-- Update of every message: its command sends a success or a granted result only where the message does,
-- and the exit status becomes the first that was asked for.
pub update-IsFine :
    (g : Bool) (o : Outside) (msg : Msg) (m m' : UiModel) (cmd : Cmd)
    → FineMsg g msg
    → update o msg m ≡ some (m', cmd)
    → IsFine g cmd × (m'.exit_status ≡ first_status m.exit_status (asked_status msg))
unfolding update
update-IsFine g o (key name) m m' cmd f h =
    rw (first_status-none m.exit_status) (press_key-Keeps g o name m m' cmd h)
update-IsFine g o (pam_success broker_id text) m m' cmd f h = ground (
  arith,
  set_exit_status-IsFine g (exit_success broker_id text) m,
  set_exit_status-exit_status (exit_success broker_id text) m,
)
update-IsFine g o (pam_error status text) m m' cmd f h = ground (
  arith,
  set_exit_status-IsFine g (exit_error status text) m,
  set_exit_status-exit_status (exit_error status text) m,
)
update-IsFine g o broker_list_received m m' cmd f h =
    ground (arith, select_user-IsFine g o.env m.pam_user, first_status-none m.exit_status)
update-IsFine g o username_selected m m' cmd f h = ground (arith, first_status-none m.exit_status)
update-IsFine g o (broker_selected_event id) m m' cmd f h =
    rw (first_status-none m.exit_status) (handle_broker_selected-Keeps g o id m m' cmd h)
update-IsFine g o (session_started broker_id session_id encoded) m m' cmd f h = ground (
  arith,
  handle_session_started-Keeps g o.env broker_id session_id encoded m,
  first_status-none m.exit_status,
)
update-IsFine g o (change_stage s) m m' cmd f h = ground (
  arith,
  to_stage-IsFine g o.env s m,
  to_stage-exit_status o.env s m,
  first_status-none m.exit_status,
)
update-IsFine g o get_authentication_modes_requested m m' cmd f h =
    ground (arith, handle_modes_requested-Keeps g o.env m, first_status-none m.exit_status)
update-IsFine g o (auth_mode_selected_event id) m m' cmd f h =
    rw (first_status-none m.exit_status) (handle_auth_mode_selected-Keeps g o id m m' cmd h)
update-IsFine g o (ui_layout_received layout) m m' cmd f h =
    rw (first_status-none m.exit_status) (handle_layout_received-Keeps g o layout m m' cmd h)
update-IsFine g o session_ended m m' cmd f h = ground (arith, first_status-none m.exit_status)
update-IsFine g o msg m m' cmd f h =
    rw (first_status-none m.exit_status) (update_all-Keeps g o msg m m' cmd f h)
