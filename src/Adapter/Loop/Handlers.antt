-- ===== src/Adapter/Loop/Handlers.antt =====
-- The cases of UIModel.Update that keep the exit status: the lemmas about what they send.
use authd.Prelude.{◌≡◌, String, Bool, some, arith, string_eq, Option-cases, inl, inr}
use authd.Pam.Layouts.{UiLayout}
use authd.Adapter.Messages.{
  Msg, Cmd, key, broker_selected_event, auth_mode_selected_event, ui_layout_received,
  user_selection, broker_selection, auth_mode_selection,
}
use authd.Adapter.Widgets.{Env}
use authd.Adapter.Authentication.{update_authentication}
use authd.Adapter.Authentication.Compose.{compose}
use authd.Adapter.BrokerSelection.{update_broker_selection}
use authd.Adapter.Model.{UiModel, Outside, update_client_model}
use authd.Adapter.Model.Update.{
  with_models, update_all, press_esc, press_key, handle_broker_selected, handle_session_started,
  handle_modes_requested, handle_auth_mode_selected, handle_layout_received, reselected,
}
use authd.Adapter.Loop.Fine.{
  FineMsg, IsFine, update_user_selection-IsFine, update_broker_selection-IsFine,
  update_auth_mode_selection-IsFine,
}
use authd.Adapter.Loop.Results.{update_authentication-IsFine}
use authd.Adapter.Loop.Stages.{
  end_session_cmd-IsFine, compose-IsFine, to_stage-IsFine, to_stage-exit_status,
  update_client_model-IsFine,
}

-- What an operation keeps to: its command is fine and the exit status stays.
abbrev pub Keeps : Bool → UiModel → UiModel → Cmd → Type 0
Keeps g m m' cmd = IsFine g cmd × (m'.exit_status ≡ m.exit_status)

pub update_all-Keeps :
    (g : Bool) (o : Outside) (msg : Msg) (m m' : UiModel) (cmd : Cmd)
    → FineMsg g msg
    → update_all o msg m ≡ some (m', cmd)
    → Keeps g m m' cmd
unfolding update_all
update_all-Keeps g o msg m m' cmd f h =
    elim (Option-cases (update_broker_selection o.env msg m.broker_selection_model)) [
      | inl e ↦ ground arith
      | inr (b, e) ↦ elim (Option-cases (update_authentication o.env msg m.authentication_model)) [
        | inl e' ↦ ground arith
        | inr (n, e') ↦
            elim (Option-cases (update_client_model o msg (with_models o msg m b.0 n.0))) [
              | inl e'' ↦ ground arith
              | inr (r, e'') ↦ ground (
                arith,
                update_user_selection-IsFine g o.env m.pam_user msg m.user_selection_model,
                update_broker_selection-IsFine g o.env msg m.broker_selection_model b.0 b.1,
                update_auth_mode_selection-IsFine g o.env msg m.auth_mode_selection_model,
                update_authentication-IsFine g o.env msg m.authentication_model n.0 n.1 f,
                update_client_model-IsFine g o msg (with_models o msg m b.0 n.0) r.0 r.1,
              )
            ]
      ]
    ]

press_esc-Keeps :
    (g : Bool) (env : Env) (m : UiModel) → Keeps g m (press_esc env m).0 (press_esc env m).1
unfolding press_esc
press_esc-Keeps g env m = ground (
  arith,
  to_stage-IsFine g env user_selection m,
  to_stage-IsFine g env broker_selection m,
  to_stage-IsFine g env auth_mode_selection m,
  to_stage-exit_status env user_selection m,
  to_stage-exit_status env broker_selection m,
  to_stage-exit_status env auth_mode_selection m,
)

pub press_key-Keeps :
    (g : Bool) (o : Outside) (name : String) (m m' : UiModel) (cmd : Cmd)
    → press_key o name m ≡ some (m', cmd)
    → Keeps g m m' cmd
unfolding press_key
press_key-Keeps g o name m m' cmd h =
    ground (arith, press_esc-Keeps g o.env m, update_all-Keeps g o (key name) m m' cmd tt)

pub handle_broker_selected-Keeps :
    (g : Bool) (o : Outside) (id : String) (m m' : UiModel) (cmd : Cmd)
    → handle_broker_selected o id m ≡ some (m', cmd)
    → Keeps g m m' cmd
unfolding handle_broker_selected
handle_broker_selected-Keeps g o id m m' cmd h = ground (
  arith,
  update_all-Keeps g o (broker_selected_event id) m m' cmd tt,
  end_session_cmd-IsFine g m.current_session,
)

pub handle_session_started-Keeps :
    (g : Bool) (env : Env) (broker_id session_id encoded : String) (m : UiModel)
    → Keeps g m
        (handle_session_started env broker_id session_id encoded m).0
        (handle_session_started env broker_id session_id encoded m).1
unfolding handle_session_started
handle_session_started-Keeps g env broker_id session_id encoded m = ground arith

pub handle_modes_requested-Keeps :
    (g : Bool) (env : Env) (m : UiModel)
    → Keeps g m (handle_modes_requested env m).0 (handle_modes_requested env m).1
unfolding handle_modes_requested
handle_modes_requested-Keeps g env m = ground (
  arith,
  to_stage-IsFine g env auth_mode_selection m,
  to_stage-exit_status env auth_mode_selection m,
)

pub handle_auth_mode_selected-Keeps :
    (g : Bool) (o : Outside) (id : String) (m m' : UiModel) (cmd : Cmd)
    → handle_auth_mode_selected o id m ≡ some (m', cmd)
    → Keeps g m m' cmd
unfolding handle_auth_mode_selected
handle_auth_mode_selected-Keeps g o id m m' cmd h =
    elim (Option-cases (update_client_model o (auth_mode_selected_event (reselected id m)) m)) [
      | inl e ↦ ground arith
      | inr (r, e) ↦ ground (
        arith,
        update_client_model-IsFine g o (auth_mode_selected_event (reselected id m)) m r.0 r.1,
      )
    ]

pub handle_layout_received-Keeps :
    (g : Bool) (o : Outside) (layout : UiLayout) (m m' : UiModel) (cmd : Cmd)
    → handle_layout_received o layout m ≡ some (m', cmd)
    → Keeps g m m' cmd
unfolding handle_layout_received
handle_layout_received-Keeps g o layout m m' cmd h = elim (Option-cases m.current_session) [
  | inl e ↦ ground arith
  | inr (s, e) ↦
      elim (Option-cases (
        compose o.env s.broker_id s.session_id (some s.encryption_key) layout
          m.authentication_model)) [
            | inl e' ↦ ground arith
            | inr (a, e') ↦
                elim (Option-cases (
                  update_client_model o (ui_layout_received layout)
                    (record m { authentication_model = a.0 }))) [
                      | inl e'' ↦ ground arith
                      | inr (r, e'') ↦ ground (
                        arith,
                        compose-IsFine g o.env s.broker_id s.session_id (some s.encryption_key)
                            layout m.authentication_model a.0 a.1,
                        update_client_model-IsFine g o (ui_layout_received layout)
                            (record m { authentication_model = a.0 }) r.0 r.1,
                      )
                    ]
          ]
]
