-- ===== src/Adapter/Loop/Stages.antt =====
-- The operations of UIModel that Update is made of: the lemmas about their commands and the exit status.
use authd.Prelude.{
  ◌≡◌, refl, String, Bool, Option, none, some, [], ◌∷◌, arith, Option-cases, inl, inr, ◌⊎◌,
}
use authd.Pam.Layouts.{UiLayout}
use authd.Adapter.Messages.{
  Msg, Cmd, ClientType, nil, Stage, native, gdm, interactive_terminal, user_selection,
  broker_selection, auth_mode_selection, challenge, other_stage, brokers_list_received,
}
use authd.Adapter.Widgets.{Env}
use authd.Adapter.Forms.{
  Component, init_component, focus_component_cmd, form, qrcode, new_password, init_qrcode,
}
use authd.Adapter.Authentication.Compose.{component_of, compose}
use authd.Adapter.Authentication.{AuthenticationModel, focus, reset_authentication}
use authd.Adapter.UserSelection.{focus_user}
use authd.Adapter.Gdm.{change_gdm_stage, update_gdm}
use authd.Adapter.Native.Update.{update_native}
use authd.Adapter.Model.{
  SessionInfo, UiModel, Outside, end_session_cmd, quit, current_stage, blur_stage, client_stage_cmd,
  enter_stage, to_stage, update_client_model, share_brokers, msg_filter,
}
use authd.Adapter.Loop.Fine.{IsFine}
use authd.Adapter.Loop.Clients.{update_gdm-IsFine}
use authd.Adapter.Loop.NativeUpdate.{update_native-IsFine}

focus_component_cmd-IsFine :
    (g : Bool) (env : Env) (c : Component) → IsFine g (focus_component_cmd env c)
unfolding focus_component_cmd
focus_component_cmd-IsFine g env (form m) = ground arith
focus_component_cmd-IsFine g env (qrcode m) = tt
focus_component_cmd-IsFine g env (new_password m) = ground arith

init_component-IsFine :
    (g : Bool) (c : Component) (cmd : Cmd) → init_component c ≡ some cmd → IsFine g cmd
unfolding init_component init_qrcode
init_component-IsFine g (form m) cmd h = ground arith
init_component-IsFine g (qrcode m) cmd h = ground arith
init_component-IsFine g (new_password m) cmd h = ground arith

component_of-cases :
    (s : Component ⊎ String) → ((c : Component) × (s ≡ inl c)) ⊎ ((e : String) × (s ≡ inr e))
component_of-cases (inl c) = inl (c, refl)
component_of-cases (inr e) = inr (e, refl)

pub compose-IsFine :
    (g : Bool) (env : Env) (broker_id session_id : String) (key : Option String) (layout : UiLayout)
    (m m' : AuthenticationModel) (cmd : Cmd)
    → compose env broker_id session_id key layout m ≡ some (m', cmd)
    → IsFine g cmd
unfolding compose
compose-IsFine g env broker_id session_id key layout m m' cmd h =
    elim (component_of-cases (component_of env layout)) [
      | inr (e, p) ↦ ground arith
      | inl (c, p) ↦ elim (Option-cases (init_component c)) [
        | inl q ↦ ground arith
        | inr (init, q) ↦ ground (arith, init_component-IsFine g c init)
      ]
    ]

pub end_session_cmd-IsFine : (g : Bool) (s : Option SessionInfo) → IsFine g (end_session_cmd s)
unfolding end_session_cmd
end_session_cmd-IsFine g none = tt
end_session_cmd-IsFine g (some s) = tt

pub quit-IsFine : (g : Bool) (m : UiModel) → IsFine g (quit m)
unfolding quit
quit-IsFine g m = ground (arith, end_session_cmd-IsFine g m.current_session)

client_stage_cmd-IsFine : (g : Bool) (s : Stage) (m : UiModel) → IsFine g (client_stage_cmd s m)
unfolding change_gdm_stage
client_stage_cmd-IsFine g s m = ground arith

enter_stage-IsFine :
    (g : Bool) (env : Env) (s : Stage) (before : Cmd) (m : UiModel)
    → IsFine g before
    → IsFine g (enter_stage env s before m).1
unfolding enter_stage reset_authentication focus focus_user
enter_stage-IsFine g env user_selection before m h =
    ground (arith, end_session_cmd-IsFine g m.current_session)
enter_stage-IsFine g env broker_selection before m h =
    ground (arith, end_session_cmd-IsFine g m.current_session)
enter_stage-IsFine g env auth_mode_selection before m h = ground arith
enter_stage-IsFine g env challenge before m h =
    elim (Option-cases m.authentication_model.current_model) [
      | inl e ↦ ground arith
      | inr (c, e) ↦ ground (arith, focus_component_cmd-IsFine g env c)
    ]
enter_stage-IsFine g env (other_stage n) before m h = tt

pub to_stage-IsFine :
    (g : Bool) (env : Env) (s : Stage) (m : UiModel) → IsFine g (to_stage env s m).1
unfolding to_stage
to_stage-IsFine g env s m = ground (
  arith,
  enter_stage-IsFine g env s nil m tt,
  enter_stage-IsFine g env s (client_stage_cmd s m) (blur_stage (current_stage m) m)
      (client_stage_cmd-IsFine g s m),
)

enter_stage-exit_status :
    (env : Env) (s : Stage) (before : Cmd) (m : UiModel)
    → (enter_stage env s before m).0.exit_status ≡ m.exit_status
unfolding enter_stage
enter_stage-exit_status env user_selection before m = refl
enter_stage-exit_status env broker_selection before m = refl
enter_stage-exit_status env auth_mode_selection before m = refl
enter_stage-exit_status env challenge before m = refl
enter_stage-exit_status env (other_stage n) before m = refl

blur_stage-exit_status : (s : Stage) (m : UiModel) → (blur_stage s m).exit_status ≡ m.exit_status
unfolding blur_stage
blur_stage-exit_status user_selection m = refl
blur_stage-exit_status broker_selection m = refl
blur_stage-exit_status auth_mode_selection m = refl
blur_stage-exit_status challenge m = refl
blur_stage-exit_status (other_stage n) m = refl

pub to_stage-exit_status :
    (env : Env) (s : Stage) (m : UiModel) → (to_stage env s m).0.exit_status ≡ m.exit_status
unfolding to_stage
to_stage-exit_status env s m = ground (
  arith,
  enter_stage-exit_status env s nil m,
  blur_stage-exit_status (current_stage m) m,
  enter_stage-exit_status env s (client_stage_cmd s m) (blur_stage (current_stage m) m),
)

share_brokers-exit_status :
    (msg : Msg) (m : UiModel) → (share_brokers msg m).exit_status ≡ m.exit_status
unfolding share_brokers
share_brokers-exit_status (brokers_list_received []) m = refl
share_brokers-exit_status (brokers_list_received (b ∷ bs)) m = ground arith
share_brokers-exit_status msg m = refl

pub msg_filter-exit_status :
    (msg : Msg) (m : UiModel) → (msg_filter msg m).exit_status ≡ m.exit_status
unfolding msg_filter
msg_filter-exit_status msg m = ground arith

gdm_client-IsFine :
    (g : Bool) (o : Outside) (msg : Msg) (m m' : UiModel) (cmd : Cmd)
    → m.client_type ≡ gdm
    → update_client_model o msg m ≡ some (m', cmd)
    → IsFine g cmd × (m'.exit_status ≡ m.exit_status)
unfolding update_client_model
gdm_client-IsFine g o msg m m' cmd t h =
    elim (Option-cases (update_gdm o.env o.peer msg m.gdm_model)) [
      | inl e ↦ ground arith
      | inr (r, e) ↦ ground (arith, update_gdm-IsFine g o.env o.peer msg m.gdm_model r.0 r.1)
    ]

native_client-IsFine :
    (g : Bool) (o : Outside) (msg : Msg) (m m' : UiModel) (cmd : Cmd)
    → m.client_type ≡ native
    → update_client_model o msg m ≡ some (m', cmd)
    → IsFine g cmd × (m'.exit_status ≡ m.exit_status)
unfolding update_client_model
native_client-IsFine g o msg m m' cmd t h =
    elim (Option-cases (update_native o.env o.talk m.pam_user msg m.native_model)) [
      | inl e ↦ ground arith
      | inr (r, e) ↦ ground (
        arith,
        update_native-IsFine g o.talk o.env m.pam_user r.1 msg m.native_model r.0 r.2,
        share_brokers-exit_status msg (record m { native_model = r.0; pam_user = r.1 }),
      )
    ]

terminal_client-IsFine :
    (g : Bool) (o : Outside) (msg : Msg) (m m' : UiModel) (cmd : Cmd)
    → m.client_type ≡ interactive_terminal
    → update_client_model o msg m ≡ some (m', cmd)
    → IsFine g cmd × (m'.exit_status ≡ m.exit_status)
unfolding update_client_model
terminal_client-IsFine g o msg m m' cmd t h = ground arith

ClientType-cases : (t : ClientType) → (t ≡ gdm) ⊎ ((t ≡ native) ⊎ (t ≡ interactive_terminal))
ClientType-cases gdm = inl refl
ClientType-cases native = inr (inl refl)
ClientType-cases interactive_terminal = inr (inr refl)

pub update_client_model-IsFine :
    (g : Bool) (o : Outside) (msg : Msg) (m m' : UiModel) (cmd : Cmd)
    → update_client_model o msg m ≡ some (m', cmd)
    → IsFine g cmd × (m'.exit_status ≡ m.exit_status)
update_client_model-IsFine g o msg m m' cmd h = elim (ClientType-cases m.client_type) [
  | inl t ↦ gdm_client-IsFine g o msg m m' cmd t h
  | inr (inl t) ↦ native_client-IsFine g o msg m m' cmd t h
  | inr (inr t) ↦ terminal_client-IsFine g o msg m m' cmd t h
]
