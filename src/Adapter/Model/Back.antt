-- ===== src/Adapter/Model/Back.antt =====
-- UIModel.changeStage: going back to the choice of the user or of the broker.
use authd.Prelude.{
  ◌≡◌, refl, String, Bool, true, false, some, [], ◌∷◌, any, any-append, arith, ◌==◌, string_eq, inl,
  inr, ◌⊎◌, nat_eq, ==_refl,
}
use authd.Adapter.Messages.{
  Stage, user_selection, broker_selection, auth_mode_selection, challenge, other_stage, same_stage,
  Cmd, nil, Call, end_session, closures,
}
use authd.Adapter.Widgets.{Env}
use authd.Adapter.UserSelection.{focus_user, blur_user}
use authd.Adapter.Model.{
  SessionInfo, UiModel, current_stage, blur_stage, enter_stage, to_stage, end_session_cmd,
  client_stage_cmd,
}

abbrev pub ends_session : String → Call → Bool
ends_session id (end_session id') = id' == id
ends_session id _ = false

-- what the command does to a session that is there
abbrev Ends : UiModel → Cmd → Type 0
Ends m cmd =
    (s : SessionInfo)
    → m.current_session ≡ some s
    → any (ends_session s.session_id) (closures cmd) ≡ true

enter_user :
    (env : Env) (before : Cmd) (m : UiModel) → Ends m (enter_stage env user_selection before m).1
unfolding enter_stage end_session_cmd
enter_user env before m s e = ground (
  arith,
  any-append (ends_session s.session_id) (closures before)
      (end_session s.session_id ∷ closures (focus_user env m.user_selection_model).1),
  ==_refl s.session_id,
)

enter_broker :
    (env : Env) (before : Cmd) (m : UiModel) → Ends m (enter_stage env broker_selection before m).1
unfolding enter_stage end_session_cmd
enter_broker env before m s e = ground (
  arith,
  any-append (ends_session s.session_id) (closures before) (end_session s.session_id ∷ []),
  ==_refl s.session_id,
)

blur_stage-current_session :
    (s : Stage) (m : UiModel) → (blur_stage s m).current_session ≡ m.current_session
unfolding blur_stage
blur_stage-current_session user_selection m = refl
blur_stage-current_session broker_selection m = refl
blur_stage-current_session auth_mode_selection m = refl
blur_stage-current_session challenge m = refl
blur_stage-current_session (other_stage n) m = refl

-- leaving the stage of the user takes its focus away
blurred_user :
    (m : UiModel) → (blur_stage (current_stage m) m).user_selection_model.input.focused ≡ false
unfolding blur_stage current_stage blur_user
blurred_user m = ground arith

user_current :
    (env : Env) (before : Cmd) (m : UiModel)
    → current_stage (enter_stage env user_selection before m).0 ≡ user_selection
unfolding enter_stage current_stage focus_user
user_current env before m = refl

broker_current :
    (env : Env) (before : Cmd) (m : UiModel)
    → m.user_selection_model.input.focused ≡ false
    → current_stage (enter_stage env broker_selection before m).0 ≡ broker_selection
unfolding enter_stage current_stage
broker_current env before m h = ground arith

broker_stage_unfocused :
    (m : UiModel)
    → same_stage (current_stage m) broker_selection ≡ true
    → m.user_selection_model.input.focused ≡ false
unfolding current_stage
broker_stage_unfocused m h = ground arith

-- what the stage before leaves to the next
abbrev left : UiModel → UiModel
left m = blur_stage (current_stage m) m

to_user :
    (env : Env) (m : UiModel)
    → (current_stage (to_stage env user_selection m).0 ≡ user_selection)
      × Ends m (to_stage env user_selection m).1
unfolding to_stage
to_user env m = (
  ground (
    arith,
    user_current env nil m,
    user_current env (client_stage_cmd user_selection m) (left m),
  ),
  λ s e. ground (
    arith,
    enter_user env nil m s,
    enter_user env (client_stage_cmd user_selection m) (left m) s,
    blur_stage-current_session (current_stage m) m,
  ),
)

to_broker :
    (env : Env) (m : UiModel)
    → (current_stage (to_stage env broker_selection m).0 ≡ broker_selection)
      × Ends m (to_stage env broker_selection m).1
unfolding to_stage
to_broker env m = (
  ground (
    arith,
    broker_stage_unfocused m,
    broker_current env nil m,
    broker_current env (client_stage_cmd broker_selection m) (left m),
    blurred_user m,
  ),
  λ s e. ground (
    arith,
    enter_broker env nil m s,
    enter_broker env (client_stage_cmd broker_selection m) (left m) s,
    blur_stage-current_session (current_stage m) m,
  ),
)

-- From any stage, with any models in focus, where there is a session: a change to the stage of the user or
-- to that of the broker makes it the current stage, and its command asks authd to end the session.
pub going_back_ends_session :
    (env : Env) (s : Stage) (m : UiModel) (info : SessionInfo)
    → m.current_session ≡ some info
    → (s ≡ user_selection) ⊎ (s ≡ broker_selection)
    → (current_stage (to_stage env s m).0 ≡ s)
      × (any (ends_session info.session_id) (closures (to_stage env s m).1) ≡ true)
going_back_ends_session env s m info h (inl e) =
    let (there, ends) = to_user env m in rw e (there, ends info h)
going_back_ends_session env s m info h (inr e) =
    let (there, ends) = to_broker env m in rw e (there, ends info h)
