-- ===== src/Adapter/Loop/Success.antt =====
-- The runs of the event loop of pam/internal/adapter, from Init on.
use authd.Prelude.{
  ◌≡◌, refl, String, Bool, true, false, none, some, [], ◌∷◌, arith, Option-cases, inl, inr,
}
use authd.Adapter.Messages.{pam_success, is_authenticated_result_received, Msg, Cmd, ClientType}
use authd.Adapter.Gdm.{Peer, GdmModel, init_gdm, proto_hello, poll_gdm, new_gdm_model}
use authd.Adapter.Model.{return_status, msg_filter, UiModel, ExitStatus, exit_success, Outside}
use authd.Adapter.Model.Init.{Startup, init, init_client, init_auth_mode, init_native, new_models}
use authd.Adapter.Loop.{
  Loop, external, sends, calls, returns_nil, drops_nil, splits_sequence, splits_batch, Reach, here,
  next, Handles,
}
use authd.Adapter.Loop.Fine.{IsFine, FineMsg}
use authd.Adapter.Loop.Clients.{poll_gdm-IsFine}
use authd.Adapter.Loop.Stages.{msg_filter-exit_status}
use authd.Adapter.Loop.Updates.{update-IsFine}
use authd.Adapter.Loop.Granted.{IsHonest, Reach-IsHonest}

proto_hello-IsFine : (g : Bool) (peer : Peer) → IsFine g (proto_hello peer)
unfolding proto_hello
proto_hello-IsFine g peer = ground arith

init_gdm-IsFine :
    (g : Bool) (peer : Peer) (m m' : GdmModel) (cmd : Cmd)
    → init_gdm peer m ≡ some (m', cmd)
    → IsFine g cmd
unfolding init_gdm
init_gdm-IsFine g peer m m' cmd h = elim (Option-cases (poll_gdm peer m)) [
  | inl e ↦ ground arith
  | inr (r, e) ↦ ground (arith, poll_gdm-IsFine g peer m r.0 r.1, proto_hello-IsFine g peer)
]

init_client-IsFine :
    (g : Bool) (start : Startup) (o : Outside) (m m' : UiModel) (cmd : Cmd)
    → init_client start o m ≡ some (m', cmd)
    → IsFine g cmd × (m'.exit_status ≡ m.exit_status)
unfolding init_client init_native
init_client-IsFine g start o m m' cmd h = elim (Option-cases (init_gdm o.peer new_gdm_model)) [
  | inl e ↦ ground arith
  | inr (r, e) ↦ ground (arith, init_gdm-IsFine g o.peer new_gdm_model r.0 r.1)
]

init_auth_mode-IsFine : (g : Bool) (t : ClientType) → IsFine g (init_auth_mode t)
unfolding init_auth_mode
init_auth_mode-IsFine g t = ground arith

init-IsFine :
    (g : Bool) (start : Startup) (o : Outside) (m m' : UiModel) (cmd : Cmd)
    → init start o m ≡ some (m', cmd)
    → IsFine g cmd × (m'.exit_status ≡ m.exit_status)
unfolding init new_models
init-IsFine g start o m m' cmd h = elim (Option-cases (init_client start o m)) [
  | inl e ↦ ground arith
  | inr (r, e) ↦
      ground (arith, init_client-IsFine g start o m r.0 r.1, init_auth_mode-IsFine g m.client_type)
]

-- the loop after Init
abbrev pub started : UiModel → Cmd → Loop
started m cmd = record { ui = m; pending = cmd ∷ []; granted = false }

FineMsg-true : (msg : Msg) → FineMsg true msg
FineMsg-true (pam_success broker_id text) = refl
FineMsg-true (is_authenticated_result_received access secret text) = λ e. refl
FineMsg-true msg = ground arith

Handles-exit_status :
    (s : Loop) (o : Outside) (msg : Msg) (m : UiModel) (cmd : Cmd) (status : ExitStatus)
    → Handles o msg s.ui m cmd
    → s.ui.exit_status ≡ some status
    → m.exit_status ≡ some status
Handles-exit_status s o msg m cmd status h e =
    let kept = (update-IsFine true o msg (msg_filter msg s.ui) m cmd (FineMsg-true msg) h).1 in
    ground (arith, kept, msg_filter-exit_status msg s.ui)

-- A run that has an exit status keeps it, whatever happens until the loop ends.
pub exit_status_stays :
    {s t : Loop} (status : ExitStatus)
    → Reach s t
    → s.ui.exit_status ≡ some status
    → t.ui.exit_status ≡ some status
exit_status_stays status here e = e
exit_status_stays status (next r (external s o msg m cmd x h)) e =
    Handles-exit_status s o msg m cmd status h (exit_status_stays status r e)
exit_status_stays status (next r (sends s o msg m cmd before after p h)) e =
    Handles-exit_status s o msg m cmd status h (exit_status_stays status r e)
exit_status_stays status (next r (calls s server c msg before after p h)) e =
    exit_status_stays status r e
exit_status_stays status (next r (returns_nil s server c before after p h)) e =
    exit_status_stays status r e
exit_status_stays status (next r (drops_nil s before after p)) e = exit_status_stays status r e
exit_status_stays status (next r (splits_sequence s x y before after p)) e =
    exit_status_stays status r e
exit_status_stays status (next r (splits_batch s x y before after p)) e =
    exit_status_stays status r e

return_status-some :
    (m : UiModel) (status : ExitStatus) → m.exit_status ≡ some status → return_status m ≡ status
unfolding return_status
return_status-some m status e = rw e refl

success-return_status :
    (m : UiModel) (broker_id text : String)
    → return_status m ≡ exit_success broker_id text
    → m.exit_status ≡ some (exit_success broker_id text)
unfolding return_status
success-return_status m broker_id text e = ground arith

-- In every run from Init on, whatever the keys, the answers of authd, of GDM and of PAM and the order in
-- which the commands run, where the model that the loop starts with has no exit status: the model returns a
-- success as its status only if authd answered "granted" to a request of this run, and whatever runs
-- then keeps that status.
pub success_needs_grant :
    (start : Startup) (o : Outside) (m m' : UiModel) (cmd : Cmd) (s t : Loop)
    (broker_id text : String)
    → m.exit_status ≡ none
    → init start o m ≡ some (m', cmd)
    → Reach (started m' cmd) s
    → return_status s.ui ≡ exit_success broker_id text
    → Reach s t
    → (s.granted ≡ true) × (return_status t.ui ≡ exit_success broker_id text)
success_needs_grant start o m m' cmd s t broker_id text fresh h r e later =
    let (fine, kept) = init-IsFine false start o m m' cmd h in
    let begun : IsHonest (started m' cmd) = record {
      fine = (fine, tt);
      exits = λ b t p. cc (p, kept, fresh);
    } in
    let status = success-return_status s.ui broker_id text e in
    (
      (Reach-IsHonest r begun).exits broker_id text status,
      return_status-some t.ui (exit_success broker_id text)
          (exit_status_stays (exit_success broker_id text) later status),
    )
