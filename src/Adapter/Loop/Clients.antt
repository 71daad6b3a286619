-- ===== src/Adapter/Loop/Clients.antt =====
-- The clients of GDM and of plain PAM conversations: the lemmas about what their commands send.
use authd.Prelude.{◌≡◌, String, Bool, none, some, List, [], ◌∷◌, arith, Option-cases, inl, inr}
use authd.Adapter.Messages.{
  Msg, Cmd, send, sequence, gdm_poll_done, gdm_is_authenticated_result_received,
  is_authenticated_cancelled, ui_layout_received, start_authentication, GdmEvent,
  emit_ui_layout_received, emit_start_authentication, emit_auth_event,
}
use authd.Adapter.Widgets.{Env}
use authd.Adapter.Gdm.{
  Polled-cases, Peer, GdmModel, PollEvent, Polled, appended, replaced, crashed, poll_event,
  poll_events, poll_gdm, handle_gdm, update_gdm, forward_result, emit_event_sync,
  poll_user_selected, poll_broker_selected, poll_auth_mode_selected,
  poll_is_authenticated_requested, poll_reselect_auth_mode, poll_is_authenticated_cancelled,
  poll_stage_changed, poll_other,
}
use authd.Adapter.Loop.Fine.{IsFine}

abbrev PolledIsFine : Bool → Polled → Type 0
PolledIsFine g (appended cmd) = IsFine g cmd
PolledIsFine g (replaced cmd) = IsFine g cmd
PolledIsFine g crashed = Unit

poll_event-IsFine : (g : Bool) (e : PollEvent) (m : GdmModel) → PolledIsFine g (poll_event e m).1
unfolding poll_event
poll_event-IsFine g (poll_user_selected none) m = tt
poll_event-IsFine g (poll_user_selected (some id)) m = tt
poll_event-IsFine g (poll_broker_selected none) m = tt
poll_event-IsFine g (poll_broker_selected (some id)) m = tt
poll_event-IsFine g (poll_auth_mode_selected none) m = tt
poll_event-IsFine g (poll_auth_mode_selected (some id)) m = tt
poll_event-IsFine g (poll_is_authenticated_requested item) m = ground arith
poll_event-IsFine g poll_reselect_auth_mode m = tt
poll_event-IsFine g poll_is_authenticated_cancelled m = tt
poll_event-IsFine g (poll_stage_changed none) m = tt
poll_event-IsFine g (poll_stage_changed (some stage)) m = ground arith
poll_event-IsFine g poll_other m = tt

poll_events-IsFine :
    (g : Bool) (es : List PollEvent) (commands : Cmd) (m m' : GdmModel) (cmd : Cmd)
    → IsFine g commands
    → poll_events es commands m ≡ some (m', cmd)
    → IsFine g cmd
unfolding poll_events
poll_events-IsFine g [] commands m m' cmd f h = ground arith
poll_events-IsFine g (e ∷ es) commands m m' cmd f h = elim (Polled-cases (poll_event e m).1) [
  | inl p ↦ ground arith
  | inr (inl (c, p)) ↦ ground (
    arith,
    poll_event-IsFine g e m,
    poll_events-IsFine g es (sequence commands c) (poll_event e m).0 m' cmd,
  )
  | inr (inr (c, p)) ↦ ground (arith, poll_event-IsFine g e m)
]

pub poll_gdm-IsFine :
    (g : Bool) (peer : Peer) (m m' : GdmModel) (cmd : Cmd)
    → poll_gdm peer m ≡ some (m', cmd)
    → IsFine g cmd
unfolding poll_gdm
poll_gdm-IsFine g peer m m' cmd h = elim (Option-cases peer.polled) [
  | inl e ↦ ground arith
  | inr (results, e) ↦ ground (arith, poll_events-IsFine g results (send gdm_poll_done) m m' cmd tt)
]

emit_event_sync-IsFine : (g : Bool) (peer : Peer) (e : GdmEvent) → IsFine g (emit_event_sync peer e)
unfolding emit_event_sync
emit_event_sync-IsFine g peer e = ground arith

forward_result-IsFine :
    (g : Bool) (env : Env) (peer : Peer) (access msg : String)
    → IsFine g (forward_result env peer access msg)
unfolding forward_result emit_event_sync
forward_result-IsFine g env peer access msg = ground arith

handle_gdm-IsFine :
    (g : Bool) (env : Env) (peer : Peer) (msg : Msg) (m m' : GdmModel) (cmd : Cmd)
    → handle_gdm env peer msg m ≡ some (m', cmd)
    → IsFine g cmd
unfolding handle_gdm
handle_gdm-IsFine g env peer gdm_poll_done m m' cmd h = elim (Option-cases (poll_gdm peer m)) [
  | inl e ↦ ground arith
  | inr (r, e) ↦ ground (arith, poll_gdm-IsFine g peer m r.0 r.1)
]
handle_gdm-IsFine g env peer (ui_layout_received layout) m m' cmd h =
    ground (arith, emit_event_sync-IsFine g peer (emit_ui_layout_received layout))
handle_gdm-IsFine g env peer start_authentication m m' cmd h =
    ground (arith, emit_event_sync-IsFine g peer emit_start_authentication)
handle_gdm-IsFine g env peer (gdm_is_authenticated_result_received access secret msg) m m' cmd h =
    ground (arith, forward_result-IsFine g env peer access msg)
handle_gdm-IsFine g env peer (is_authenticated_cancelled msg) m m' cmd h =
    ground (arith, emit_event_sync-IsFine g peer (emit_auth_event "cancelled" msg))
handle_gdm-IsFine g env peer msg m m' cmd h = ground arith

pub update_gdm-IsFine :
    (g : Bool) (env : Env) (peer : Peer) (msg : Msg) (m m' : GdmModel) (cmd : Cmd)
    → update_gdm env peer msg m ≡ some (m', cmd)
    → IsFine g cmd
unfolding update_gdm
update_gdm-IsFine g env peer msg m m' cmd h =
    ground (arith, handle_gdm-IsFine g env peer msg m m' cmd)
