-- ===== src/Adapter/Gdm/Requests.antt =====
-- gdmModel: the authentication requests that come from GDM, against the authentications it was told to
-- start.
use authd.Prelude.{
  length-append, ℕ, ◌+◌, ◌≤◌, ◌≡◌, String, none, some, Option-cases, List, [], ◌∷◌, length, arith,
  inl, inr, if◌then◌else◌,
}
use authd.Adapter.Messages.{
  Msg, Cmd, sequence, send, requests, gdm_poll_done, start_authentication, ui_layout_received,
  reselect_auth_mode, gdm_is_authenticated_result_received, is_authenticated_cancelled, GdmEvent,
  emit_start_authentication, emit_ui_layout_received, emit_auth_event,
}
use authd.Adapter.Widgets.{Env}
use authd.Adapter.Gdm.{
  Polled-cases, Peer, GdmModel, new_gdm_model, PollEvent, Polled, appended, replaced, crashed,
  poll_event, poll_events, poll_gdm, handle_gdm, update_gdm, forward_result, emit_event_sync,
  poll_user_selected, poll_broker_selected, poll_auth_mode_selected,
  poll_is_authenticated_requested, poll_reselect_auth_mode, poll_is_authenticated_cancelled,
  poll_stage_changed, poll_other,
}

-- 1 while an authentication that was started waits for its request
abbrev pub waiting : GdmModel → ℕ
waiting m = if m.waiting_auth then 1 else 0

abbrev polled_requests : Polled → ℕ
polled_requests (appended cmd) = length (requests cmd)
polled_requests (replaced cmd) = length (requests cmd)
polled_requests crashed = 0

-- one result of the poll
poll_event-le-waiting :
    (e : PollEvent) (m : GdmModel)
    → polled_requests (poll_event e m).1 + waiting (poll_event e m).0 ≤ waiting m
unfolding poll_event
poll_event-le-waiting (poll_user_selected none) m = ground arith
poll_event-le-waiting (poll_user_selected (some id)) m = ground arith
poll_event-le-waiting (poll_broker_selected none) m = ground arith
poll_event-le-waiting (poll_broker_selected (some id)) m = ground arith
poll_event-le-waiting (poll_auth_mode_selected none) m = ground arith
poll_event-le-waiting (poll_auth_mode_selected (some id)) m = ground arith
poll_event-le-waiting (poll_is_authenticated_requested item) m = ground arith
poll_event-le-waiting poll_reselect_auth_mode m = ground arith
poll_event-le-waiting poll_is_authenticated_cancelled m = ground arith
poll_event-le-waiting (poll_stage_changed none) m = ground arith
poll_event-le-waiting (poll_stage_changed (some stage)) m = ground arith
poll_event-le-waiting poll_other m = ground arith

poll_events-le-waiting :
    (es : List PollEvent) (commands : Cmd) (m m' : GdmModel) (cmd : Cmd)
    → poll_events es commands m ≡ some (m', cmd)
    → length (requests cmd) + waiting m' ≤ length (requests commands) + waiting m
unfolding poll_events
poll_events-le-waiting [] commands m m' cmd h = ground arith
poll_events-le-waiting (e ∷ es) commands m m' cmd h = elim (Polled-cases (poll_event e m).1) [
  | inl p ↦ ground arith
  | inr (inl (c, p)) ↦ ground (
    arith,
    poll_event-le-waiting e m,
    length-append (requests commands) (requests c),
    poll_events-le-waiting es (sequence commands c) (poll_event e m).0 m' cmd,
  )
  | inr (inr (c, p)) ↦ ground (arith, poll_event-le-waiting e m)
]

poll_gdm-le-waiting :
    (peer : Peer) (m m' : GdmModel) (cmd : Cmd)
    → poll_gdm peer m ≡ some (m', cmd)
    → length (requests cmd) + waiting m' ≤ waiting m
unfolding poll_gdm
poll_gdm-le-waiting peer m m' cmd h = elim (Option-cases peer.polled) [
  | inl e ↦ ground arith
  | inr (results, e) ↦ ground (arith, poll_events-le-waiting results (send gdm_poll_done) m m' cmd)
]

emit_event_sync-requests : (peer : Peer) (e : GdmEvent) → requests (emit_event_sync peer e) ≡ []
unfolding emit_event_sync
emit_event_sync-requests peer e = ground arith

forward_result-requests :
    (env : Env) (peer : Peer) (access msg : String)
    → requests (forward_result env peer access msg) ≡ []
unfolding forward_result emit_event_sync
forward_result-requests env peer access msg = ground arith

-- 1 for the message that starts an authentication
abbrev pub starts : Msg → ℕ
starts start_authentication = 1
starts _ = 0

handle_gdm-le-waiting :
    (env : Env) (peer : Peer) (msg : Msg) (m m' : GdmModel) (cmd : Cmd)
    → handle_gdm env peer msg m ≡ some (m', cmd)
    → length (requests cmd) + waiting m' ≤ waiting m + starts msg
unfolding handle_gdm
handle_gdm-le-waiting env peer gdm_poll_done m m' cmd h = elim (Option-cases (poll_gdm peer m)) [
  | inl e ↦ ground arith
  | inr (r, e) ↦ ground (arith, poll_gdm-le-waiting peer m r.0 r.1)
]
handle_gdm-le-waiting env peer (ui_layout_received layout) m m' cmd h =
    ground (arith, emit_event_sync-requests peer (emit_ui_layout_received layout))
handle_gdm-le-waiting env peer start_authentication m m' cmd h =
    ground (arith, emit_event_sync-requests peer emit_start_authentication)
handle_gdm-le-waiting env peer reselect_auth_mode m m' cmd h = ground arith
handle_gdm-le-waiting env peer (gdm_is_authenticated_result_received access secret msg) m m' cmd h =
    ground (arith, forward_result-requests env peer access msg)
handle_gdm-le-waiting env peer (is_authenticated_cancelled msg) m m' cmd h =
    ground (arith, emit_event_sync-requests peer (emit_auth_event "cancelled" msg))
handle_gdm-le-waiting env peer msg m m' cmd h = ground arith

-- A run of the GDM client: how often an authentication was started, and how many requests it sent.
pub data Session : GdmModel → ℕ → ℕ → Type 0 where
  fresh : Session new_gdm_model 0 0
  after :
      {m m' : GdmModel} {started sent : ℕ}
      → Session m started sent
      → (env : Env) (peer : Peer) (msg : Msg) (cmd : Cmd) (started' sent' : ℕ)
      → update_gdm env peer msg m ≡ some (m', cmd)
      → started' ≡ started + starts msg
      → sent' ≡ sent + length (requests cmd)
      → Session m' started' sent'

-- Whatever GDM sends and however often it is polled, the authentication requests that it gets through
-- are at most as many as the authentications that were started, and one less while one waits.
pub requests-le-started :
    {m : GdmModel} {started sent : ℕ} → Session m started sent → sent + waiting m ≤ started
unfolding update_gdm
requests-le-started fresh = omega arith
requests-le-started (after {m} {m'} s env peer msg cmd started' sent' h e e') =
    ground (arith, requests-le-started s, handle_gdm-le-waiting env peer msg m m' cmd)
