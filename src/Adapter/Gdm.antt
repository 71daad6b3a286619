-- ===== src/Adapter/Gdm.antt =====
-- pam/internal/adapter/gdmmodel.go: the client that talks to GDM. What GDM answers during one update is
-- `Peer`.
pub mod Requests
use Prim.Native.String as Str
use authd.Prelude.{
  ◌≡◌, refl, ◌⊎◌, inl, inr, String, Bool, true, false, not, ◌&&◌, Option, none, some, List, [], ◌∷◌,
  ◌==◌, string_eq, nat_eq, if◌then◌else◌, contains,
}
use authd.Brokers.Broker.{replies}
use authd.Adapter.Messages.{
  Stage, challenge, same_stage, err_system, err_auth, err_cred_unavail, Item, Msg, Cmd, nil, send,
  call, sequence, pam_error, auth_mode_selected_event, ui_layout_received, change_stage,
  user_selected, brokers_list_received, broker_selected, auth_modes_received, auth_mode_selected,
  is_authenticated_requested, is_authenticated_result_received, is_authenticated_cancelled,
  reselect_auth_mode, start_authentication, gdm_poll_done, gdm_is_authenticated_result_received,
  GdmEvent, emit_user_selected, emit_broker_selected, emit_auth_mode_selected,
  emit_brokers_received, emit_auth_modes_received, emit_ui_layout_received,
  emit_start_authentication, emit_auth_event, emit_event, request_change_stage, wait_poll_frequency,
  request_ui_capabilities,
}
use authd.Adapter.Widgets.{Env, Run}
use authd.Adapter.Authentication.{data_to_msg, message, bad_data}

-- What a poll finds; `none` is a missing payload.
pub data PollEvent : Type 0 where
  poll_user_selected poll_broker_selected poll_auth_mode_selected : Option String → PollEvent
  poll_is_authenticated_requested : Option Item → PollEvent
  poll_reselect_auth_mode poll_is_authenticated_cancelled : PollEvent
  poll_stage_changed : Option Stage → PollEvent
  poll_other : PollEvent

-- The results of SendPoll, `none` for its error; whether EmitEvent fails; and whether the reply to the
-- hello has the type and the version of the protocol, `none` for an error of SendData.
pub record Peer : Type 0 where
  pub polled : Option (List PollEvent)
  pub emit_fails : GdmEvent → Bool
  pub hello_matches : Option Bool

pub record GdmModel : Type 0 where
  pub waiting_auth : Bool
  pub conversations_stopped : Bool

abbrev pub new_gdm_model : GdmModel
new_gdm_model = record { waiting_auth = false; conversations_stopped = false }

abbrev missing : String → Cmd
missing text = send (pam_error err_system text)

-- A command to append, a panic at a nil payload that is read, or the command that replaces all others.
pub data Polled : Type 0 where
  appended : Cmd → Polled
  replaced : Cmd → Polled
  crashed : Polled

pub Polled-cases :
    (p : Polled) → (p ≡ crashed) ⊎ (((c : Cmd) × (p ≡ appended c)) ⊎ ((c : Cmd) × (p ≡ replaced c)))
Polled-cases crashed = inl refl
Polled-cases (appended c) = inr (inl (c, refl))
Polled-cases (replaced c) = inr (inr (c, refl))

-- one round of the loop over the results
unfoldable pub poll_event : PollEvent → GdmModel → GdmModel × Polled
poll_event (poll_user_selected none) m = (m, crashed)
poll_event (poll_user_selected (some id)) m = (m, appended (send (user_selected id)))
poll_event (poll_broker_selected none) m = (m, replaced (missing "missing broker selected"))
poll_event (poll_broker_selected (some id)) m = (m, appended (send (broker_selected id)))
poll_event (poll_auth_mode_selected none) m = (m, replaced (missing "missing auth mode id"))
poll_event (poll_auth_mode_selected (some id)) m = (m, appended (send (auth_mode_selected id)))
poll_event (poll_is_authenticated_requested item) m =
    if not m.waiting_auth then (m, appended nil) else (
      record m { waiting_auth = false },
      elim item [
        | none ↦ replaced (missing "missing auth requested")
        | some i ↦ appended (send (is_authenticated_requested i))
      ],
    )
poll_event poll_reselect_auth_mode m = (m, appended (send reselect_auth_mode))
poll_event poll_is_authenticated_cancelled m = (m, appended (send (is_authenticated_cancelled "")))
poll_event (poll_stage_changed none) m = (m, replaced (missing "missing stage changed"))
poll_event (poll_stage_changed (some stage)) m = (
  m,
  appended (
      if m.waiting_auth && not (same_stage stage challenge)
      then sequence (send (is_authenticated_cancelled "")) (send (change_stage stage))
      else send (change_stage stage)),
)
poll_event poll_other m = (m, appended nil)

-- the loop, with the commands so far
unfoldable pub poll_events : List PollEvent → Cmd → GdmModel → Run (GdmModel × Cmd)
poll_events [] commands m = some (m, commands)
poll_events (e ∷ es) commands m =
    let (m', polled) = poll_event e m in
    elim polled [
      | crashed ↦ none
      | replaced cmd ↦ some (m', cmd)
      | appended cmd ↦ poll_events es (sequence commands cmd) m'
    ]

unfoldable pub poll_gdm : Peer → GdmModel → Run (GdmModel × Cmd)
poll_gdm peer m = elim peer.polled [
  | none ↦ some (m, send (pam_error err_system "Sending GDM poll failed"))
  | some results ↦ poll_events results (send gdm_poll_done) m
]

unfoldable pub proto_hello : Peer → Cmd
proto_hello peer = elim peer.hello_matches [
  | none ↦ send (pam_error err_cred_unavail "GDM initialization failed")
  | some true ↦ nil
  | some false ↦ send (pam_error err_cred_unavail "GDM protocol initialization failed")
]

unfoldable pub init_gdm : Peer → GdmModel → Run (GdmModel × Cmd)
init_gdm peer m = elim (poll_gdm peer m) [
  | none ↦ none
  | some (m', cmd) ↦
      some (m', sequence (proto_hello peer) (sequence (call request_ui_capabilities) cmd))
]

-- sendEvent of what emitEventSync returns
unfoldable pub emit_event_sync : Peer → GdmEvent → Cmd
emit_event_sync peer event =
    if peer.emit_fails event then send (pam_error err_system "Sending GDM event failed") else nil

-- an access that is not one of the replies; an error of json.Marshal leaves the text empty
abbrev invalid_access : Option String → Cmd
invalid_access json =
    let text : String = elim json [ none ↦ "" | some j ↦ j ] in
    sequence
      (send (
        gdm_is_authenticated_result_received "denied" none
          (Str.◌++◌ "{\"message\": " (Str.◌++◌ text "}"))))
      (send (pam_error err_auth "Access is not valid"))

-- gdmIsAuthenticatedResultReceived
unfoldable pub forward_result : Env → Peer → String → String → Cmd
forward_result env peer access msg = elim (data_to_msg env msg) [
  | bad_data e ↦ send (pam_error err_system e)
  | message text ↦
      if access == "cancelled"
      then send (is_authenticated_cancelled "")
      else if contains replies access
      then emit_event_sync peer (emit_auth_event access text)
      else invalid_access (env.json_text "Access is not valid")
]

-- the switch of Update, where the conversations are not stopped
unfoldable pub handle_gdm : Env → Peer → Msg → GdmModel → Run (GdmModel × Cmd)
handle_gdm env peer gdm_poll_done m = elim (poll_gdm peer m) [
  | none ↦ none
  | some (m', cmd) ↦ some (m', sequence (call wait_poll_frequency) cmd)
]
handle_gdm env peer (user_selected name) m = some (m, call (emit_event (emit_user_selected name)))
handle_gdm env peer (brokers_list_received bs) m =
    some (m, call (emit_event (emit_brokers_received bs)))
handle_gdm env peer (broker_selected id) m = some (m, call (emit_event (emit_broker_selected id)))
handle_gdm env peer (auth_modes_received modes) m =
    some (m, call (emit_event (emit_auth_modes_received modes)))
handle_gdm env peer (auth_mode_selected_event id) m =
    some (m, call (emit_event (emit_auth_mode_selected id)))
handle_gdm env peer (ui_layout_received layout) m =
    some (m, emit_event_sync peer (emit_ui_layout_received layout))
handle_gdm env peer start_authentication m =
    if m.waiting_auth
    then some (m, nil)
    else some (record m { waiting_auth = true }, emit_event_sync peer emit_start_authentication)
handle_gdm env peer reselect_auth_mode m = some (record m { waiting_auth = false }, nil)
handle_gdm env peer (is_authenticated_result_received access secret msg) m =
    some (m, send (gdm_is_authenticated_result_received access secret msg))
handle_gdm env peer (gdm_is_authenticated_result_received access secret msg) m =
    some (m, forward_result env peer access msg)
handle_gdm env peer (is_authenticated_cancelled msg) m =
    some (record m { waiting_auth = false }, emit_event_sync peer (emit_auth_event "cancelled" msg))
handle_gdm env peer _ m = some (m, nil)

unfoldable pub update_gdm : Env → Peer → Msg → GdmModel → Run (GdmModel × Cmd)
update_gdm env peer msg m =
    if m.conversations_stopped then some (m, nil) else handle_gdm env peer msg m

unfoldable pub change_gdm_stage : Stage → GdmModel → Cmd
change_gdm_stage stage m =
    if m.conversations_stopped then nil else call (request_change_stage stage)

unfoldable pub stop_conversations : GdmModel → GdmModel
stop_conversations m = record m { conversations_stopped = true }
