-- ===== src/Pam.antt =====
-- internal/services/pam/pam.go: the PAM service, over the user manager and the brokers' manager. What
-- the brokers' processes, the system and encoding/json answer during a call are inputs.
pub mod Layouts
pub mod Granted
pub mod Remembered
mod Examples
use authd.Prelude.{
  ℕ, ◌≡◌, String, Bool, true, false, not, Option, none, some, List, [], ◌∷◌, ◌==◌, string_eq,
  nat_eq, if◌then◌else◌, length,
}
use authd.Errors.{Result, ok, err, ◌>>=◌, ◌>>◌, fail_if, is_no_data, invalid_argument}
use authd.LocalEntries.Groups.{Op}
use authd.UserManager.Update as UserManager
use authd.UserManager.State.{Manager, System, Outcome, is_unknown, Lookup, found}
use authd.UserManager.Reads
use authd.Brokers.Broker
use authd.Brokers.Broker.{Json, Broker, local_broker_name}
use authd.Brokers.Manager as Brokers
use authd.Brokers.Manager.{BrokerManager, Processes, broker_from_session_id, put}
use authd.Brokers.Layouts.{Layout}
use authd.Brokers.Validators.{value_at}
use authd.Pam.Layouts.{UiLayout, ui_layout_to_map, map_to_ui_layout}

pub record Service : Type 0 where
  pub user_manager : Manager
  pub broker_manager : BrokerManager

-- authd.SessionMode
pub data SessionMode : Type 0 where
  undefined login change_password : SessionMode

abbrev pub no_answer : Result String
no_answer = ok ""

-- the last steps of GetPreviousBroker, with the broker's ID of the database or "local"
unfoldable pub previous_from : Service → String → String → Result String × Service
previous_from s username broker_id =
    let (stored, brokers) =
      Brokers.set_default_broker_for_user s.broker_manager broker_id username in
    if broker_id == ""
    then (no_answer, s)
    else if not (Brokers.broker_exists s.broker_manager broker_id)
    then (no_answer, s)
    else if broker_id == local_broker_name
    then (ok broker_id, s)
    else elim stored [
      | err _ ↦ (no_answer, s)
      | ok _ ↦ (ok broker_id, record s { broker_manager = brokers })
    ]

-- `lookup` is what `user.Lookup` gives; any error counts as not found.
unfoldable pub get_previous_broker : Service → Lookup → String → Result String × Service
get_previous_broker s lookup username = elim (Brokers.broker_for_user s.broker_manager username) [
  | some b ↦ (ok b.id, s)
  | none ↦ elim (Reads.broker_for_user s.user_manager username) [
    | ok broker_id ↦ previous_from s username broker_id
    | err e ↦
        if not (is_no_data e)
        then (no_answer, s)
        else if length (Brokers.available_brokers s.broker_manager) == 1
        then (ok local_broker_name, s)
        else elim lookup [ found ↦ previous_from s username local_broker_name | _ ↦ (no_answer, s) ]
  ]
]

abbrev pub mode_name : SessionMode → Result String
mode_name login = ok "auth"
mode_name change_password = ok "passwd"
mode_name undefined = err invalid_argument

unfoldable pub select_broker :
    Service
    → Processes
    → String
    → String
    → String
    → SessionMode
    → Result (String × String) × Service
select_broker s p username broker_id lang mode =
    let language = if lang == "" then "C" else lang in
    elim (fail_if (username == "") invalid_argument
      >> (fail_if (broker_id == "") invalid_argument >> mode_name mode)) [
        | err e ↦ (err e, s)
        | ok name ↦
            let (answer, brokers) =
              Brokers.new_session s.broker_manager p broker_id username language name in
            (answer, record s { broker_manager = brokers })
      ]

unfoldable pub layouts_to_maps : List UiLayout → Result (List Layout)
layouts_to_maps [] = ok []
layouts_to_maps (l ∷ ls) = do m ← ui_layout_to_map l; ms ← layouts_to_maps ls; ok (m ∷ ms)

-- the ID and the label of each mode
abbrev pub mode_infos : List Layout → List (String × String)
mode_infos [] = []
mode_infos (m ∷ ms) = (value_at "id" m, value_at "label" m) ∷ mode_infos ms

-- the checks that come first, and the broker of the session
unfoldable pub session_broker : Service → String → Result Broker
session_broker s session_id = do
  fail_if (session_id == "") invalid_argument
  broker_from_session_id s.broker_manager session_id

unfoldable pub get_authentication_modes :
    Service → Processes → String → List UiLayout → Result (List (String × String)) × Service
get_authentication_modes s p session_id supported = elim (session_broker s session_id) [
  | err e ↦ (err e, s)
  | ok b ↦ elim (layouts_to_maps supported) [
    | err e ↦ (err e, s)
    | ok layouts ↦
        let (modes, b') = Broker.get_authentication_modes b (p b.id) session_id layouts in
        (do ms ← modes; ok (mode_infos ms), record s { broker_manager = put s.broker_manager b' })
  ]
]

unfoldable pub select_authentication_mode : Service → Processes → String → String → Result UiLayout
select_authentication_mode s p session_id mode_id = do
  fail_if (session_id == "") invalid_argument
  fail_if (mode_id == "") invalid_argument
  b ← broker_from_session_id s.broker_manager session_id
  layout ← Broker.select_authentication_mode b (p b.id) session_id mode_id
  ok (map_to_ui_layout layout)

-- What IsAuthenticated returns, the service after it, and the calls of gpasswd.
pub record Authenticated : Type 0 where
  pub response : Result (String × String)
  pub service : Service
  pub calls : List Op

abbrev pub refused : Service → Result (String × String) → Authenticated
refused s response = record { response = response; service = s; calls = [] }

-- with the user info of a granted access
unfoldable pub update_granted : Service → System → Json → String → Option Authenticated
update_granted s sys json answer = elim (json.user_info answer) [
  | err e ↦ some (refused s (err e))
  | ok info ↦ elim (UserManager.update_user s.user_manager sys info) [
    | none ↦ none
    | some o ↦ some (record {
      response = o.result >> ok ("granted", "");
      service = record s { user_manager = o.manager };
      calls = o.calls;
    })
  ]
]

-- the broker's answer, with `authentication_data` what protojson gives
unfoldable pub broker_answer :
    Service → Processes → Json → Bool → String → Result String → Result (String × String)
broker_answer s p json cancelled session_id authentication_data = do
  b ← session_broker s session_id
  sent ← authentication_data
  Broker.is_authenticated json b (p b.id) cancelled session_id sent

unfoldable pub is_authenticated :
    Service → Processes → System → Json → Bool → String → Result String → Option Authenticated
is_authenticated s p sys json cancelled session_id authentication_data =
    elim (broker_answer s p json cancelled session_id authentication_data) [
      | err e ↦ some (refused s (err e))
      | ok (access, answer) ↦
          if not (access == "granted")
          then some (refused s (ok (access, answer)))
          else update_granted s sys json answer
    ]

unfoldable pub set_default_broker_for_user : Service → String → String → Result (Unit {0}) × Service
set_default_broker_for_user s broker_id username =
    elim (fail_if (username == "") invalid_argument
      >> fail_if (broker_id == local_broker_name) invalid_argument) [
        | err e ↦ (err e, s)
        | ok _ ↦
            let (set, brokers) =
              Brokers.set_default_broker_for_user s.broker_manager broker_id username in
            elim set [
              | err e ↦ (err e, s)
              | ok _ ↦
                  let (stored, users) =
                    UserManager.update_broker s.user_manager username broker_id in
                  (stored, record { user_manager = users; broker_manager = brokers })
            ]
      ]

unfoldable pub end_session : Service → Processes → String → Result (Unit {0}) × Service
end_session s p session_id =
    if session_id == ""
    then (err invalid_argument, s)
    else let (answer, brokers) = Brokers.end_session s.broker_manager p session_id in
      (answer, record s { broker_manager = brokers })
