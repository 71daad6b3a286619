-- ===== src/Adapter/BrokerSelection.antt =====
-- pam/internal/adapter/brokerselection.go, and the keys and the selection that its list shares with that
-- of authmodeselection.go.
use authd.Prelude.{
  ℕ, ◌+◌, ◌-◌, suc, zero, String, Bool, false, not, ◌||◌, Option, none, some, List, [], ◌∷◌, ◌==◌,
  string_eq, nat_eq, if◌then◌else◌, length, ltb, map,
}
use authd.Adapter.Messages.{
  ClientType, Choice, Msg, Cmd, nil, send, call, batch, key, pam_error, broker_list_received,
  broker_selection, err_authinfo_unavail, broker_selected_event, change_stage,
  brokers_list_received, broker_selected, broker_selection_required, supported_ui_layouts_set,
  get_available_brokers,
}
use authd.Adapter.Widgets.{Env, Run, ListModel, empty_list, widget_cmd}
use authd.Adapter.Authentication.{is_interactive}

-- "1" to "9"
unfoldable pub digit : String → Option ℕ
digit name =
    if name == "1"
    then some 1
    else if name == "2"
    then some 2
    else if name == "3"
    then some 3
    else if name == "4"
    then some 4
    else if name == "5"
    then some 5
    else if name == "6"
    then some 6
    else if name == "7"
    then some 7
    else if name == "8"
    then some 8
    else if name == "9"
    then some 9
    else none

abbrev item_at : ℕ → List Choice → Option Choice
item_at i [] = none
item_at zero (c ∷ cs) = some c
item_at (suc i) (c ∷ cs) = item_at i cs

-- What the keys of a list do: nothing, a choice, or what the widget does.
pub data KeyAction : Type 0 where
  ignored passed_on : KeyAction
  chosen : String → KeyAction

abbrev choose : Option Choice → KeyAction
choose none = ignored
choose (some c) = chosen c.id

-- the key presses of both lists
unfoldable pub key_action : Env → Msg → ListModel → KeyAction
key_action env (key name) l =
    if name == "enter" then choose (env.selected_item l) else elim (digit name) [
      | none ↦ passed_on
      | some n ↦ if ltb (length l.items) n then ignored else choose (item_at (n - 1) l.items)
    ]
key_action env _ l = passed_on

-- Select for each item with the ID, in order.
abbrev pub select_items : Env → String → ℕ → List Choice → ListModel → ListModel
select_items env id i [] l = l
select_items env id i (c ∷ cs) l =
    select_items env id (i + 1) cs (if c.id == id then env.select_index i l else l)

pub record BrokerSelectionModel : Type 0 where
  pub list : ListModel
  pub focused : Bool
  pub client_type : ClientType
  pub available_brokers : List (Option Choice)

unfoldable pub new_broker_selection_model : ClientType → BrokerSelectionModel
new_broker_selection_model client_type = record {
  list = empty_list;
  focused = false;
  client_type = client_type;
  available_brokers = [];
}

-- A nil pointer in the slice is `none`, and reading its ID is a panic.
unfoldable pub find_broker : String → List (Option Choice) → Run (Option Choice)
find_broker id [] = some none
find_broker id (none ∷ brokers) = none
find_broker id (some b ∷ brokers) =
    let rest = find_broker id brokers in if b.id == id then some (some b) else rest

unfoldable pub broker_from_id : String → List (Option Choice) → Run (Option Choice)
broker_from_id id brokers = if id == "" then some none else find_broker id brokers

unfoldable pub press_broker : Env → Msg → BrokerSelectionModel → BrokerSelectionModel × Cmd
press_broker env msg m =
    if not (is_interactive m.client_type) || not m.focused
    then (m, nil)
    else elim (key_action env msg m.list) [
      | ignored ↦ (m, nil)
      | chosen id ↦ (m, send (broker_selected id))
      | passed_on ↦ (record m { list = env.list_update msg m.list }, widget_cmd env)
    ]

unfoldable pub update_broker_selection :
    Env → Msg → BrokerSelectionModel → Run (BrokerSelectionModel × Cmd)
update_broker_selection env supported_ui_layouts_set m = some (m, call get_available_brokers)
update_broker_selection env (brokers_list_received []) m =
    some (m, send (pam_error err_authinfo_unavail "No brokers available"))
update_broker_selection env (brokers_list_received (b ∷ bs)) m = some (
  record m { available_brokers = map some (b ∷ bs); list = env.set_items (b ∷ bs) m.list },
  batch (widget_cmd env) (send broker_list_received),
)
update_broker_selection env broker_selection_required m =
    some (m, send (change_stage broker_selection))
update_broker_selection env (broker_selected id) m = elim (broker_from_id id m.available_brokers) [
  | none ↦ none
  | some none ↦ some (m, nil)
  | some (some b) ↦ some (
    record m { list = select_items env b.id 0 m.list.items m.list },
    send (broker_selected_event b.id),
  )
]
update_broker_selection env msg m = some (press_broker env msg m)
