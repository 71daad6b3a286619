-- ===== src/Brokers/Manager.antt =====
-- internal/brokers/manager.go. The brokers of the manager's maps are pointers into `brokers`; the
-- broker's ID stands for the pointer. The processes of the brokers answer by `Processes`.
pub mod Known
pub mod Sessions
use authd.Prelude.{
  String, Bool, Option, none, some, List, [], ◌∷◌, ◌++◌, Dict, lookup, insert, erase, ◌==◌,
  string_eq, if◌then◌else◌, true, false,
}
use authd.Errors.{Result, ok, err, ◌>>=◌, unknown_broker}
use authd.Brokers.Broker
use authd.Brokers.Broker.{Broker, Brokerer, new_broker, local_broker_name}

abbrev pub Processes : Type 0
Processes = String → Brokerer

pub record BrokerManager : Type 0 where
  pub brokers : Dict String Broker
  pub brokers_order : List String
  pub users_to_broker : Dict String String
  pub transactions_to_broker : Dict String String

abbrev pub add_broker : BrokerManager → Broker → BrokerManager
add_broker m b = record m {
  brokers = insert b.id b m.brokers;
  brokers_order = m.brokers_order ++ b.id ∷ [];
}

-- The loop over the configuration files: what each gives, a name and an icon, or an error, on which
-- it is skipped.
unfoldable pub load_brokers :
    (String → String) → List (Result (String × String)) → BrokerManager → BrokerManager
load_brokers hash [] m = m
load_brokers hash (err e ∷ files) m = load_brokers hash files m
load_brokers hash (ok config ∷ files) m =
    load_brokers hash files (add_broker m (new_broker hash (some config)))

abbrev pub no_brokers : BrokerManager
no_brokers = record {
  brokers = [];
  brokers_order = [];
  users_to_broker = [];
  transactions_to_broker = [];
}

-- The local broker is the first one.
unfoldable pub new_manager : (String → String) → List (Result (String × String)) → BrokerManager
new_manager hash files = load_brokers hash files (add_broker no_brokers (new_broker hash none))

-- `m.brokers[id]` of each ID; `none` is the nil pointer.
abbrev pub brokers_at : Dict String Broker → List String → List (Option Broker)
brokers_at brokers [] = []
brokers_at brokers (id ∷ ids) = lookup id brokers ∷ brokers_at brokers ids

unfoldable pub available_brokers : BrokerManager → List (Option Broker)
available_brokers m = brokers_at m.brokers m.brokers_order

unfoldable pub broker_from_id : BrokerManager → String → Result Broker
broker_from_id m id = elim (lookup id m.brokers) [ none ↦ err unknown_broker | some b ↦ ok b ]

unfoldable pub broker_exists : BrokerManager → String → Bool
broker_exists m id = elim (lookup id m.brokers) [ none ↦ false | some _ ↦ true ]

unfoldable pub set_default_broker_for_user :
    BrokerManager → String → String → Result (Unit {0}) × BrokerManager
set_default_broker_for_user m broker_id username = elim (broker_from_id m broker_id) [
  | err e ↦ (err e, m)
  | ok b ↦ (ok tt, record m { users_to_broker = insert username b.id m.users_to_broker })
]

-- `none` is the nil pointer.
unfoldable pub broker_for_user : BrokerManager → String → Option Broker
broker_for_user m username = elim (lookup username m.users_to_broker) [
  | none ↦ none
  | some id ↦ lookup id m.brokers
]

unfoldable pub broker_from_session_id : BrokerManager → String → Result Broker
broker_from_session_id m id =
    if id == ""
    then broker_from_id m local_broker_name
    else elim (lookup id m.transactions_to_broker) [
      | none ↦ err unknown_broker
      | some broker_id ↦ broker_from_id m broker_id
    ]

-- a broker after an operation on it
abbrev pub put : BrokerManager → Broker → BrokerManager
put m b = record m { brokers = insert b.id b m.brokers }

unfoldable pub new_session :
    BrokerManager
    → Processes
    → String
    → String
    → String
    → String
    → Result (String × String) × BrokerManager
new_session m processes broker_id username lang mode = elim (broker_from_id m broker_id) [
  | err e ↦ (err e, m)
  | ok b ↦
      let (answer, b') = Broker.new_session b (processes b.id) username lang mode in
      elim answer [
        | err e ↦ (err e, put m b')
        | ok (session_id, key) ↦ (
          ok (session_id, key),
          record (put m b') {
            transactions_to_broker = insert session_id b.id m.transactions_to_broker;
          },
        )
      ]
]

unfoldable pub end_session : BrokerManager → Processes → String → Result (Unit {0}) × BrokerManager
end_session m processes session_id = elim (broker_from_session_id m session_id) [
  | err e ↦ (err e, m)
  | ok b ↦
      let (answer, b') = Broker.end_session b (processes b.id) session_id in
      elim answer [
        | err e ↦ (err e, put m b')
        | ok _ ↦ (
          ok tt,
          record (put m b') { transactions_to_broker = erase session_id m.transactions_to_broker },
        )
      ]
]
