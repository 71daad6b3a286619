-- ===== src/Brokers/Manager/Known.antt =====
-- internal/brokers/manager.go: when the maps of the manager name brokers that it has.
pub mod Steps
use authd.Prelude.{
  ◌≡◌, String, true, none, some, List, [], ◌∷◌, arith, lookup, insert, erase, lookup-insert,
  lookup-erase, lookup-empty, string_eq, eq_iff, All, All-imp, All-append_one,
}
use authd.Brokers.Broker.{Broker}
use authd.Brokers.Validators.{is_some}
use authd.Brokers.Manager.{BrokerManager, add_broker, put}

abbrev pub Has : BrokerManager → String → Type 0
Has m id = is_some (lookup id m.brokers) ≡ true

-- Each broker stands under its own ID, and the order, the default brokers and the sessions name
-- brokers that are there.
pub record IsKnown (m : BrokerManager) : Type 0 where
  pub ids : (k : String) (b : Broker) → lookup k m.brokers ≡ some b → b.id ≡ k
  pub order : All (Has m) m.brokers_order
  pub users : (k id : String) → lookup k m.users_to_broker ≡ some id → Has m id
  pub sessions : (k id : String) → lookup k m.transactions_to_broker ≡ some id → Has m id

Has_put : (m : BrokerManager) (b : Broker) (id : String) → Has m id → Has (put m b) id
Has_put m b id h = ground (arith, lookup-insert b.id id b m.brokers)

pub Has_own : (m : BrokerManager) (b : Broker) → Has (put m b) b.id
Has_own m b = ground (arith, lookup-insert b.id b.id b m.brokers, eq_iff b.id b.id)

pub put-IsKnown : (m : BrokerManager) (b : Broker) → IsKnown m → IsKnown (put m b)
put-IsKnown m b w = record {
  ids = λ k c h. ground (arith, lookup-insert b.id k b m.brokers, w.ids k c, eq_iff b.id k);
  order = All-imp (Has m) (Has (put m b)) m.brokers_order (λ id h. Has_put m b id h) w.order;
  users = λ k id h. Has_put m b id (w.users k id h);
  sessions = λ k id h. Has_put m b id (w.sessions k id h);
}

pub add_broker-IsKnown : (m : BrokerManager) (b : Broker) → IsKnown m → IsKnown (add_broker m b)
add_broker-IsKnown m b w =
    let w' = put-IsKnown m b w in
    record {
      ids = w'.ids;
      order = All-append_one (Has (put m b)) b.id m.brokers_order w'.order (Has_own m b);
      users = w'.users;
      sessions = w'.sessions;
    }

pub with_user-IsKnown :
    (m : BrokerManager) (username id : String)
    → Has m id
    → IsKnown m
    → IsKnown (record m { users_to_broker = insert username id m.users_to_broker })
with_user-IsKnown m username id h w = record {
  ids = w.ids;
  order = w.order;
  users = λ k j there. ground (arith, lookup-insert username k id m.users_to_broker, w.users k j);
  sessions = w.sessions;
}

pub with_session-IsKnown :
    (m : BrokerManager) (session_id id : String)
    → Has m id
    → IsKnown m
    → IsKnown (record m { transactions_to_broker = insert session_id id m.transactions_to_broker })
with_session-IsKnown m session_id id h w = record {
  ids = w.ids;
  order = w.order;
  users = w.users;
  sessions = λ k j there.
      ground (arith, lookup-insert session_id k id m.transactions_to_broker, w.sessions k j);
}

pub without_session-IsKnown :
    (m : BrokerManager) (session_id : String)
    → IsKnown m
    → IsKnown (record m { transactions_to_broker = erase session_id m.transactions_to_broker })
without_session-IsKnown m session_id w = record {
  ids = w.ids;
  order = w.order;
  users = w.users;
  sessions = λ k j there.
      ground (arith, lookup-erase session_id k m.transactions_to_broker, w.sessions k j);
}
