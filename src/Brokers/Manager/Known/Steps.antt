-- ===== src/Brokers/Manager/Known/Steps.antt =====
-- internal/brokers/manager.go: the calls as steps, and what holds of every state they reach.
use authd.Prelude.{
  ◌≡◌, String, none, some, Option-cases, List, [], ◌∷◌, arith, lookup, string_eq, inl, inr,
  lookup-empty, subst, insert, erase, nat_eq,
}
use authd.Errors.{Result, ok, err, Result-cases}
use authd.Brokers.Broker
use authd.Brokers.Broker.{Broker, Brokerer, new_broker}
use authd.Brokers.Manager.{
  BrokerManager, Processes, load_brokers, new_manager, set_default_broker_for_user, new_session,
  end_session, broker_from_id, broker_from_session_id, put, add_broker, no_brokers,
}
use authd.Brokers.Manager.Known.{
  Has, IsKnown, Has_own, put-IsKnown, add_broker-IsKnown, with_user-IsKnown, with_session-IsKnown,
  without_session-IsKnown,
}

-- One call that changes the manager, whatever the processes answer.
pub data Step : BrokerManager → BrokerManager → Type 0 where
  set_default :
      (m : BrokerManager) (broker_id username : String)
      → Step m (set_default_broker_for_user m broker_id username).1
  open_session :
      (m : BrokerManager) (p : Processes) (broker_id username lang mode : String)
      → Step m (new_session m p broker_id username lang mode).1
  close_session :
      (m : BrokerManager) (p : Processes) (session_id : String)
      → Step m (end_session m p session_id).1

-- What a manager becomes by its calls.
pub data Reachable (start : BrokerManager) : BrokerManager → Type 0 where
  initial : Reachable start start
  after : {m m' : BrokerManager} → Reachable start m → Step m m' → Reachable start m'

load_brokers-IsKnown :
    (hash : String → String) (files : List (Result (String × String))) (m : BrokerManager)
    → IsKnown m
    → IsKnown (load_brokers hash files m)
unfolding load_brokers
load_brokers-IsKnown hash [] m w = w
load_brokers-IsKnown hash (err e ∷ files) m w = load_brokers-IsKnown hash files m w
load_brokers-IsKnown hash (ok config ∷ files) m w =
    load_brokers-IsKnown hash files (add_broker m (new_broker hash (some config)))
      (add_broker-IsKnown m (new_broker hash (some config)) w)

new_manager-IsKnown :
    (hash : String → String) (files : List (Result (String × String)))
    → IsKnown (new_manager hash files)
unfolding new_manager
new_manager-IsKnown hash files =
    load_brokers-IsKnown hash files (add_broker no_brokers (new_broker hash none)) (
      add_broker-IsKnown no_brokers (new_broker hash none) (record {
        ids = λ k b h. ground (arith, lookup-empty {V = Broker} k);
        order = tt;
        users = λ k id h. ground (arith, lookup-empty {V = String} k);
        sessions = λ k id h. ground (arith, lookup-empty {V = String} k);
      }))

-- the ID of a broker that was looked up
found_has :
    (m : BrokerManager) (id : String) (b : Broker)
    → IsKnown m
    → broker_from_id m id ≡ ok b
    → Has m b.id
unfolding broker_from_id
found_has m id b w h = elim (Option-cases (lookup id m.brokers)) [
  | inl absent ↦ ground arith
  | inr (c, there) ↦ ground (arith, w.ids id c)
]

set_default-IsKnown :
    (m : BrokerManager) (broker_id username : String)
    → IsKnown m
    → IsKnown (set_default_broker_for_user m broker_id username).1
unfolding set_default_broker_for_user
set_default-IsKnown m broker_id username w = elim (Result-cases (broker_from_id m broker_id)) [
  | inl (b, e) ↦
      rw (e, set_default_broker_for_user)
        (with_user-IsKnown m username b.id (found_has m broker_id b w e) w)
  | inr (x, e) ↦ rw (e, set_default_broker_for_user) w
]

-- A call on a broker leaves its ID.
new_session-id :
    (b : Broker) (remote : Brokerer) (username lang mode : String)
    → (Broker.new_session b remote username lang mode).1.id ≡ b.id
unfolding Broker.new_session
new_session-id b remote username lang mode =
    ground (arith, Result-cases (remote.new_session username lang mode))

opened-IsKnown :
    (m : BrokerManager) (b b' : Broker) (answer : Result (String × String))
    → b'.id ≡ b.id
    → IsKnown m
    → IsKnown
        (elim answer as (λ _. Result (String × String) × BrokerManager) [
          | err e ↦ (err e, put m b')
          | ok (session_id, key) ↦ (
            ok (session_id, key),
            record (put m b') {
              transactions_to_broker = insert session_id b.id m.transactions_to_broker;
            },
          )
        ]).1
opened-IsKnown m b b' (err e) same w = put-IsKnown m b' w
opened-IsKnown m b b' (ok (session_id, key)) same w =
    with_session-IsKnown (put m b') session_id b.id (subst (Has (put m b')) same (Has_own m b'))
      (put-IsKnown m b' w)

new_session-IsKnown :
    (m : BrokerManager) (p : Processes) (broker_id username lang mode : String)
    → IsKnown m
    → IsKnown (new_session m p broker_id username lang mode).1
unfolding new_session
new_session-IsKnown m p broker_id username lang mode w =
    elim (Result-cases (broker_from_id m broker_id)) [
      | inl (b, e) ↦
          let opened = Broker.new_session b (p b.id) username lang mode in
          rw (e, new_session)
            (opened-IsKnown m b opened.1 opened.0 (new_session-id b (p b.id) username lang mode) w)
      | inr (x, e) ↦ rw (e, new_session) w
    ]

closed-IsKnown :
    (m : BrokerManager) (b' : Broker) (session_id : String) (answer : Result (Unit {0}))
    → IsKnown m
    → IsKnown
        (elim answer as (λ _. Result (Unit {0}) × BrokerManager) [
          | err e ↦ (err e, put m b')
          | ok _ ↦ (
            ok tt,
            record (put m b') {
              transactions_to_broker = erase session_id m.transactions_to_broker;
            },
          )
        ]).1
closed-IsKnown m b' session_id (err e) w = put-IsKnown m b' w
closed-IsKnown m b' session_id (ok _) w =
    without_session-IsKnown (put m b') session_id (put-IsKnown m b' w)

end_session-IsKnown :
    (m : BrokerManager) (p : Processes) (session_id : String)
    → IsKnown m
    → IsKnown (end_session m p session_id).1
unfolding end_session
end_session-IsKnown m p session_id w = elim (Result-cases (broker_from_session_id m session_id)) [
  | inl (b, e) ↦
      let closed = Broker.end_session b (p b.id) session_id in
      rw (e, end_session) (closed-IsKnown m closed.1 session_id closed.0 w)
  | inr (x, e) ↦ rw (e, end_session) w
]

Step-IsKnown : (m m' : BrokerManager) → Step m m' → IsKnown m → IsKnown m'
Step-IsKnown m _ (set_default _ broker_id username) w = set_default-IsKnown m broker_id username w
Step-IsKnown m _ (open_session _ p broker_id username lang mode) w =
    new_session-IsKnown m p broker_id username lang mode w
Step-IsKnown m _ (close_session _ p session_id) w = end_session-IsKnown m p session_id w

reachable_from : (start m : BrokerManager) → Reachable start m → IsKnown start → IsKnown m
reachable_from start _ initial w = w
reachable_from start m (after before step) w =
    Step-IsKnown _ m step (reachable_from start _ before w)

-- Whatever configuration files a broker manager starts from, and whatever default brokers are set and
-- sessions are opened and closed, with any answers of the brokers' processes: each broker stands under
-- its own ID, and every broker of the order, every default broker and every session's broker is one
-- that the manager has.
pub reachable-IsKnown :
    (hash : String → String) (files : List (Result (String × String))) (m : BrokerManager)
    → Reachable (new_manager hash files) m
    → IsKnown m
reachable-IsKnown hash files m r =
    reachable_from (new_manager hash files) m r (new_manager-IsKnown hash files)
