-- ===== src/Pam/Remembered.antt =====
-- SetDefaultBrokerForUser and GetPreviousBroker of internal/services/pam/pam.go.
use authd.Prelude.{
  ◌≡◌, refl, String, true, false, Option, none, some, List, [], ◌∷◌, ◌==◌, string_eq, nat_eq, arith,
  inl, inr, Bool-cases, eq_iff, Option-cases, ◌⊎◌, subst, ap, find, any, lookup, insert,
  lookup-insert, length,
}
use authd.Errors.{Error, Result, ok, err, Result-cases, is_no_data}
use authd.Db.Tables.{UserRow, Conn, update_broker_stmt}
use authd.Db.Users.{has_name, set_broker, update_broker_for_user}
use authd.UserManager.State.{Manager, Lookup, found, unknown, failed}
use authd.UserManager.Update.{update_broker}
use authd.UserManager.Reads
use authd.Brokers.Broker.{Broker, local_broker_name}
use authd.Brokers.Manager as Brokers
use authd.Brokers.Manager.{BrokerManager}
use authd.Brokers.Manager.Known.{IsKnown}
use authd.Pam.{Service, previous_from, get_previous_broker, set_default_broker_for_user, no_answer}

set_broker-found :
    (name broker_id : String) (us : List UserRow)
    → any (has_name name) us ≡ true
    → (u : UserRow) × (find (has_name name) (set_broker name broker_id us) ≡ some u)
      × (u.broker_id ≡ broker_id)
set_broker-found name broker_id [] h = ground arith
set_broker-found name broker_id (u ∷ us) h = elim (Bool-cases (has_name name u)) [
  | inl is ↦ (record u { broker_id = broker_id }, ground arith, refl)
  | inr other ↦
      let (v, there, same) = set_broker-found name broker_id us (ground arith) in
      (v, ground arith, same)
]

-- the row that the database has for the name
row_of : Conn → String → Option UserRow
row_of c name = find (has_name name) c.users

update_broker_stored :
    (m m' : Manager) (username broker_id : String)
    → update_broker m username broker_id ≡ (ok tt, m')
    → (u : UserRow) × (find (has_name username) m'.db.users ≡ some u) × (u.broker_id ≡ broker_id)
unfolding update_broker update_broker_for_user
update_broker_stored m m' username broker_id h =
    let there : any (has_name username) m.db.users ≡ true = ground arith in
    let (u, stored, same) = set_broker-found username broker_id m.db.users there in
    let users : set_broker username broker_id m.db.users ≡ m'.db.users =
      ground (arith, Bool-cases (m.db.fails update_broker_stmt m.db.tables)) in
    (u, subst (λ us. find (has_name username) us ≡ some u) users stored, same)

-- A broker that was set as the default one.
broker_set :
    (m m' : BrokerManager) (broker_id username : String)
    → IsKnown m
    → Brokers.set_default_broker_for_user m broker_id username ≡ (ok tt, m')
    → (b : Broker) × (Brokers.broker_for_user m' username ≡ some b) × (b.id ≡ broker_id)
unfolding Brokers.set_default_broker_for_user Brokers.broker_for_user Brokers.broker_from_id
broker_set m m' broker_id username w h = elim (Option-cases (lookup broker_id m.brokers)) [
  | inl absent ↦ ground arith
  | inr (b, there) ↦
      let same : record m { users_to_broker = insert username b.id m.users_to_broker } ≡ m' =
        ground arith in
      let is : b.id ≡ broker_id = w.ids broker_id b there in
      (
        b,
        subst (λ (x : BrokerManager). Brokers.broker_for_user x username ≡ some b) same
            (ground (
              arith,
              lookup-insert username username b.id m.users_to_broker,
              eq_iff username username,
            )),
        is,
      )
]

-- The two halves of a call that succeeded.
set_default_halves :
    (s s' : Service) (broker_id username : String)
    → set_default_broker_for_user s broker_id username ≡ (ok tt, s')
    → ((broker_id == local_broker_name) ≡ false)
      × (Brokers.set_default_broker_for_user s.broker_manager broker_id username
          ≡ (ok tt, s'.broker_manager))
      × (update_broker s.user_manager username broker_id ≡ (ok tt, s'.user_manager))
unfolding set_default_broker_for_user
set_default_halves s s' broker_id username h =
    elim (Result-cases
      (Brokers.set_default_broker_for_user s.broker_manager broker_id username).0) [
        | inr (e, refusal) ↦
            ground (arith, Bool-cases (username == ""), Bool-cases (broker_id == local_broker_name))
        | inl (_, set) ↦ elim (Bool-cases (username == "")) [
          | inl empty ↦ ground arith
          | inr given ↦ elim (Bool-cases (broker_id == local_broker_name)) [
            | inl local ↦ ground arith
            | inr remote ↦ (remote, ground arith, ground arith)
          ]
        ]
      ]

-- Where SetDefaultBrokerForUser of the PAM service succeeds, in a service whose brokers' maps name known
-- brokers: the broker is not the local one, the next GetPreviousBroker for the user answers it, whatever
-- the system says, and the database has it in the user's row.
pub set_default_broker_for_user_remembered :
    (s s' : Service) (broker_id username : String)
    → IsKnown s.broker_manager
    → set_default_broker_for_user s broker_id username ≡ (ok tt, s')
    → ((broker_id == local_broker_name) ≡ false)
      × ((lookup_user : Lookup) → get_previous_broker s' lookup_user username ≡ (ok broker_id, s'))
      × ((u : UserRow) × (find (has_name username) s'.user_manager.db.users ≡ some u)
          × (u.broker_id ≡ broker_id))
unfolding get_previous_broker
set_default_broker_for_user_remembered s s' broker_id username w h =
    let (remote, set, stored) = set_default_halves s s' broker_id username h in
    let (b, remembered, is) =
      broker_set s.broker_manager s'.broker_manager broker_id username w set in
    (
      remote,
      λ lookup_user. ground arith,
      update_broker_stored s.user_manager s'.user_manager username broker_id stored,
    )

-- What GetPreviousBroker may answer: nothing, the local broker, or a broker that is there.
abbrev pub MayAnswer : Service → Result String → Type 0
MayAnswer s answer =
    (answer ≡ no_answer)
    ⊎ ((answer ≡ ok local_broker_name)
        ⊎ ((id : String) × (answer ≡ ok id) × (Brokers.broker_exists s.broker_manager id ≡ true)))

previous_from-MayAnswer :
    (s : Service) (username broker_id : String)
    → MayAnswer s (previous_from s username broker_id).0
      × (s.user_manager ≡ (previous_from s username broker_id).1.user_manager)
unfolding previous_from
previous_from-MayAnswer s username broker_id = elim (Bool-cases (broker_id == "")) [
  | inl empty ↦ (inl (ground arith), ground arith)
  | inr given ↦ elim (Bool-cases (Brokers.broker_exists s.broker_manager broker_id)) [
    | inr gone ↦ (inl (ground arith), ground arith)
    | inl there ↦ elim (Bool-cases (broker_id == local_broker_name)) [
      | inl local ↦ (inr (inr (broker_id, ground arith, there)), ground arith)
      | inr remote ↦
          elim (Result-cases
            (Brokers.set_default_broker_for_user s.broker_manager broker_id username).0) [
              | inl (_, set) ↦ (inr (inr (broker_id, ground arith, there)), ground arith)
              | inr (e, refusal) ↦ (inl (ground arith), ground arith)
            ]
    ]
  ]
]

abbrev Answered : Service → Lookup → String → Type 0
Answered s lookup_user username =
    MayAnswer s (get_previous_broker s lookup_user username).0
    × (s.user_manager ≡ (get_previous_broker s lookup_user username).1.user_manager)

-- where the database does not know the user
unknown_user :
    (s : Service) (lookup_user : Lookup) (username : String) (x : Error)
    → Brokers.broker_for_user s.broker_manager username ≡ none
    → Reads.broker_for_user s.user_manager username ≡ err x
    → Answered s lookup_user username
unfolding get_previous_broker
unknown_user s found username x forgotten absent = elim (Bool-cases (is_no_data x)) [
  | inr other ↦ (inl (ground arith), ground arith)
  | inl no_data ↦ elim (Bool-cases (length (Brokers.available_brokers s.broker_manager) == 1)) [
    | inl one ↦ (inr (inl (ground arith)), ground arith)
    | inr many ↦
        rw (forgotten, absent, no_data, many, get_previous_broker)
          (previous_from-MayAnswer s username local_broker_name)
  ]
]
unknown_user s unknown username x forgotten absent =
    elim (Bool-cases (length (Brokers.available_brokers s.broker_manager) == 1)) [
      | inl one ↦ elim (Bool-cases (is_no_data x)) [
        | inr other ↦ (inl (ground arith), ground arith)
        | inl no_data ↦ (inr (inl (ground arith)), ground arith)
      ]
      | inr many ↦ (inl (ground arith), ground arith)
    ]
unknown_user s failed username x forgotten absent =
    elim (Bool-cases (length (Brokers.available_brokers s.broker_manager) == 1)) [
      | inl one ↦ elim (Bool-cases (is_no_data x)) [
        | inr other ↦ (inl (ground arith), ground arith)
        | inl no_data ↦ (inr (inl (ground arith)), ground arith)
      ]
      | inr many ↦ (inl (ground arith), ground arith)
    ]

remembered_exists :
    (m : BrokerManager) (username : String) (b : Broker)
    → IsKnown m
    → Brokers.broker_for_user m username ≡ some b
    → Brokers.broker_exists m b.id ≡ true
unfolding Brokers.broker_for_user Brokers.broker_exists
remembered_exists m username b w h = elim (Option-cases (lookup username m.users_to_broker)) [
  | inl absent ↦ ground arith
  | inr (id, there) ↦
      let found_b : lookup id m.brokers ≡ some b = ground arith in
      ground (arith, ap (λ k. lookup k m.brokers) (w.ids id b found_b))
]

-- GetPreviousBroker never fails and does not change the users: in a service whose brokers' maps name
-- known brokers it answers nothing, the local broker, or a broker that the manager has.
pub get_previous_broker_answers :
    (s : Service) (lookup_user : Lookup) (username : String)
    → IsKnown s.broker_manager
    → MayAnswer s (get_previous_broker s lookup_user username).0
      × (s.user_manager ≡ (get_previous_broker s lookup_user username).1.user_manager)
unfolding get_previous_broker
get_previous_broker_answers s lookup_user username w =
    elim (Option-cases (Brokers.broker_for_user s.broker_manager username)) [
      | inr (b, e) ↦ (
        inr (inr (b.id, ground arith, remembered_exists s.broker_manager username b w e)),
        ground arith,
      )
      | inl forgotten ↦ elim (Result-cases (Reads.broker_for_user s.user_manager username)) [
        | inl (id, e) ↦
            rw (forgotten, e, get_previous_broker) (previous_from-MayAnswer s username id)
        | inr (x, e) ↦ unknown_user s lookup_user username x forgotten e
      ]
    ]
