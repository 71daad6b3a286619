-- ===== src/Brokers/Manager/Sessions.antt =====
-- The life of a session in internal/brokers/manager.go.
use Prim.Native.String.{String, len}
use Prim.Native.String as Str
use text.Mathlib.TextPositions.{len-append}
use authd.Prelude.{
  ◌≡◌, false, ◌==◌, string_eq, lookup, insert, erase, lookup-insert, lookup-erase, arith, inl, inr,
  Bool-cases, eq_iff, ◌∙◌, ap, subst, sym, Option-cases,
}
use authd.Errors.{ok, err, Result-cases, unknown_broker}
use authd.Brokers.Broker
use authd.Brokers.Broker.{Broker, Brokerer, session_prefix}
use authd.Brokers.Broker.Sessions.{new_session_gives}
use authd.Brokers.Manager.{
  BrokerManager, Processes, broker_from_id, broker_from_session_id, new_session, end_session, put,
}
use authd.Brokers.Manager.Known.{IsKnown}

prefixed_not_empty : (b : Broker) (raw : String) → (Str.◌++◌ (session_prefix b) raw == "") ≡ false
unfolding session_prefix
prefixed_not_empty b raw = elim (Bool-cases (Str.◌++◌ (Str.◌++◌ b.id "-") raw == "")) [
  | inr given ↦ given
  | inl empty ↦
      let no_length : len (Str.◌++◌ (Str.◌++◌ b.id "-") raw) ≡ 0 =
        ap len ((eq_iff (Str.◌++◌ (Str.◌++◌ b.id "-") raw) "").0 empty) in
      ground (arith, len-append (Str.◌++◌ b.id "-") raw, len-append b.id "-")
]

-- The session IDs of other sessions have the brokers that they had.
abbrev pub OthersKept : BrokerManager → BrokerManager → String → Type 0
OthersKept m m' session_id =
    (j : String)
    → (session_id == j) ≡ false
    → lookup j m'.transactions_to_broker ≡ lookup j m.transactions_to_broker

new_session_manager :
    (m m' : BrokerManager) (p : Processes) (broker_id username lang mode session_id key : String)
    → new_session m p broker_id username lang mode ≡ (ok (session_id, key), m')
    → (b b' : Broker) × (broker_from_id m broker_id ≡ ok b)
      × (Broker.new_session b (p b.id) username lang mode ≡ (ok (session_id, key), b'))
      × (b'.id ≡ b.id)
      × (record (put m b') {
        transactions_to_broker = insert session_id b.id m.transactions_to_broker;
      }
          ≡ m')
unfolding new_session
new_session_manager m m' p broker_id username lang mode session_id key h =
    elim (Result-cases (broker_from_id m broker_id)) [
      | inr (x, e) ↦ ground arith
      | inl (b, e) ↦ elim (Result-cases (Broker.new_session b (p b.id) username lang mode).0) [
        | inr (x, f) ↦ ground arith
        | inl ((id, k), f) ↦
            let b' = (Broker.new_session b (p b.id) username lang mode).1 in
            let ran : Broker.new_session b (p b.id) username lang mode
                ≡ (ok (session_id, key), b') =
              ground arith in
            let (raw, _, _, _, same) =
              new_session_gives b b' (p b.id) username lang mode session_id key ran in
            (b, b', e, ran, ap (λ (x : Broker). x.id) (sym same), ground arith)
      ]
    ]

-- Where NewSession succeeds, in a manager whose maps name known brokers, the session ID that it returns
-- is not empty and belongs to the broker that was asked for, and every other session to the broker that
-- it belonged to.
pub new_session_found :
    (m m' : BrokerManager) (p : Processes) (broker_id username lang mode session_id key : String)
    → IsKnown m
    → new_session m p broker_id username lang mode ≡ (ok (session_id, key), m')
    → ((session_id == "") ≡ false)
      × ((b : Broker) × (broker_from_session_id m' session_id ≡ ok b) × (b.id ≡ broker_id))
      × OthersKept m m' session_id
unfolding broker_from_session_id broker_from_id
new_session_found m m' p broker_id username lang mode session_id key w h =
    let (b, b', e, ran, same_id, same) =
      new_session_manager m m' p broker_id username lang mode session_id key h in
    let (raw, _, _, named, _) =
      new_session_gives b b' (p b.id) username lang mode session_id key ran in
    let given : (session_id == "") ≡ false =
      subst (λ s. (s == "") ≡ false) named (prefixed_not_empty b raw) in
    let id_is : b.id ≡ broker_id =
      ground (arith, Option-cases (lookup broker_id m.brokers), w.ids broker_id b) in
    (
      given,
      (
        b',
        subst (λ (x : BrokerManager). broker_from_session_id x session_id ≡ ok b') same
            (ground (
              arith,
              lookup-insert session_id session_id b.id m.transactions_to_broker,
              lookup-insert b'.id b.id b' m.brokers,
              eq_iff session_id session_id,
              eq_iff b'.id b.id,
            )),
        same_id ∙ id_is,
      ),
      λ j other.
          subst
            (λ (x : BrokerManager).
              lookup j x.transactions_to_broker ≡ lookup j m.transactions_to_broker)
            same (ground (arith, lookup-insert session_id j b.id m.transactions_to_broker)),
    )

end_session_manager :
    (m m' : BrokerManager) (p : Processes) (session_id : String)
    → end_session m p session_id ≡ (ok tt, m')
    → (b' : Broker) × (record (put m b') {
      transactions_to_broker = erase session_id m.transactions_to_broker;
    }
        ≡ m')
unfolding end_session
end_session_manager m m' p session_id h =
    elim (Result-cases (broker_from_session_id m session_id)) [
      | inr (x, e) ↦ ground arith
      | inl (b, e) ↦ (
        (Broker.end_session b (p b.id) session_id).1,
        ground (arith, Result-cases (Broker.end_session b (p b.id) session_id).0),
      )
    ]

-- Where EndSession succeeds for a session ID that is not empty, the session has no broker any more, and
-- every other session has the broker that it had.
pub end_session_forgets :
    (m m' : BrokerManager) (p : Processes) (session_id : String)
    → (session_id == "") ≡ false
    → end_session m p session_id ≡ (ok tt, m')
    → (broker_from_session_id m' session_id ≡ err unknown_broker) × OthersKept m m' session_id
unfolding broker_from_session_id
end_session_forgets m m' p session_id given h =
    let (b', same) = end_session_manager m m' p session_id h in
    subst
      (λ (x : BrokerManager).
        (broker_from_session_id x session_id ≡ err unknown_broker) × OthersKept m x session_id)
      same
      (
        ground (
          arith,
          lookup-erase session_id session_id m.transactions_to_broker,
          eq_iff session_id session_id,
        ),
        λ j other. ground (arith, lookup-erase session_id j m.transactions_to_broker),
      )
