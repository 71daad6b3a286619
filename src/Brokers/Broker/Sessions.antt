-- ===== src/Brokers/Broker/Sessions.antt =====
-- The session IDs of internal/brokers/broker.go: what newSession prefixes, parseSessionID strips.
use Prim.Native.String.{String, len, slice}
use Prim.Native.String as Str
use text.Mathlib.TextPositions.{slice-append_right, starts_with-append, len-append}
use authd.Prelude.{
  ◌≡◌, false, some, ◌==◌, string_eq, if◌then◌else◌, lookup, insert, lookup-insert, arith, inl, inr,
  Bool-cases, eq_iff, ◌∙◌, ap, subst,
}
use authd.Errors.{ok, Result-cases}
use authd.Brokers.Broker.{
  Broker, Brokerer, call, session_prefix, trim_prefix, parse_session_id, new_session,
}

trim_prefix-append : (prefix s : String) → trim_prefix prefix (Str.◌++◌ prefix s) ≡ s
unfolding trim_prefix
trim_prefix-append prefix s =
    ap
      (λ b.
        if b
        then slice (Str.◌++◌ prefix s) (len prefix) (len (Str.◌++◌ prefix s))
        else Str.◌++◌ prefix s)
      (starts_with-append prefix s)
    ∙ (ap (λ k. slice (Str.◌++◌ prefix s) (len prefix) k) (len-append prefix s)
        ∙ slice-append_right prefix s)

-- a session ID made for the broker, given back to it
pub parse_session_id-prefix :
    (b : Broker) (raw : String) → parse_session_id b (Str.◌++◌ (session_prefix b) raw) ≡ raw
unfolding parse_session_id
parse_session_id-prefix b raw = trim_prefix-append (session_prefix b) raw

abbrev pub opened : Broker → String → String → Broker
opened b raw username = record b {
  ongoing_user_requests = insert raw username b.ongoing_user_requests;
}

-- the session ID, the key and the broker that a successful call gives
pub new_session_gives :
    (b b' : Broker) (remote : Brokerer) (username lang mode session_id key : String)
    → new_session b remote username lang mode ≡ (ok (session_id, key), b')
    → (raw : String) × (remote.new_session username lang mode ≡ ok (raw, key))
      × ((raw == "") ≡ false)
      × (Str.◌++◌ (session_prefix b) raw ≡ session_id)
      × (opened b raw username ≡ b')
unfolding new_session
new_session_gives b b' remote username lang mode session_id key h =
    elim (Result-cases (call b (remote.new_session username lang mode))) [
      | inr (x, e) ↦ ground arith
      | inl ((raw, k), e) ↦ elim (Bool-cases (raw == "")) [
        | inl empty ↦ ground arith
        | inr given ↦
            (raw, ground (arith, Bool-cases b.is_remote), given, ground arith, ground arith)
      ]
    ]

-- Where newSession of a broker succeeds, parseSessionID gives back, of the session ID that it returns,
-- the one that the broker's process chose, which is not empty, and the request's user is stored under it.
pub new_session_parsed :
    (b b' : Broker) (remote : Brokerer) (username lang mode session_id key : String)
    → new_session b remote username lang mode ≡ (ok (session_id, key), b')
    → (raw : String) × (remote.new_session username lang mode ≡ ok (raw, key))
      × ((raw == "") ≡ false)
      × (parse_session_id b' session_id ≡ raw)
      × (lookup raw b'.ongoing_user_requests ≡ some username)
unfolding session_prefix parse_session_id
new_session_parsed b b' remote username lang mode session_id key h =
    let (raw, answered, given, named, same) =
      new_session_gives b b' remote username lang mode session_id key h in
    (
      raw,
      answered,
      given,
      subst (λ id. parse_session_id b' id ≡ raw) named
          (subst (λ (x : Broker). parse_session_id x (Str.◌++◌ (session_prefix b) raw) ≡ raw) same
            (parse_session_id-prefix (opened b raw username) raw)),
      subst (λ (x : Broker). lookup raw x.ongoing_user_requests ≡ some username) same
          (ground (arith, lookup-insert raw raw username b.ongoing_user_requests, eq_iff raw raw)),
    )
