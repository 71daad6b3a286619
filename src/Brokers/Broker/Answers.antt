-- ===== src/Brokers/Broker/Answers.antt =====
-- What IsAuthenticated of internal/brokers/broker.go lets through.
use authd.Prelude.{
  ◌≡◌, String, Bool, true, false, not, ◌&&◌, List, [], ◌∷◌, ◌==◌, string_eq, contains, arith, inl,
  inr, Bool-cases, eq_iff, All, subst, sym, ap, ◌∙◌,
}
use authd.Errors.{
  ok, >>=-eq-ok, fail_if-eq-ok, ◌>>=◌, ◌>>◌, fail_if, ok-eq, unexpected_data, invalid_access,
  broker_error,
}
use authd.Types.{UserInfo, GroupInfo}
use authd.Brokers.Broker.{
  Broker, Brokerer, Json, Reply, replies, call, is_abs, all_named, validate_user_info,
  unmarshal_and_get_key, check_data, is_authenticated, parse_session_id, or_empty,
}

-- A user info with a name, with absolute paths, and whose groups have names.
pub record IsValidInfo (u : UserInfo) : Type 0 where
  pub named : (u.name == "") ≡ false
  pub home : is_abs u.dir ≡ true
  pub shell : is_abs u.shell ≡ true
  pub groups_named : All (λ (g : GroupInfo). (g.name == "") ≡ false) u.groups

all_named-All :
    (gs : List GroupInfo) → all_named gs ≡ true → All (λ (g : GroupInfo). (g.name == "") ≡ false) gs
all_named-All [] h = tt
all_named-All (g ∷ gs) h = (ground arith, all_named-All gs (ground arith))

pub validate_user_info-IsValidInfo : (u : UserInfo) → validate_user_info u ≡ ok tt → IsValidInfo u
unfolding validate_user_info
validate_user_info-IsValidInfo u h = record {
  named = ground arith;
  home = ground arith;
  shell = ground arith;
  groups_named = all_named-All u.groups (ground arith);
}

-- The data that goes with an access, for the data that the broker sent.
pub data IsAnswer (json : Json) (sent : String) : String → String → Type 0 where
  granted :
      (raw : String) (info : UserInfo)
      → unmarshal_and_get_key json sent "userinfo" ≡ ok raw
      → json.user_info raw ≡ ok info
      → IsValidInfo info
      → IsAnswer json sent "granted" (json.marshal info)
  denied :
      (message : String)
      → unmarshal_and_get_key json sent "message" ≡ ok message
      → IsAnswer json sent "denied" sent
  retry :
      (message : String)
      → unmarshal_and_get_key json sent "message" ≡ ok message
      → IsAnswer json sent "retry" sent
  cancelled : sent ≡ "{}" → IsAnswer json sent "cancelled" "{}"
  next : sent ≡ "{}" → IsAnswer json sent "next" "{}"

one_of_replies :
    (access : String)
    → contains replies access ≡ true
    → (P : String → Type 0) → P "granted"
    → P "denied"
    → P "cancelled"
    → P "retry"
    → P "next"
    → P access
one_of_replies access h P g d c r n = elim (Bool-cases ("granted" == access)) [
  | inl is ↦ subst P ((eq_iff "granted" access).0 is) g
  | inr not_granted ↦ elim (Bool-cases ("denied" == access)) [
    | inl is ↦ subst P ((eq_iff "denied" access).0 is) d
    | inr not_denied ↦ elim (Bool-cases ("cancelled" == access)) [
      | inl is ↦ subst P ((eq_iff "cancelled" access).0 is) c
      | inr not_cancelled ↦ elim (Bool-cases ("retry" == access)) [
        | inl is ↦ subst P ((eq_iff "retry" access).0 is) r
        | inr not_retry ↦ subst P ((eq_iff "next" access).0 (ground arith)) n
      ]
    ]
  ]
]

granted_data :
    (json : Json) (sent answer : String)
    → check_data json "granted" sent ≡ ok answer
    → IsAnswer json sent "granted" answer
unfolding check_data
granted_data json sent answer h =
    let (raw, e₁, h₁) = >>=-eq-ok (unmarshal_and_get_key json sent "userinfo") _ answer h in
    let (info, e₂, h₂) = >>=-eq-ok (json.user_info raw) _ answer h₁ in
    let (_, e₃, h₃) = >>=-eq-ok (validate_user_info info) _ answer h₂ in
    subst (IsAnswer json sent "granted") (ok-eq (json.marshal info) answer h₃)
      (granted raw info e₁ e₂ (validate_user_info-IsValidInfo info e₃))

message_data :
    (json : Json) (sent access answer : String)
    → ((message : String)
        → unmarshal_and_get_key json sent "message" ≡ ok message
        → IsAnswer json sent access sent)
    → (unmarshal_and_get_key json sent "message" >>= λ _. ok sent) ≡ ok answer
    → IsAnswer json sent access answer
message_data json sent access answer made h =
    let (message, e, same) = >>=-eq-ok (unmarshal_and_get_key json sent "message") _ answer h in
    subst (IsAnswer json sent access) (ok-eq sent answer same) (made message e)

no_data :
    (json : Json) (sent access answer : String)
    → (sent ≡ "{}" → IsAnswer json sent access "{}")
    → (fail_if (not (sent == "{}")) unexpected_data >> ok sent) ≡ ok answer
    → IsAnswer json sent access answer
no_data json sent access answer made h =
    let empty : sent ≡ "{}" = (eq_iff sent "{}").0 (ground arith) in
    subst (IsAnswer json sent access) (sym empty ∙ ok-eq sent answer (ground arith)) (made empty)

check_data-IsAnswer :
    (json : Json) (sent access : String)
    → contains replies access ≡ true
    → (answer : String) → check_data json access sent ≡ ok answer
    → IsAnswer json sent access answer
unfolding check_data
check_data-IsAnswer json sent access h =
    one_of_replies access h
      (λ a. (answer : String) → check_data json a sent ≡ ok answer → IsAnswer json sent a answer)
      (λ answer e. granted_data json sent answer e)
      (λ answer e. message_data json sent "denied" answer (λ m f. denied m f) e)
      (λ answer e. no_data json sent "cancelled" answer (λ f. cancelled f) e)
      (λ answer e. message_data json sent "retry" answer (λ m f. retry m f) e)
      (λ answer e. no_data json sent "next" answer (λ f. next f) e)

-- Where IsAuthenticated of a broker succeeds, its access is the one that the broker's process sent, and
-- is one of the five known ones. A granted access comes with the JSON of a user info that has a name,
-- absolute home and shell paths and groups with names; a denied one and a retry with the data as sent,
-- which has a message; a cancelled one and a next with no data.
pub is_authenticated_answers :
    (json : Json) (b : Broker) (remote : Brokerer) (ctx_done : Bool)
    (session_id authentication_data access answer : String)
    → is_authenticated json b remote ctx_done session_id authentication_data ≡ ok (access, answer)
    → ((remote.is_authenticated (parse_session_id b session_id) authentication_data).access
        ≡ access)
      × IsAnswer json
          (or_empty
            (remote.is_authenticated
              (parse_session_id b session_id)
              authentication_data).reply_data)
          access
          answer
unfolding is_authenticated
is_authenticated_answers json b remote ctx_done session_id authentication_data access answer h =
    let (reply, e₁, h₁) =
      >>=-eq-ok
        (call b (ok (remote.is_authenticated (parse_session_id b session_id) authentication_data)))
        _ (access, answer) h in
    let same : remote.is_authenticated (parse_session_id b session_id) authentication_data ≡ reply =
      ground (arith, Bool-cases b.is_remote) in
    let (_, h₂) = fail_if-eq-ok (not ctx_done && reply.failed) broker_error _ (access, answer) h₁ in
    let (known, h₃) =
      fail_if-eq-ok (not (contains replies reply.access)) invalid_access _ (access, answer) h₂ in
    let (text, e₄, h₄) =
      >>=-eq-ok (check_data json reply.access (or_empty reply.reply_data)) _ (access, answer) h₃ in
    let access_is : reply.access ≡ access =
      ap (λ (x : String × String). x.0) (ok-eq (reply.access, text) (access, answer) h₄) in
    let answer_is : text ≡ answer =
      ap (λ (x : String × String). x.1) (ok-eq (reply.access, text) (access, answer) h₄) in
    (
      ap (λ (r : Reply). r.access) same ∙ access_is,
      subst (λ (r : Reply). IsAnswer json (or_empty r.reply_data) access answer) (sym same)
          (subst (λ a. IsAnswer json (or_empty reply.reply_data) a answer) access_is
            (subst (IsAnswer json (or_empty reply.reply_data) reply.access) answer_is (
              check_data-IsAnswer json (or_empty reply.reply_data) reply.access (ground arith) text
                e₄))),
    )
