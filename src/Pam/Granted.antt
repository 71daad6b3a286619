-- ===== src/Pam/Granted.antt =====
-- IsAuthenticated of internal/services/pam/pam.go, from the broker's answer to the database.
use authd.Prelude.{
  ◌≡◌, refl, String, Bool, false, some, [], ◌==◌, string_eq, arith, inl, inr, Bool-cases, eq_iff,
  Option-cases, ◌⊎◌, subst, sym, ap, ◌∙◌,
}
use authd.Errors.{Result, ok, Result-cases, >>=-eq-ok}
use authd.Types.{UserInfo}
use authd.UserManager.Update as UserManager
use authd.UserManager.State.{System}
use authd.UserManager.Updates.{IsUpdated, update_user_stored}
use authd.Brokers.Broker.{Broker, Json, unmarshal_and_get_key, parse_session_id, or_empty}
use authd.Brokers.Broker.Answers.{
  IsValidInfo, IsAnswer, granted, denied, retry, cancelled, next, is_authenticated_answers,
}
use authd.Brokers.Manager.{Processes}
use authd.Pam.{
  Service, Authenticated, session_broker, broker_answer, update_granted, is_authenticated,
}

-- A user info that was read from some JSON comes back from its own.
abbrev pub RoundTrips : Json → Type 0
RoundTrips json =
    (raw : String) (u : UserInfo)
    → json.user_info raw ≡ ok u
    → json.user_info (json.marshal u) ≡ ok u

-- The broker of the session, the request, and what the broker's process replied to it.
pub record IsReply (s : Service) (p : Processes) (session_id : String) (sent : Result String)
    (access payload : String) : Type 0 where
  pub broker : Broker
  pub request : String
  pub of_session : session_broker s session_id ≡ ok broker
  pub requested : sent ≡ ok request
  pub access_sent :
      ((p broker.id).is_authenticated (parse_session_id broker session_id) request).access ≡ access
  pub data_sent :
      or_empty
        ((p broker.id).is_authenticated (parse_session_id broker session_id) request).reply_data
      ≡ payload

-- The info is the one that the data of a reply has under "userinfo", and it passes the checks.
pub record IsInfoOf (json : Json) (payload : String) (info : UserInfo) : Type 0 where
  pub raw : String
  pub sent : unmarshal_and_get_key json payload "userinfo" ≡ ok raw
  pub parsed : json.user_info raw ≡ ok info
  pub valid : IsValidInfo info

granted_info :
    (json : Json) (payload access answer : String)
    → access ≡ "granted"
    → IsAnswer json payload access answer
    → (info : UserInfo) × IsInfoOf json payload info × (json.marshal info ≡ answer)
granted_info json payload _ _ is (granted raw info sent parsed valid) =
    (info, record { raw = raw; sent = sent; parsed = parsed; valid = valid }, refl)
granted_info json payload _ _ is (denied _ _) = ground (arith, eq_iff "denied" "granted")
granted_info json payload _ _ is (retry _ _) = ground (arith, eq_iff "retry" "granted")
granted_info json payload _ _ is (cancelled _) = ground (arith, eq_iff "cancelled" "granted")
granted_info json payload _ _ is (next _) = ground (arith, eq_iff "next" "granted")

broker_answer-IsReply :
    (s : Service) (p : Processes) (json : Json) (ctx_done : Bool) (session_id : String)
    (sent : Result String) (access answer : String)
    → broker_answer s p json ctx_done session_id sent ≡ ok (access, answer)
    → (payload : String) × IsReply s p session_id sent access payload
      × IsAnswer json payload access answer
unfolding broker_answer
broker_answer-IsReply s p json ctx_done session_id sent access answer h =
    let (b, e₁, h₁) = >>=-eq-ok (session_broker s session_id) _ (access, answer) h in
    let (request, e₂, h₂) = >>=-eq-ok sent _ (access, answer) h₁ in
    let (accessed, a) =
      is_authenticated_answers json b (p b.id) ctx_done session_id request access answer h₂ in
    (
      _,
      record {
        broker = b;
        request = request;
        of_session = e₁;
        requested = e₂;
        access_sent = accessed;
        data_sent = refl;
      },
      a,
    )

-- what a call does whose broker grants the access
update_granted_stored :
    (s : Service) (sys : System) (json : Json) (info : UserInfo) (answer : String)
    (a : Authenticated) (response : String × String)
    → RoundTrips json
    → json.marshal info ≡ answer
    → (raw : String) × (json.user_info raw ≡ ok info)
    → update_granted s sys json answer ≡ some a
    → a.response ≡ ok response
    → (response ≡ ("granted", ""))
      × IsUpdated s.user_manager info a.service.user_manager
      × (s.broker_manager ≡ a.service.broker_manager)
unfolding update_granted
update_granted_stored s sys json info answer a response json_law marshalled (raw, parsed) h good =
    let read : json.user_info answer ≡ ok info =
      ap json.user_info (sym marshalled) ∙ json_law raw info parsed in
    elim (Option-cases (UserManager.update_user s.user_manager sys info)) [
      | inl running ↦ ground arith
      | inr (o, ran) ↦ elim (Result-cases o.result) [
        | inr (e, failed) ↦ ground arith
        | inl (_, updated) ↦ (
          ground arith,
          subst (IsUpdated s.user_manager info) (ground arith)
              (update_user_stored s.user_manager sys info o ran updated),
          ground arith,
        )
      ]
    ]

abbrev pub Unchanged : Service → Authenticated → Type 0
Unchanged s a = (s ≡ a.service) × (a.calls ≡ [])

-- Where IsAuthenticated of the PAM service returns a response, with a JSON library that reads back the
-- user infos that it has read and written, the broker of the session has replied to the request. Either
-- it replied with another access than "granted"; the response is then that access, with the data of the
-- reply in the form that the access asks for, neither the users nor the brokers changed, and gpasswd was
-- not called. Or it replied "granted"; the response is then "granted" with no message, the database has
-- been updated for the very user info that the reply has, which has a name, absolute paths and named
-- groups, and the brokers' side is as before.
pub is_authenticated_updates :
    (s : Service) (p : Processes) (sys : System) (json : Json) (ctx_done : Bool)
    (session_id : String) (sent : Result String) (a : Authenticated) (response : String × String)
    → RoundTrips json
    → is_authenticated s p sys json ctx_done session_id sent ≡ some a
    → a.response ≡ ok response
    → (payload : String) × IsReply s p session_id sent response.0 payload
      × ((((response.0 == "granted") ≡ false)
            × IsAnswer json payload response.0 response.1
            × Unchanged s a)
          ⊎ ((response ≡ ("granted", ""))
              × ((info : UserInfo) × IsInfoOf json payload info
                  × IsUpdated s.user_manager info a.service.user_manager)
              × (s.broker_manager ≡ a.service.broker_manager)))
unfolding is_authenticated
is_authenticated_updates s p sys json ctx_done session_id sent a response json_law h good =
    elim (Result-cases (broker_answer s p json ctx_done session_id sent)) [
      | inr (e, failed) ↦ ground arith
      | inl ((access, answer), answered) ↦
          let (payload, reply, form) =
            broker_answer-IsReply s p json ctx_done session_id sent access answer answered in
          elim (Bool-cases (access == "granted")) [
            | inr other ↦
                let same : ◌≡◌ {A = String × String} (access, answer) response = ground arith in
                (
                  payload,
                  subst (λ (r : String × String). IsReply s p session_id sent r.0 payload) same
                      reply,
                  inl (
                    ground arith,
                    subst (λ (r : String × String). IsAnswer json payload r.0 r.1) same form,
                    (ground arith, ground arith),
                  ),
                )
            | inl is ↦
                let granting = (eq_iff access "granted").0 is in
                let (info, from, marshalled) =
                  granted_info json payload access answer granting form in
                let (said, updated, kept) =
                  update_granted_stored s sys json info answer a response json_law marshalled
                    (from.raw, from.parsed) (ground arith) good in
                (
                  payload,
                  subst (λ x. IsReply s p session_id sent x payload)
                      (granting ∙ sym (ap (λ (r : String × String). r.0) said)) reply,
                  inr (said, (info, from, updated), kept),
                )
          ]
    ]
