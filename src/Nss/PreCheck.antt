-- ===== src/Nss/PreCheck.antt =====
-- Who may read the shadow entries, and what GetPasswdByName of internal/services/nss/nss.go changes.
use authd.Prelude.{
  ◌≡◌, refl, ℕ, String, Bool, true, not, ◌||◌, some, List, ◌==◌, string_eq, nat_eq, if◌then◌else◌,
  arith, inl, inr, Bool-cases, Option-cases, ◌⊎◌, subst, sym, ap, ◌∙◌,
}
use authd.Errors.{
  Error, Result, ok, err, ◌>>=◌, ◌>>◌, fail_if, is_no_data, Result-cases, >>=-eq-ok, ok-eq,
  not_found, unknown_broker, invalid_argument,
}
use authd.Types.{UserEntry}
use authd.TempEntries.Attempts.{UserAttempt}
use authd.TempEntries.PreAuth
use authd.TempEntries.PreAuth.Consistent.{IsConsistent}
use authd.TempEntries.PreAuth.Registered.{FreshIds, Answers, register_pre_auth_user-Answers}
use authd.TempEntries.Records.{register_pre_auth_user}
use authd.UserManager.State.{Manager}
use authd.UserManager.Update.{register_user_pre_auth}
use authd.UserManager.Reads
use authd.Brokers.Manager as Brokers
use authd.Brokers.Manager.{Processes}
use authd.Nss.{
  Peer, no_peer, no_credentials, credentials, is_request_from_root, Service, PasswdReply,
  ShadowReply, ask_brokers, user_pre_check, as_not_found, to_grpc_error, get_passwd_by_name,
  get_shadow_by_name, get_shadow_entries, nss_passwd_from_users_passwd,
}

root_only :
    (root_uid : ℕ) (peer : Peer)
    → is_request_from_root root_uid peer ≡ ok tt
    → peer ≡ credentials root_uid
unfolding is_request_from_root
root_only root_uid no_peer h = ground arith
root_only root_uid no_credentials h = ground arith
root_only root_uid (credentials uid) h = ap credentials (ground arith)

root_checked {ℓ} :
    {A : Type ℓ} (root_uid : ℕ) (peer : Peer) (k : Unit {0} → Result A) (a : A)
    → (is_request_from_root root_uid peer >>= k) ≡ ok a
    → peer ≡ credentials root_uid
root_checked root_uid peer k a h =
    let (_, e, _) = >>=-eq-ok (is_request_from_root root_uid peer) k a h in
    root_only root_uid peer e

-- A shadow entry, or the list of them, is given only to a peer whose credentials have the root UID.
pub shadow_needs_root :
    (s : Service) (peer : Peer) (name : String)
    → ((reply : ShadowReply)
        → get_shadow_by_name s peer name ≡ ok reply
        → peer ≡ credentials s.root_uid)
      × ((replies : List ShadowReply)
          → get_shadow_entries s peer ≡ ok replies
          → peer ≡ credentials s.root_uid)
unfolding get_shadow_by_name get_shadow_entries
shadow_needs_root s peer name = (
  λ reply h. root_checked s.root_uid peer _ reply h,
  λ replies h. root_checked s.root_uid peer _ replies h,
)

-- Only the pre-auth users may differ.
abbrev pub OnlyPreAuth : Service → Service → Type 0
OnlyPreAuth s s' =
    (s.user_manager.db ≡ s'.user_manager.db)
    × (s.user_manager.temporary_records.temporary_users
        ≡ s'.user_manager.temporary_records.temporary_users)
    × (s.user_manager.temporary_records.temporary_groups
        ≡ s'.user_manager.temporary_records.temporary_groups)
    × (s.broker_manager ≡ s'.broker_manager)

-- What a registration for the pre-check did.
registered :
    (m m' : Manager) (name : String) (attempts : List UserAttempt) (result : Result ℕ)
    → register_user_pre_auth m name attempts ≡ some (result, m')
    → (PreAuth.register_pre_auth_user m.temporary_records.pre_auth_users name attempts
        ≡ some (result, m'.temporary_records.pre_auth_users))
      × (m.db ≡ m'.db)
      × (m.temporary_records.temporary_users ≡ m'.temporary_records.temporary_users)
      × (m.temporary_records.temporary_groups ≡ m'.temporary_records.temporary_groups)
unfolding register_user_pre_auth register_pre_auth_user
registered m m' name attempts result h =
    elim (Option-cases
      (PreAuth.register_pre_auth_user m.temporary_records.pre_auth_users name attempts)) [
        | inl running ↦ ground arith
        | inr ((answer, users), e) ↦ (ground arith, ground arith, ground arith, ground arith)
      ]

-- the user entry that a broker gave
abbrev broker_entry : Service → Processes → (String → Result UserEntry) → String → Result UserEntry
broker_entry s p unmarshal username = do
  userinfo ← ask_brokers p username (Brokers.available_brokers s.broker_manager) (ok "")
  fail_if (userinfo == "") unknown_broker
  unmarshal userinfo

abbrev entry_for : UserEntry → Result ℕ → Result PasswdReply
entry_for u result = do uid ← result; ok (nss_passwd_from_users_passwd (record u { uid = uid }))

-- The pre-check fails with the state as it was, or registers the user that a broker knows.
user_pre_check_cases :
    (s s' : Service) (p : Processes) (unmarshal : String → Result UserEntry)
    (attempts : List UserAttempt) (name : String) (result : Result PasswdReply)
    → user_pre_check s p unmarshal attempts name ≡ some (result, s')
    → ((s ≡ s') × ((e : Error) × (result ≡ err e)))
      ⊎ ((u : UserEntry) × (r : Result ℕ) × (register_user_pre_auth s.user_manager u.name attempts
            ≡ some (r, s'.user_manager))
          × (s.broker_manager ≡ s'.broker_manager)
          × (result ≡ entry_for u r))
unfolding user_pre_check
user_pre_check_cases s s' p unmarshal attempts name result h =
    elim (Result-cases (broker_entry s p unmarshal name)) [
      | inr (e, unknown) ↦ inl (ground arith, (e, ground arith))
      | inl (u, known) ↦
          elim (Option-cases (register_user_pre_auth s.user_manager u.name attempts)) [
            | inl running ↦ inl (ground arith)
            | inr ((r, users), e) ↦ inr (u, r, ground arith, ground arith, ground arith)
          ]
    ]

-- A call answers without a change, or by the pre-check, for a user that is not found.
get_passwd_by_name_cases :
    (s s' : Service) (p : Processes) (unmarshal : String → Result UserEntry)
    (attempts : List UserAttempt) (name : String) (pre_check : Bool) (result : Result PasswdReply)
    → get_passwd_by_name s p unmarshal attempts name pre_check ≡ some (result, s')
    → ((s ≡ s')
        × (((u : UserEntry) × (Reads.user_by_name s.user_manager name ≡ ok u))
            ⊎ ((e : Error) × (result ≡ err e))))
      ⊎ ((pre_check ≡ true)
          × ((r : Result PasswdReply) × (user_pre_check s p unmarshal attempts name ≡ some (r, s'))
              × (result ≡ as_not_found r)))
unfolding get_passwd_by_name to_grpc_error
get_passwd_by_name_cases s s' p unmarshal attempts name pre_check result h =
    elim (Bool-cases (name == "")) [
      | inl empty ↦ inl (ground arith, inr (invalid_argument, ground arith))
      | inr given ↦ elim (Result-cases (Reads.user_by_name s.user_manager name)) [
        | inl (u, e) ↦ inl (ground arith, inl (u, e))
        | inr (x, e) ↦ elim (Bool-cases (not (is_no_data x) || not pre_check)) [
          | inl refused ↦
              inl (ground arith, inr (if is_no_data x then not_found else x, ground arith))
          | inr asked ↦ elim (Option-cases (user_pre_check s p unmarshal attempts name)) [
            | inl running ↦ inl (ground arith)
            | inr ((r, t), checked) ↦ inr (ground arith, (r, ground arith, ground arith))
          ]
        ]
      ]
    ]

user_pre_check-OnlyPreAuth :
    (s s' : Service) (p : Processes) (unmarshal : String → Result UserEntry)
    (attempts : List UserAttempt) (name : String) (result : Result PasswdReply)
    → user_pre_check s p unmarshal attempts name ≡ some (result, s')
    → OnlyPreAuth s s'
user_pre_check-OnlyPreAuth s s' p unmarshal attempts name result h =
    elim (user_pre_check_cases s s' p unmarshal attempts name result h) [
      | inl (same, _) ↦ subst (OnlyPreAuth s) same (refl, refl, refl, refl)
      | inr (u, r, e, brokers, _) ↦
          let (_, db, users, groups) =
            registered s.user_manager s'.user_manager u.name attempts r e in
          (db, users, groups, brokers)
    ]

-- GetPasswdByName changes nothing but the pre-auth users, whatever it returns: neither the database nor
-- the temporary users and groups nor the brokers' side.
pub get_passwd_by_name-OnlyPreAuth :
    (s s' : Service) (p : Processes) (unmarshal : String → Result UserEntry)
    (attempts : List UserAttempt) (name : String) (pre_check : Bool) (result : Result PasswdReply)
    → get_passwd_by_name s p unmarshal attempts name pre_check ≡ some (result, s')
    → OnlyPreAuth s s'
get_passwd_by_name-OnlyPreAuth s s' p unmarshal attempts name pre_check result h =
    elim (get_passwd_by_name_cases s s' p unmarshal attempts name pre_check result h) [
      | inl (same, _) ↦ subst (OnlyPreAuth s) same (refl, refl, refl, refl)
      | inr (_, (r, checked, _)) ↦
          user_pre_check-OnlyPreAuth s s' p unmarshal attempts name r checked
    ]

-- the pre-auth users of a service
abbrev pub pre_auth_of : Service → PreAuth.PreAuthUserRecords
pre_auth_of s = s.user_manager.temporary_records.pre_auth_users

entry_registered :
    (s s' : Service) (u : UserEntry) (attempts : List UserAttempt) (r : Result ℕ)
    (reply : PasswdReply)
    → IsConsistent (pre_auth_of s)
    → FreshIds (pre_auth_of s) attempts
    → register_user_pre_auth s.user_manager u.name attempts ≡ some (r, s'.user_manager)
    → as_not_found (entry_for u r) ≡ ok reply
    → Answers (pre_auth_of s) reply.name (ok reply.uid) (pre_auth_of s')
unfolding nss_passwd_from_users_passwd
entry_registered s s' u attempts (err e) reply c f h good = ground arith
entry_registered s s' u attempts (ok uid) reply c f h good =
    subst (λ (x : PasswdReply). Answers (pre_auth_of s) x.name (ok x.uid) (pre_auth_of s'))
      (ok-eq _ reply good)
      (register_pre_auth_user-Answers (pre_auth_of s) u.name attempts (ok uid) (pre_auth_of s') c f
        (registered s.user_manager s'.user_manager u.name attempts (ok uid) h).0)

-- Where GetPasswdByName returns an entry for a user that neither the database nor the temporary users
-- have, from consistent pre-auth users and with fresh IDs and names: the pre-check was asked for, the
-- entry's name is a pre-auth user's login with the entry's UID afterwards, and every other login is
-- found as before.
pub get_passwd_by_name_registers :
    (s s' : Service) (p : Processes) (unmarshal : String → Result UserEntry)
    (attempts : List UserAttempt) (name : String) (pre_check : Bool) (e : Error)
    (reply : PasswdReply)
    → IsConsistent (pre_auth_of s)
    → FreshIds (pre_auth_of s) attempts
    → Reads.user_by_name s.user_manager name ≡ err e
    → get_passwd_by_name s p unmarshal attempts name pre_check ≡ some (ok reply, s')
    → (pre_check ≡ true) × Answers (pre_auth_of s) reply.name (ok reply.uid) (pre_auth_of s')
get_passwd_by_name_registers s s' p unmarshal attempts name pre_check e reply c f missing h =
    elim (get_passwd_by_name_cases s s' p unmarshal attempts name pre_check (ok reply) h) [
      | inl (_, inl (u, there)) ↦ ground arith
      | inl (_, inr (x, refused)) ↦ ground arith
      | inr (asked, (r, checked, answer)) ↦ (
        asked,
        elim (user_pre_check_cases s s' p unmarshal attempts name r checked) [
          | inl (_, (x, refused)) ↦ ground arith
          | inr (u, r', registration, _, same) ↦
              entry_registered s s' u attempts r' reply c f registration
                (ap as_not_found (sym same) ∙ sym answer)
        ],
      )
    ]
