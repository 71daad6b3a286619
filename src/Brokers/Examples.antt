-- ===== src/Brokers/Examples.antt =====
-- A broker manager with one broker beside the local one, and a session of it.
use Prim.Native.String.{String}
use authd.Prelude.{
  some-eq, sym, ◌∙◌, subst, String, ◌≡◌, refl, true, false, some, List, [], ◌∷◌, Dict, Distinct,
  lookup, insert, erase, string_eq, ◌==◌, ◌↔◌,
}
use authd.Errors.{Result, ok, err, broker_error, unknown_broker}
use authd.LocalEntries.Text.{split, trim_space}
use authd.Brokers.Layouts.{Layout, cut, parse_items}
use authd.Brokers.Validators.{
  LayoutValidator, field_validator, layout_validator, generate_from, generate_validators,
  validate_ui_layout, value_at,
}
use authd.Brokers.Validators.Conforming.{IsAccepted, validate_ui_layout-Conforms}
use authd.Brokers.Broker
use authd.Brokers.Broker.{
  Broker, Brokerer, Json, Reply, new_broker, session_prefix, trim_prefix, parse_session_id,
  check_data, validate_user_info, is_abs, unmarshal_and_get_key, or_empty, is_authenticated,
}
use authd.Brokers.Broker.Sessions.{new_session_parsed}
use authd.Brokers.Broker.Answers.{IsAnswer, is_authenticated_answers}
use authd.Brokers.Manager.{
  BrokerManager, Processes, load_brokers, new_manager, broker_from_id, broker_from_session_id,
  new_session, end_session,
}
use authd.Brokers.Manager.Known.{IsKnown}
use authd.Brokers.Manager.Known.Steps.{initial, after, open_session, reachable-IsKnown}
use authd.Brokers.Manager.Sessions.{OthersKept, new_session_found, end_session_forgets}
use authd.UserManager.Examples.{alice_info}

abbrev pub hash : String → String
hash name = "1234567"

abbrev pub files : List (Result (String × String))
files = ok ("Example", "/icon.png") ∷ err broker_error ∷ []

abbrev pub started : BrokerManager
started = new_manager hash files

-- The process grants every access.
abbrev pub process : Brokerer
process = record {
  new_session = λ _ _ _. ok ("abc", "key");
  get_authentication_modes = λ _ _. ok [];
  select_authentication_mode = λ _ _. ok [];
  is_authenticated = λ _ _. record { access = "granted"; reply_data = "info"; failed = false };
  end_session = λ _. ok tt;
  user_pre_check = λ _. ok "entry";
}

abbrev pub processes : Processes
processes _ = process

-- A JSON library in which every text is an object with a user info of Alice.
abbrev pub json : Json
json = record {
  members = λ _. ok (("userinfo", "alice") ∷ []);
  user_info = λ _. ok alice_info;
  marshal = λ _. "alice";
}

abbrev pub example : Broker
example = record {
  id = "1234567";
  name = "Example";
  brand_icon_path = "/icon.png";
  layout_validators = [];
  ongoing_user_requests = [];
  is_remote = true;
}

abbrev pub with_session : Broker
with_session = record example { ongoing_user_requests = ("abc", "alice") ∷ [] }

abbrev pub local : Broker
local = record {
  id = "local";
  name = "local";
  brand_icon_path = "";
  layout_validators = [];
  ongoing_user_requests = [];
  is_remote = false;
}

abbrev pub two_brokers : BrokerManager
two_brokers = record {
  brokers = ("1234567", example) ∷ ("local", local) ∷ [];
  brokers_order = "local" ∷ "1234567" ∷ [];
  users_to_broker = [];
  transactions_to_broker = [];
}

two_brokers-started : started ≡ two_brokers
unfolding new_manager load_brokers new_broker insert erase
two_brokers-started = refl

pub started-IsKnown : IsKnown started
started-IsKnown = reachable-IsKnown hash files started initial

abbrev pub in_session : BrokerManager
in_session = record two_brokers {
  brokers = ("1234567", with_session) ∷ ("local", local) ∷ [];
  transactions_to_broker = ("1234567-abc", "1234567") ∷ [];
}

session_opened :
    new_session started processes "1234567" "alice" "C" "auth"
    ≡ (ok ("1234567-abc", "key"), in_session)
unfolding new_session Broker.new_session broker_from_id session_prefix new_manager load_brokers
    new_broker lookup insert erase
session_opened = refl

broker_opened :
    Broker.new_session example process "alice" "C" "auth"
    ≡ (ok ("1234567-abc", "key"), with_session)
unfolding Broker.new_session session_prefix insert erase
broker_opened = refl

new_session_parsed_example :
    (raw : String) × (process.new_session "alice" "C" "auth" ≡ ok (raw, "key"))
    × ((raw == "") ≡ false)
    × (parse_session_id with_session "1234567-abc" ≡ raw)
    × (lookup raw with_session.ongoing_user_requests ≡ some "alice")
new_session_parsed_example =
    new_session_parsed example with_session process "alice" "C" "auth" "1234567-abc" "key"
      broker_opened

reachable-IsKnown_example : IsKnown (new_session started processes "1234567" "alice" "C" "auth").1
reachable-IsKnown_example =
    reachable-IsKnown hash files (new_session started processes "1234567" "alice" "C" "auth").1
      (after initial (open_session started processes "1234567" "alice" "C" "auth"))

new_session_found_example :
    (◌==◌ {A = String} "1234567-abc" "" ≡ false)
    × ((b : Broker) × (broker_from_session_id in_session "1234567-abc" ≡ ok b) × (b.id ≡ "1234567"))
    × OthersKept started in_session "1234567-abc"
new_session_found_example =
    new_session_found started in_session processes "1234567" "alice" "C" "auth" "1234567-abc" "key"
      started-IsKnown session_opened

abbrev closed : BrokerManager
closed = record two_brokers { brokers = ("1234567", example) ∷ ("local", local) ∷ [] }

session_closed : end_session in_session processes "1234567-abc" ≡ (ok tt, closed)
unfolding end_session Broker.end_session parse_session_id trim_prefix broker_from_session_id
    broker_from_id session_prefix lookup insert erase
session_closed = refl

end_session_forgets_example :
    (broker_from_session_id closed "1234567-abc" ≡ err unknown_broker)
    × OthersKept in_session closed "1234567-abc"
end_session_forgets_example =
    end_session_forgets in_session closed processes "1234567-abc" refl session_closed

access_granted :
    is_authenticated json with_session process false "1234567-abc" "{}" ≡ ok ("granted", "alice")
unfolding is_authenticated check_data unmarshal_and_get_key validate_user_info is_abs lookup
access_granted = refl

is_authenticated_answers_example :
    ((process.is_authenticated (parse_session_id with_session "1234567-abc") "{}").access
      ≡ "granted")
    × IsAnswer json
        (or_empty
          (process.is_authenticated (parse_session_id with_session "1234567-abc") "{}").reply_data)
        "granted"
        "alice"
is_authenticated_answers_example =
    is_authenticated_answers json with_session process false "1234567-abc" "{}" "granted" "alice"
      access_granted

abbrev form : Layout
form = ("type", "form") ∷ ("label", "required:") ∷ ("entry", "optional:chars,digits") ∷ []

abbrev form_validator : LayoutValidator
form_validator =
    ("label", record { supported_values = some ("" ∷ []); required = true })
    ∷ ("entry", record { supported_values = some ("chars" ∷ "digits" ∷ []); required = false })
    ∷ []

form_generated : generate_validators (form ∷ []) ≡ ("form", form_validator) ∷ []
unfolding generate_validators generate_from layout_validator field_validator parse_items cut split
    trim_space lookup insert erase
form_generated = refl

abbrev chars : Layout
chars = ("type", "form") ∷ ("entry", "chars") ∷ []

chars-typed : lookup (value_at "type" chars) (("form", form_validator) ∷ []) ≡ some form_validator
unfolding lookup
chars-typed = refl

abbrev sessions : Dict String (Dict String LayoutValidator)
sessions = ("abc", ("form", form_validator) ∷ []) ∷ []

form_validator-Distinct : Distinct form_validator
unfolding lookup
form_validator-Distinct = (refl, (refl, tt))

chars-Distinct : Distinct chars
unfolding lookup
chars-Distinct = (refl, (refl, tt))

sessions-there : lookup "abc" sessions ≡ some (("form", form_validator) ∷ [])
unfolding lookup
sessions-there = refl

chars_validator-Distinct :
    (validators : Dict String LayoutValidator) (validator : LayoutValidator)
    → lookup "abc" sessions ≡ some validators
    → lookup (value_at "type" chars) validators ≡ some validator
    → Distinct validator
chars_validator-Distinct validators validator h t =
    let same = some-eq (("form", form_validator) ∷ []) validators (sym sessions-there ∙ h) in
    let found = subst (λ vs. lookup (value_at "type" chars) vs ≡ some validator) (sym same) t in
    subst Distinct (some-eq form_validator validator (sym chars-typed ∙ found))
      form_validator-Distinct

validate_ui_layout-Conforms_example :
    (validate_ui_layout sessions "abc" chars ≡ ok chars)
    ↔ ((chars ≡ chars) × IsAccepted sessions "abc" chars)
validate_ui_layout-Conforms_example =
    validate_ui_layout-Conforms sessions "abc" chars chars chars_validator-Distinct chars-Distinct
