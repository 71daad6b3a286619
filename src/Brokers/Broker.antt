-- ===== src/Brokers/Broker.antt =====
-- The brokers of internal/brokers/broker.go. The process behind a broker, which D-Bus reaches, answers
-- each call by a function, `Brokerer`; encoding/json is a parameter, `Json`. The maps of a broker are
-- shared by its copies, so an operation returns the broker beside its result.
pub mod Sessions
pub mod Answers
use Prim.Native.String.{String, len, slice}
use Prim.Native.String as Str
use text.Mathlib.Text.{starts_with}
use authd.Prelude.{
  ℕ, Bool, true, false, not, ◌&&◌, Option, none, some, List, [], ◌∷◌, Dict, lookup, insert, erase,
  ◌==◌, string_eq, contains, if◌then◌else◌,
}
use authd.Errors.{
  Result, ok, err, ◌>>◌, ◌>>=◌, fail_if, no_session_id, broker_error, missing_key, invalid_access,
  invalid_user_info, unexpected_data, no_brokerer,
}
use authd.Types.{UserInfo, GroupInfo}
use authd.Brokers.Layouts.{Layout}
use authd.Brokers.Validators.{LayoutValidator, generate_validators, validate_ui_layout, is_some}

abbrev pub local_broker_name : String
local_broker_name = "local"

-- `access, data, err` of the IsAuthenticated call
pub record Reply : Type 0 where
  pub access : String
  pub reply_data : String
  pub failed : Bool

-- The answers of a broker's process.
pub record Brokerer : Type 0 where
  pub new_session : String → String → String → Result (String × String)
  pub get_authentication_modes : String → List Layout → Result (List Layout)
  pub select_authentication_mode : String → String → Result Layout
  pub is_authenticated : String → String → Reply
  pub end_session : String → Result (Unit {0})
  pub user_pre_check : String → Result String

-- What the code asks of encoding/json: the members of an object, and a user info out of a text and back.
pub record Json : Type 0 where
  pub members : String → Result (Dict String String)
  pub user_info : String → Result UserInfo
  pub marshal : UserInfo → String

-- `is_remote`: the field `brokerer` is set. It is nil for the local broker.
pub record Broker : Type 0 where
  pub id : String
  pub name : String
  pub brand_icon_path : String
  pub layout_validators : Dict String (Dict String LayoutValidator)
  pub ongoing_user_requests : Dict String String
  pub is_remote : Bool

-- A broker of a configuration file has the name and the icon of the file; `hash` is the FNV-1a hash of
-- the name, in decimal.
unfoldable pub new_broker : (String → String) → Option (String × String) → Broker
new_broker hash none = record {
  id = local_broker_name;
  name = local_broker_name;
  brand_icon_path = "";
  layout_validators = [];
  ongoing_user_requests = [];
  is_remote = false;
}
new_broker hash (some (name, brand_icon)) = record {
  id = hash name;
  name = name;
  brand_icon_path = brand_icon;
  layout_validators = [];
  ongoing_user_requests = [];
  is_remote = true;
}

-- A method call on the `brokerer`, which is no interface value for the local broker: Go panics there.
abbrev pub call {ℓ} : {A : Type ℓ} → Broker → Result A → Result A
call b answer = fail_if (not b.is_remote) no_brokerer >> answer

unfoldable pub session_prefix : Broker → String
session_prefix b = Str.◌++◌ b.id "-"

-- strings.TrimPrefix
unfoldable pub trim_prefix : String → String → String
trim_prefix prefix s = if starts_with s prefix then slice s (len prefix) (len s) else s

unfoldable pub parse_session_id : Broker → String → String
parse_session_id b session_id = trim_prefix (session_prefix b) session_id

unfoldable pub new_session :
    Broker → Brokerer → String → String → String → Result (String × String) × Broker
new_session b remote username lang mode = elim (call b (remote.new_session username lang mode)) [
  | err e ↦ (err e, b)
  | ok (session_id, key) ↦ if session_id == "" then (err no_session_id, b) else (
    ok (Str.◌++◌ (session_prefix b) session_id, key),
    record b { ongoing_user_requests = insert session_id username b.ongoing_user_requests },
  )
]

unfoldable pub check_modes : List Layout → Result (Unit {0})
check_modes [] = ok tt
check_modes (mode ∷ modes) =
    let rest = check_modes modes in
    fail_if (not (is_some (lookup "id" mode) && is_some (lookup "label" mode))) missing_key >> rest

unfoldable pub get_authentication_modes :
    Broker → Brokerer → String → List Layout → Result (List Layout) × Broker
get_authentication_modes b remote session_id supported =
    let id = parse_session_id b session_id in
    let b' = record b {
      layout_validators = insert id (generate_validators supported) b.layout_validators;
    } in
    (
      do modes ← call b (remote.get_authentication_modes id supported); check_modes modes; ok modes,
      b',
    )

unfoldable pub select_authentication_mode : Broker → Brokerer → String → String → Result Layout
select_authentication_mode b remote session_id mode = do
  let id = parse_session_id b session_id
  layout ← call b (remote.select_authentication_mode id mode)
  validate_ui_layout b.layout_validators id layout

-- `filepath.IsAbs(filepath.Clean(p))`: Clean keeps a leading slash, and adds none.
unfoldable pub is_abs : String → Bool
is_abs p = starts_with p "/"

abbrev pub all_named : List GroupInfo → Bool
all_named [] = true
all_named (g ∷ gs) = let rest = all_named gs in if g.name == "" then false else rest

unfoldable pub validate_user_info : UserInfo → Result (Unit {0})
validate_user_info u = do
  fail_if (u.name == "") invalid_user_info
  fail_if (not (is_abs u.dir)) invalid_user_info
  fail_if (not (is_abs u.shell)) invalid_user_info
  fail_if (not (all_named u.groups)) invalid_user_info
  ok tt

unfoldable pub unmarshal_and_get_key : Json → String → String → Result String
unmarshal_and_get_key json reply_data key = do
  members ← json.members reply_data
  elim (lookup key members) [ none ↦ err missing_key | some raw ↦ ok raw ]

abbrev pub replies : List String
replies = "granted" ∷ "denied" ∷ "cancelled" ∷ "retry" ∷ "next" ∷ []

-- the checks of the data that goes with a valid access
unfoldable pub check_data : Json → String → String → Result String
check_data json access reply_data =
    if access == "granted"
    then (do
      raw ← unmarshal_and_get_key json reply_data "userinfo"
      info ← json.user_info raw
      validate_user_info info
      ok (json.marshal info))
    else if access == "denied"
    then (do _ ← unmarshal_and_get_key json reply_data "message"; ok reply_data)
    else if access == "retry"
    then (do _ ← unmarshal_and_get_key json reply_data "message"; ok reply_data)
    else (do fail_if (not (reply_data == "{}")) unexpected_data; ok reply_data)

abbrev pub or_empty : String → String
or_empty reply_data = if reply_data == "" then "{}" else reply_data

-- Where the request's context is cancelled first, the call is cancelled and its error is not read.
unfoldable pub is_authenticated :
    Json → Broker → Brokerer → Bool → String → String → Result (String × String)
is_authenticated json b remote cancelled session_id authentication_data = do
  reply ← call b (ok (remote.is_authenticated (parse_session_id b session_id) authentication_data))
  fail_if (not cancelled && reply.failed) broker_error
  fail_if (not (contains replies reply.access)) invalid_access
  reply_data ← check_data json reply.access (or_empty reply.reply_data)
  ok (reply.access, reply_data)

unfoldable pub end_session : Broker → Brokerer → String → Result (Unit {0}) × Broker
end_session b remote session_id =
    let id = parse_session_id b session_id in
    (
      call b (remote.end_session id),
      record b { ongoing_user_requests = erase id b.ongoing_user_requests },
    )

unfoldable pub user_pre_check : Broker → Brokerer → String → Result String
user_pre_check b remote username = call b (remote.user_pre_check username)
