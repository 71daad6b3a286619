-- ===== src/Adapter/Widgets.antt =====
-- buttonModel, authReselectButtonModel and textinputModel of pam/internal/adapter, and what one update
-- takes from outside, `Env`. Of the widgets of bubbletea the fields that the code reads are kept; what
-- they do with a message, and the selection of a list, are functions of `Env`.
use authd.Prelude.{
  ℕ, ◌-◌, String, Bool, false, Option, none, some, List, [], ◌==◌, string_eq, nat_eq, if◌then◌else◌,
  Dict, ltb,
}
use authd.Adapter.Messages.{
  Msg, Cmd, Choice, Failure, nil, send, key, start_authentication, button_selection_event,
  reselect_auth_mode, other,
}

-- textinput.Model
pub record TextInput : Type 0 where
  pub value : String
  pub focused : Bool

-- list.Model
pub record ListModel : Type 0 where
  pub items : List Choice
  pub index : ℕ
  pub filtering : Bool

abbrev pub empty_list : ListModel
empty_list = record { items = []; index = 0; filtering = false }

-- The widgets: Update of textinput.Model and list.Model, and SetItems, Select and SelectedItem. A widget
-- may ask for a message of its own (`blinks`). Then the clock in milliseconds, the address of a button
-- that is allocated, what PAM answers for its user item, the new QR code (whether the content can be
-- encoded), encoding/json, and the cryptography: base64, x509.ParsePKIXPublicKey with whether the key is
-- an RSA key, and rsa.EncryptOAEP with the key and the text, in base64.
pub record Env : Type 0 where
  pub type_text : Msg → TextInput → TextInput
  pub list_update : Msg → ListModel → ListModel
  pub set_items : List Choice → ListModel → ListModel
  pub select_index : ℕ → ListModel → ListModel
  pub selected_item : ListModel → Option Choice
  pub blinks : Bool
  pub now : ℕ
  pub address : ℕ
  pub get_user_error : Option Failure
  pub set_user_error : Option Failure
  pub encodes_qrcode : String → Bool
  pub json_members : String → Option (Dict String String)
  pub json_text : String → Option String
  pub decode_base64 : String → Option String
  pub parse_public_key : String → Option (String × Bool)
  pub encrypt : String → String → Option String

-- a value, or a run-time panic
abbrev pub Run : Type 0 → Type 0
Run A = Option A

abbrev pub widget_cmd : Env → Cmd
widget_cmd env = if env.blinks then send other else nil

-- buttonModel, with the address of the object; `none` is the zero time.
pub record Button : Type 0 where
  pub label : String
  pub selection_time : Option ℕ
  pub focused : Bool
  pub address : ℕ

abbrev pub reselection_wait_time : ℕ
reselection_wait_time = 500

abbrev pub too_fast : Env → Option ℕ → Bool
too_fast env none = false
too_fast env (some time) = ltb (env.now - time) reselection_wait_time

-- Update has a value receiver, and returns the address of its copy.
unfoldable pub update_button : Env → Msg → Button → Button × Cmd
update_button env start_authentication b =
    (record b { selection_time = some env.now; address = env.address }, nil)
update_button env (key name) b =
    let copy : Button = record b { address = env.address } in
    if name == "enter"
    then (if too_fast env b.selection_time then (copy, nil) else (
      record copy { selection_time = some env.now },
      send (button_selection_event env.address),
    ))
    else (copy, nil)
update_button env _ b = (record b { address = env.address }, nil)

-- the test of a buttonSelectionEvent against the button's own address
abbrev pub selects : Msg → ℕ → Bool
selects (button_selection_event address) own = address == own
selects _ own = false

unfoldable pub update_reselect_button : Env → Msg → Button → Button × Cmd
update_reselect_button env msg b =
    if selects msg b.address then (b, send reselect_auth_mode) else update_button env msg b

-- authenticationComponent: the focusable models of a form
pub data Field : Type 0 where
  text_field : TextInput → Field
  reselect_field : Button → Field

unfoldable pub update_field : Env → Msg → Field → Field × Cmd
update_field env msg (text_field t) = (text_field (env.type_text msg t), widget_cmd env)
update_field env msg (reselect_field b) =
    let (b', cmd) = update_reselect_button env msg b in (reselect_field b', cmd)

unfoldable pub focus_field : Bool → Field → Field
focus_field focused (text_field t) = text_field (record t { focused = focused })
focus_field focused (reselect_field b) = reselect_field (record b { focused = focused })

abbrev pub field_focused : Field → Bool
field_focused (text_field t) = t.focused
field_focused (reselect_field b) = b.focused

-- the command of Focus: a text may blink, a button gives nil
abbrev pub focus_cmd : Env → Field → Cmd
focus_cmd env (text_field t) = widget_cmd env
focus_cmd env (reselect_field b) = nil

unfoldable pub clear_field : Field → Field
clear_field (text_field t) = text_field (record t { value = "" })
clear_field (reselect_field b) = reselect_field b
