-- ===== src/Pam/Layouts.antt =====
-- uiLayoutToMap and mapToUILayout of internal/services/pam/pam.go. The message UILayout is generated
-- code; its record has what its getters give.
use authd.Prelude.{
  String, Bool, true, false, not, Option, none, some, [], ◌==◌, string_eq, if◌then◌else◌, insert,
  lookup-insert, lookup-empty, ◌≡◌, arith, eq_iff, ◌⊎◌, inl, inr, Bool-cases,
}
use authd.Errors.{Result, ok, err, invalid_layout}
use authd.Brokers.Layouts.{Layout}
use authd.Brokers.Validators.{value_at}

pub record UiLayout : Type 0 where
  pub type : String
  pub label : String
  pub button : String
  pub wait : String
  pub entry : String
  pub content : String
  pub code : String
  pub renders_qrcode : Option Bool

-- `if v != "" { r[key] = v }`
unfoldable pub set_given : String → String → Layout → Layout
set_given key value r = if value == "" then r else insert key value r

abbrev pub renders : Option Bool → String
renders none = "true"
renders (some true) = "true"
renders (some false) = "false"

abbrev pub given_fields : UiLayout → Layout
given_fields l = set_given "code" l.code (
    set_given "content" l.content (
      set_given "entry" l.entry (
        set_given "wait" l.wait
          (set_given "button" l.button (set_given "label" l.label (insert "type" l.type []))))))

unfoldable pub ui_layout_to_map : UiLayout → Result Layout
ui_layout_to_map l =
    if l.type == ""
    then err invalid_layout
    else if not (l.type == "qrcode")
    then ok (given_fields l)
    else ok (insert "renders_qrcode" (renders l.renders_qrcode) (given_fields l))

unfoldable pub map_to_ui_layout : Layout → UiLayout
map_to_ui_layout layout = record {
  type = value_at "type" layout;
  label = value_at "label" layout;
  button = value_at "button" layout;
  wait = value_at "wait" layout;
  entry = value_at "entry" layout;
  content = value_at "content" layout;
  code = value_at "code" layout;
  renders_qrcode = none;
}

-- What a map that has the fields of the layout gives back.
abbrev pub Returns : UiLayout → Layout → Type 0
Returns l m = map_to_ui_layout m ≡ record l { renders_qrcode = none }

value_at-set_given :
    (key value j : String) (m : Layout)
    → value_at j (set_given key value m)
      ≡ (if key == j then (if value == "" then value_at j m else value) else value_at j m)
unfolding set_given
value_at-set_given key value j m = ground (arith, lookup-insert key j value m)

or_empty_string : (value : String) → (if value == "" then "" else value) ≡ value
or_empty_string value = ground (arith, eq_iff value "")

value_at-insert :
    (key value j : String) (m : Layout)
    → value_at j (insert key value m) ≡ (if key == j then value else value_at j m)
value_at-insert key value j m = ground (arith, lookup-insert key j value m)

value_at-empty : (j : String) → value_at j [] ≡ ""
value_at-empty j = ground (arith, lookup-empty {V = String} j)

fields_returned : (l : UiLayout) → Returns l (given_fields l)
unfolding map_to_ui_layout
fields_returned l = simp (value_at-set_given, value_at-insert, value_at-empty, or_empty_string)

-- the marker is under a key of its own
marked_returned :
    (l : UiLayout) → Returns l (insert "renders_qrcode" (renders l.renders_qrcode) (given_fields l))
unfolding map_to_ui_layout
marked_returned l = simp (value_at-set_given, value_at-insert, value_at-empty, or_empty_string)

-- A layout of a client with a type is turned into a map, and mapToUILayout gives the same layout back
-- from it, only without the flag for drawing QR codes; a layout without a type is refused.
pub ui_layout_to_map_round_trip :
    (l : UiLayout)
    → ((l.type ≡ "") × (ui_layout_to_map l ≡ err invalid_layout))
      ⊎ ((m : Layout) × (ui_layout_to_map l ≡ ok m)
          × (map_to_ui_layout m ≡ record l { renders_qrcode = none }))
unfolding ui_layout_to_map
ui_layout_to_map_round_trip l = elim (Bool-cases (l.type == "")) [
  | inl empty ↦ inl ((eq_iff l.type "").0 empty, ground arith)
  | inr typed ↦ elim (Bool-cases (l.type == "qrcode")) [
    | inl code ↦ inr (
      insert "renders_qrcode" (renders l.renders_qrcode) (given_fields l),
      ground arith,
      marked_returned l,
    )
    | inr other ↦ inr (given_fields l, ground arith, fields_returned l)
  ]
]
