-- ===== src/Brokers/Validators.antt =====
-- The layout validators of internal/brokers/broker.go. Go ranges over its maps in no fixed order; the
-- association lists fix one, on which only the choice among several errors depends.
pub mod Conforming
use authd.Prelude.{
  String, Bool, true, false, not, ◌&&◌, Option, none, some, List, [], ◌∷◌, Dict, lookup, insert,
  ◌==◌, string_eq, contains, if◌then◌else◌,
}
use authd.Errors.{
  Result, ok, err, ◌>>◌, ◌>>=◌, fail_if, no_validator, unknown_layout, unrecognized_field,
  missing_field, invalid_value,
}
use authd.Brokers.Layouts.{Layout, parse_items}

pub record FieldValidator : Type 0 where
  pub supported_values : Option (List String)
  pub required : Bool

abbrev pub LayoutValidator : Type 0
LayoutValidator = Dict String FieldValidator

unfoldable pub field_validator : String → FieldValidator
field_validator value =
    let (kind, supported_values) = parse_items value in
    record { supported_values = supported_values; required = kind == "required" }

-- the loop over the fields of one layout
unfoldable pub layout_validator : Layout → LayoutValidator
layout_validator [] = []
layout_validator ((key, value) ∷ fields) =
    let rest = layout_validator fields in
    if key == "type" then rest else insert key (field_validator value) rest

-- A layout without a type is ignored, and a later one replaces an earlier one of its type.
unfoldable pub generate_from :
    Dict String LayoutValidator → List Layout → Dict String LayoutValidator
generate_from validators [] = validators
generate_from validators (layout ∷ layouts) = elim (lookup "type" layout) [
  | none ↦ generate_from validators layouts
  | some type ↦ generate_from (insert type (layout_validator layout) validators) layouts
]

unfoldable pub generate_validators : List Layout → Dict String LayoutValidator
generate_validators layouts = generate_from [] layouts

abbrev pub is_some {ℓ} : {A : Type ℓ} → Option A → Bool
is_some none = false
is_some (some _) = true

-- the value that `m[key]` has, empty where the key is missing
abbrev pub value_at : String → Layout → String
value_at key layout = elim (lookup key layout) [ none ↦ "" | some value ↦ value ]

abbrev pub supports : Option (List String) → String → Bool
supports none value = true
supports (some values) value = contains values value

-- every field of the layout is one of the validator's
unfoldable pub check_known : LayoutValidator → Layout → Result (Unit {0})
check_known validator [] = ok tt
check_known validator ((key, value) ∷ fields) =
    let rest = check_known validator fields in
    if key == "type"
    then rest
    else fail_if (not (is_some (lookup key validator))) unrecognized_field >> rest

abbrev pub check_field : Layout → String → FieldValidator → Result (Unit {0})
check_field layout key v =
    if value_at key layout == ""
    then fail_if v.required missing_field
    else fail_if (not (supports v.supported_values (value_at key layout))) invalid_value

unfoldable pub check_fields : Layout → LayoutValidator → Result (Unit {0})
check_fields layout [] = ok tt
check_fields layout ((key, v) ∷ validators) =
    let rest = check_fields layout validators in check_field layout key v >> rest

unfoldable pub validate_ui_layout :
    Dict String (Dict String LayoutValidator) → String → Layout → Result Layout
validate_ui_layout sessions session_id layout = elim (lookup session_id sessions) [
  | none ↦ err no_validator
  | some validators ↦ elim (lookup (value_at "type" layout) validators) [
    | none ↦ err unknown_layout
    | some validator ↦ do check_known validator layout; check_fields layout validator; ok layout
  ]
]
