-- ===== src/Brokers/Validators/Conforming.antt =====
-- What the layouts are that validateUILayout of internal/brokers/broker.go lets through.
use authd.Prelude.{
  ◌≡◌, refl, String, true, false, some, [], ◌∷◌, Dict, lookup, ◌==◌, string_eq, arith, Bool-cases,
  inl, inr, eq_iff, Distinct, ◌↔◌, subst, some-eq, Option-cases,
}
use authd.Errors.{ok, Result-cases, >>=-eq-ok}
use authd.Brokers.Layouts.{Layout}
use authd.Brokers.Validators.{
  FieldValidator, LayoutValidator, is_some, value_at, supports, check_known, check_field,
  check_fields, validate_ui_layout,
}

-- A required field has a value, and a value is one of those supported.
abbrev pub Allowed : Layout → String → FieldValidator → Type 0
Allowed layout key v =
    (v.required ≡ true → (value_at key layout == "") ≡ false)
    × ((value_at key layout == "") ≡ false
        → supports v.supported_values (value_at key layout) ≡ true)

pub record Conforms (validator : LayoutValidator) (layout : Layout) : Type 0 where
  pub known :
      (key value : String)
      → lookup key layout ≡ some value
      → (key == "type") ≡ false
      → is_some (lookup key validator) ≡ true
  pub allowed :
      (key : String) (v : FieldValidator) → lookup key validator ≡ some v → Allowed layout key v

check_known_sound :
    (validator : LayoutValidator) (layout : Layout) (key value : String)
    → check_known validator layout ≡ ok tt
    → lookup key layout ≡ some value
    → (key == "type") ≡ false
    → is_some (lookup key validator) ≡ true
unfolding check_known lookup
check_known_sound validator [] key value h there other = ground arith
check_known_sound validator ((j, w) ∷ fields) key value h there other =
    ground (arith, eq_iff j key, eq_iff j "type", check_known_sound validator fields key value)

check_known_complete :
    (validator : LayoutValidator) (layout : Layout)
    → Distinct layout
    → ((key value : String)
        → lookup key layout ≡ some value
        → (key == "type") ≡ false
        → is_some (lookup key validator) ≡ true)
    → check_known validator layout ≡ ok tt
unfolding check_known lookup
check_known_complete validator [] d h = refl
check_known_complete validator ((j, w) ∷ fields) d h =
    let rest =
      check_known_complete validator fields d.1
        λ key value there other. h key value (ground (arith, eq_iff j key)) other in
    ground (arith, eq_iff j j, h j w)

check_field-Allowed :
    (layout : Layout) (key : String) (v : FieldValidator)
    → (check_field layout key v ≡ ok tt) ↔ Allowed layout key v
check_field-Allowed layout key v = ground arith

check_fields_sound :
    (layout : Layout) (validator : LayoutValidator) (key : String) (v : FieldValidator)
    → check_fields layout validator ≡ ok tt
    → lookup key validator ≡ some v
    → check_field layout key v ≡ ok tt
unfolding check_fields lookup
check_fields_sound layout [] key v h there = ground arith
check_fields_sound layout ((j, w) ∷ validators) key v h there =
    let (_, first, rest) =
      >>=-eq-ok (check_field layout j w) (λ _. check_fields layout validators) tt h in
    elim (Bool-cases (j == key)) [
      | inl same ↦
          subst (λ k. check_field layout k v ≡ ok tt) ((eq_iff j key).0 same)
            (subst (λ x. check_field layout j x ≡ ok tt) (some-eq w v (ground arith)) first)
      | inr other ↦ check_fields_sound layout validators key v rest (ground arith)
    ]

check_fields_complete :
    (layout : Layout) (validator : LayoutValidator)
    → Distinct validator
    → ((key : String) (v : FieldValidator)
        → lookup key validator ≡ some v
        → check_field layout key v ≡ ok tt)
    → check_fields layout validator ≡ ok tt
unfolding check_fields lookup
check_fields_complete layout [] d h = refl
check_fields_complete layout ((j, w) ∷ validators) d h =
    let rest =
      check_fields_complete layout validators d.1
        λ key v there. h key v (ground (arith, eq_iff j key)) in
    ground (arith, eq_iff j j, h j w)

checks-Conforms :
    (validator : LayoutValidator) (layout : Layout)
    → Distinct validator
    → Distinct layout
    → ((check_known validator layout ≡ ok tt) × (check_fields layout validator ≡ ok tt))
      ↔ Conforms validator layout
checks-Conforms validator layout d e = (
  λ passed. record {
    known = λ key value. check_known_sound validator layout key value passed.0;
    allowed = λ key v there.
        (check_field-Allowed layout key v).0
          (check_fields_sound layout validator key v passed.1 there);
  },
  λ c. (
    check_known_complete validator layout e c.known,
    check_fields_complete layout validator d
        λ key v there. (check_field-Allowed layout key v).1 (c.allowed key v there),
  ),
)

-- The session has a validator for the layout's type, and the layout conforms to it.
abbrev pub IsAccepted : Dict String (Dict String LayoutValidator) → String → Layout → Type 0
IsAccepted sessions session_id layout =
    (validators : Dict String LayoutValidator) × (validator : LayoutValidator) × (lookup session_id
        sessions
      ≡ some validators)
    × (lookup (value_at "type" layout) validators ≡ some validator)
    × Conforms validator layout

accepted :
    (sessions : Dict String (Dict String LayoutValidator)) (session_id : String)
    (layout result : Layout)
    → validate_ui_layout sessions session_id layout ≡ ok result
    → (validators : Dict String LayoutValidator) × (validator : LayoutValidator) × (lookup
          session_id sessions
        ≡ some validators)
      × (lookup (value_at "type" layout) validators ≡ some validator)
      × (check_known validator layout ≡ ok tt)
      × (check_fields layout validator ≡ ok tt)
      × (layout ≡ result)
unfolding validate_ui_layout
accepted sessions session_id layout result h = elim (Option-cases (lookup session_id sessions)) [
  | inl e ↦ ground arith
  | inr (validators, e) ↦ elim (Option-cases (lookup (value_at "type" layout) validators)) [
    | inl e' ↦ ground arith
    | inr (validator, e') ↦
        let (known, fields, same) : (check_known validator layout ≡ ok tt)
            × (check_fields layout validator ≡ ok tt)
            × (layout ≡ result) =
          ground (
            arith,
            Result-cases (check_known validator layout),
            Result-cases (check_fields layout validator),
          ) in
        (validators, validator, e, e', known, fields, same)
  ]
]

-- Where no field stands twice in the layout, nor in a validator that the session has for its type:
-- validateUILayout returns a result if and only if that is the layout itself, the session has a
-- validator for the layout's type, each other field of the layout is a field of that validator, each
-- required field has a value that is not empty, and each value that is not empty is one of those
-- supported where a list of them is given.
pub validate_ui_layout-Conforms :
    (sessions : Dict String (Dict String LayoutValidator)) (session_id : String)
    (layout result : Layout)
    → ((validators : Dict String LayoutValidator) (validator : LayoutValidator)
        → lookup session_id sessions ≡ some validators
        → lookup (value_at "type" layout) validators ≡ some validator
        → Distinct validator)
    → Distinct layout
    → (validate_ui_layout sessions session_id layout ≡ ok result)
      ↔ ((layout ≡ result) × IsAccepted sessions session_id layout)
unfolding validate_ui_layout
validate_ui_layout-Conforms sessions session_id layout result d e = (
  λ h.
      let (validators, validator, session, typed, known, fields, same) =
        accepted sessions session_id layout result h in
      (
        same,
        (
          validators,
          validator,
          session,
          typed,
          (checks-Conforms validator layout (d validators validator session typed) e).0
              (known, fields),
        ),
      ),
  λ (same, (validators, validator, session, typed, c)).
      let (known, fields) =
        (checks-Conforms validator layout (d validators validator session typed) e).1 c in
      ground arith,
)
