-- ===== src/Adapter/Conversation/Choices.antt =====
-- The prompt for a choice: the rounds against the script, and what it answers.
use authd.Prelude.{
  ℕ, zero, suc, ◌-◌, ◌≤◌, ◌<◌, ◌≡◌, refl, String, Bool, true, Option, none, some, Option-cases,
  List, [], ◌∷◌, length, any, arith, inl, inr, ◌==◌, string_eq, ==_refl,
}
use authd.Adapter.Messages.{Failure, Choice}
use authd.Adapter.Conversation.{
  Answer, answered, conversation_failed, Conv, Input, Number, prompt_for_numeric_input_until_valid,
  show_text, choice_input, choice_round, choice_rounds, prompt_for_choice, Round, finished, again,
  picked, choice_at,
}

until_valid-lt :
    (g : Bool) (script rest : List Answer) (r : Input Number)
    → prompt_for_numeric_input_until_valid g script ≡ some (r, rest)
    → length rest < length script
unfolding prompt_for_numeric_input_until_valid
until_valid-lt g [] rest r h = cc
until_valid-lt g (a ∷ []) rest r h = ground arith
until_valid-lt g (a ∷ answered text ∷ script) rest r h =
    ground (arith, until_valid-lt g script rest r)
until_valid-lt g (a ∷ conversation_failed f ∷ script) rest r h = ground arith

show_text-lt :
    (script rest : List Answer) (e : Option Failure)
    → show_text script ≡ some (e, rest)
    → length rest < length script
unfolding show_text
show_text-lt [] rest e h = cc
show_text-lt (answered text ∷ script) rest e h = ground arith
show_text-lt (conversation_failed f ∷ script) rest e h = ground arith

choice_input-lt :
    (choices : List Choice) (g : Bool) (script rest : List Answer) (r : Round)
    → choice_input choices (prompt_for_numeric_input_until_valid g) script ≡ some (r, rest)
    → length rest < length script
unfolding choice_input
choice_input-lt choices g script rest r h =
    elim (Option-cases (prompt_for_numeric_input_until_valid g script)) [
      | inl e ↦ ground arith
      | inr (((n, some e), left), p) ↦ ground (arith, until_valid-lt g script left (n, some e))
      | inr (((n, none), left), p) ↦ elim (Option-cases (show_text left)) [
        | inl q ↦ ground (arith, until_valid-lt g script left (n, none))
        | inr ((f, left'), q) ↦
            ground (arith, until_valid-lt g script left (n, none), show_text-lt left left' f)
      ]
    ]

choice_round-lt :
    (g : Bool) (choices : List Choice) (script rest : List Answer) (r : Round)
    → choice_round g choices script ≡ some (r, rest)
    → length rest < length script
unfolding choice_round
choice_round-lt g choices script rest r h = elim (Option-cases (show_text script)) [
  | inl e ↦ ground arith
  | inr ((some f, left), e) ↦ ground (arith, show_text-lt script left (some f))
  | inr ((none, left), e) ↦
      ground (arith, show_text-lt script left none, choice_input-lt choices g left rest r)
]

choice_round-empty : (g : Bool) (choices : List Choice) → choice_round g choices [] ≡ none
unfolding choice_round show_text
choice_round-empty g choices = refl

choice_rounds-fuel :
    (fuel fuel' : ℕ) (g : Bool) (choices : List Choice) (script : List Answer)
    → length script ≤ fuel
    → length script ≤ fuel'
    → choice_rounds fuel g choices script ≡ choice_rounds fuel' g choices script
unfolding choice_rounds
choice_rounds-fuel zero zero g choices script h h' = refl
choice_rounds-fuel zero (suc fuel') g choices [] h h' = ground (arith, choice_round-empty g choices)
choice_rounds-fuel zero (suc fuel') g choices (a ∷ script) h h' = absurd (omega arith)
choice_rounds-fuel (suc fuel) zero g choices [] h h' = ground (arith, choice_round-empty g choices)
choice_rounds-fuel (suc fuel) zero g choices (a ∷ script) h h' = absurd (omega arith)
choice_rounds-fuel (suc fuel) (suc fuel') g choices script h h' =
    elim (Option-cases (choice_round g choices script)) [
      | inl e ↦ ground arith
      | inr ((finished i, rest), e) ↦ ground arith
      | inr ((again, rest), e) ↦ ground (
        arith,
        choice_round-lt g choices script rest again,
        choice_rounds-fuel fuel fuel' g choices rest,
      )
    ]

abbrev IsOffered : List Choice → String → Type 0
IsOffered choices id = any (λ c. c.id == id) choices ≡ true

choice_at-IsOffered :
    (i : ℕ) (choices : List Choice) (c : Choice)
    → choice_at i choices ≡ some c
    → IsOffered choices c.id
choice_at-IsOffered i [] c h = cc
choice_at-IsOffered zero (d ∷ choices) c h = ground (arith, ==_refl c.id)
choice_at-IsOffered (suc i) (d ∷ choices) c h = ground (arith, choice_at-IsOffered i choices c)

picked-IsOffered :
    (choices : List Choice) (n : Number) (id : String)
    → picked choices n ≡ some id
    → IsOffered choices id
picked-IsOffered choices n id h = elim (Option-cases n.value) [
  | inl e ↦ ground arith
  | inr (i, e) ↦ elim (Option-cases (choice_at (i - 1) choices)) [
    | inl q ↦ ground arith
    | inr (c, q) ↦ ground (arith, choice_at-IsOffered (i - 1) choices c)
  ]
]

choice_input-IsOffered :
    (choices : List Choice) (prompt : Conv (Input Number)) (script rest : List Answer) (id : String)
    → choice_input choices prompt script ≡ some (finished (id, none), rest)
    → IsOffered choices id
unfolding choice_input
choice_input-IsOffered choices prompt script rest id h = elim (Option-cases (prompt script)) [
  | inl e ↦ ground arith
  | inr (((n, some x), left), e) ↦ ground arith
  | inr (((n, none), left), e) ↦ elim (Option-cases (picked choices n)) [
    | inl q ↦ ground arith
    | inr (found, q) ↦ ground (arith, picked-IsOffered choices n found)
  ]
]

choice_round-IsOffered :
    (g : Bool) (choices : List Choice) (script rest : List Answer) (id : String)
    → choice_round g choices script ≡ some (finished (id, none), rest)
    → IsOffered choices id
unfolding choice_round
choice_round-IsOffered g choices script rest id h = elim (Option-cases (show_text script)) [
  | inl e ↦ ground arith
  | inr ((some f, left), e) ↦ ground arith
  | inr ((none, left), e) ↦
      ground (
        arith,
        choice_input-IsOffered choices (prompt_for_numeric_input_until_valid g) left rest id,
      )
]

choice_rounds-IsOffered :
    (fuel : ℕ) (g : Bool) (choices : List Choice) (script rest : List Answer) (id : String)
    → choice_rounds fuel g choices script ≡ some ((id, none), rest)
    → IsOffered choices id
unfolding choice_rounds
choice_rounds-IsOffered zero g choices script rest id h = cc
choice_rounds-IsOffered (suc fuel) g choices script rest id h =
    elim (Option-cases (choice_round g choices script)) [
      | inl e ↦ ground arith
      | inr ((finished i, left), e) ↦
          ground (arith, choice_round-IsOffered g choices script left id)
      | inr ((again, left), e) ↦ ground (arith, choice_rounds-IsOffered fuel g choices left rest id)
    ]

-- The prompt for a choice needs no more rounds than the answers that are left, so that more fuel than
-- that changes nothing; and an answer without an error is the ID of one of the choices.
pub prompt_for_choice_ends :
    (fuel : ℕ) (g : Bool) (choices : List Choice) (script : List Answer)
    → length script ≤ fuel
    → (choice_rounds fuel g choices script ≡ prompt_for_choice g choices script)
      × ((id : String) (rest : List Answer)
          → prompt_for_choice g choices script ≡ some ((id, none), rest)
          → any (λ c. c.id == id) choices ≡ true)
unfolding prompt_for_choice
prompt_for_choice_ends fuel g choices script h = (
  choice_rounds-fuel fuel (length script) g choices script h (omega arith),
  λ id rest e. choice_rounds-IsOffered (length script) g choices script rest id e,
)
