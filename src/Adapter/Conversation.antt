-- ===== src/Adapter/Conversation.antt =====
-- The prompts of pam/internal/adapter/nativemodel.go. A conversation consumes a script of what PAM
-- answers; the result none means that the script is used up and the prompt still waits.
pub mod Choices
use Prim.Native.Char.{code}
use Prim.Native.String.{String}
use Prim.Native.String as Str
use authd.Prelude.{
  ℕ, ◌+◌, ◌-◌, ◌*◌, ◌^◌, Bool, true, false, ◌||◌, ◌&&◌, suc, zero, length, leb, ltb, Option, none,
  some, List, [], ◌∷◌, ◌==◌, string_eq, nat_eq, if◌then◌else◌, leb, ltb,
}
use authd.Adapter.Messages.{Failure, Choice}

-- The response of StartStringConvf, or its error.
pub data Answer : Type 0 where
  answered : String → Answer
  conversation_failed : Failure → Answer

abbrev pub Conv : Type 0 → Type 0
Conv A = List Answer → Option (A × List Answer)

-- errGoBack, errEmptyResponse, errNotAnInteger, an error of PAM, and an entry that is not handled
pub data PromptError : Type 0 where
  go_back empty_response not_an_integer unhandled_entry : PromptError
  failure : Failure → PromptError

-- A value beside an error: Go returns both.
abbrev pub Input : Type 0 → Type 0
Input A = A × Option PromptError

unfoldable pub check_for_prompt_reply_validity : Bool → String → Option PromptError
check_for_prompt_reply_validity can_go_back reply =
    if reply == "r"
    then (if can_go_back then some go_back else none)
    else if reply == "" || reply == "\n"
    then some empty_response
    else none

abbrev pub input_of : Bool → Answer → Input String
input_of can_go_back (answered reply) = (reply, check_for_prompt_reply_validity can_go_back reply)
input_of can_go_back (conversation_failed f) = ("", some (failure f))

unfoldable pub prompt_for_input : Bool → Conv (Input String)
prompt_for_input can_go_back [] = none
prompt_for_input can_go_back (a ∷ script) = some (input_of can_go_back a, script)

-- An int of 64 bits: its value, none where it is negative, and how fmt.Sprint writes it.
pub record Number : Type 0 where
  pub value : Option ℕ
  pub text : String

abbrev pub minus_one : Number
minus_one = record { value = none; text = "-1" }

-- the value of the digits after `n`; none at any other character
unfoldable pub digits_value : ℕ → String → Option ℕ
digits_value n String.[] = some n
digits_value n (String.◌∷◌ c s) =
    let rest = digits_value (10 * n + (code c - b'0')) s in
    if leb b'0' (code c) && leb (code c) b'9' then rest else none

abbrev strip_zeros : String → String
strip_zeros String.[] = "0"
strip_zeros (String.◌∷◌ c String.[]) = String.◌∷◌ c String.[]
strip_zeros (String.◌∷◌ c (String.◌∷◌ d s)) =
    let rest = strip_zeros (String.◌∷◌ d s) in
    if code c == b'0' then rest else String.◌∷◌ c (String.◌∷◌ d s)

abbrev signed_number : Bool → String → ℕ → Option Number
signed_number negative digits n =
    if negative
    then (if leb n (2 ^ 63)
        then some (
            if n == 0
            then record { value = some 0; text = "0" }
            else record { value = none; text = Str.◌++◌ "-" (strip_zeros digits) })
        else none)
    else if ltb n (2 ^ 63)
    then some (record { value = some n; text = strip_zeros digits })
    else none

abbrev unsigned : Bool → String → Option Number
unsigned negative digits =
    if digits == ""
    then none
    else elim (digits_value 0 digits) [ none ↦ none | some n ↦ signed_number negative digits n ]

-- strconv.Atoi
unfoldable pub atoi : String → Option Number
atoi String.[] = none
atoi (String.◌∷◌ c s) =
    if code c == b'-'
    then unsigned true s
    else if code c == b'+'
    then unsigned false s
    else unsigned false (String.◌∷◌ c s)

-- The number beside an error is never read.
abbrev numeric : Input String → Input Number
numeric (out, some e) = (minus_one, some e)
numeric (out, none) = elim (atoi out) [
  | none ↦ (minus_one, some not_an_integer)
  | some n ↦ (n, none)
]

-- promptForNumericInput, with the answer that it gets
abbrev pub numeric_input : Bool → Answer → Input Number
numeric_input can_go_back a = numeric (input_of can_go_back a)

abbrev pub is_not_an_integer : Input Number → Bool
is_not_an_integer (n, some not_an_integer) = true
is_not_an_integer _ = false

-- Each round but the last also takes the answer to the error that it shows.
unfoldable pub prompt_for_numeric_input_until_valid : Bool → Conv (Input Number)
prompt_for_numeric_input_until_valid can_go_back [] = none
prompt_for_numeric_input_until_valid can_go_back (a ∷ []) =
    if is_not_an_integer (numeric_input can_go_back a)
    then none
    else some (numeric_input can_go_back a, [])
prompt_for_numeric_input_until_valid can_go_back (a ∷ b ∷ script) =
    elim (is_not_an_integer (numeric_input can_go_back a)) [
      | false ↦ some (numeric_input can_go_back a, b ∷ script)
      | true ↦ elim b [
        | conversation_failed f ↦ some ((minus_one, some (failure f)), script)
        | answered _ ↦ prompt_for_numeric_input_until_valid can_go_back script
      ]
    ]

unfoldable pub prompt_for_numeric_input_as_string : Bool → Conv (Input String)
prompt_for_numeric_input_as_string can_go_back script =
    elim (prompt_for_numeric_input_until_valid can_go_back script) [
      | none ↦ none
      | some ((n, e), rest) ↦ some ((n.text, e), rest)
    ]

-- StartStringConvf with a text that is shown, and its error
unfoldable pub show_text : Conv (Option Failure)
show_text [] = none
show_text (answered _ ∷ script) = some (none, script)
show_text (conversation_failed f ∷ script) = some (some f, script)

-- sendInfo and sendError: an empty text is not shown
unfoldable pub send_text : String → Conv (Option Failure)
send_text text script = if text == "" then some (none, script) else show_text script

abbrev pub choice_at : ℕ → List Choice → Option Choice
choice_at i [] = none
choice_at zero (c ∷ cs) = some c
choice_at (suc i) (c ∷ cs) = choice_at i cs

-- choices[idx-1] where the index is in range
abbrev pub picked : List Choice → Number → Option String
picked choices n = elim n.value [
  | none ↦ none
  | some idx ↦
      if leb 1 idx
      then elim (choice_at (idx - 1) choices) [ none ↦ none | some c ↦ some c.id ]
      else none
]

-- What one round of promptForChoiceWithMessage ends with: the result, or another round.
pub data Round : Type 0 where
  finished : Input String → Round
  again : Round

-- one round, after its text was shown
unfoldable pub choice_input : List Choice → Conv (Input Number) → Conv Round
choice_input choices prompt script = elim (prompt script) [
  | none ↦ none
  | some ((n, some e), rest) ↦ some (finished ("", some e), rest)
  | some ((n, none), rest) ↦ elim (picked choices n) [
    | some id ↦ some (finished (id, none), rest)
    | none ↦ elim (show_text rest) [
      | none ↦ none
      | some (some f, rest') ↦ some (finished ("", some (failure f)), rest')
      | some (none, rest') ↦ some (again, rest')
    ]
  ]
]

unfoldable pub choice_round : Bool → List Choice → Conv Round
unfolding choice_input
choice_round can_go_back choices script = elim (show_text script) [
  | none ↦ none
  | some (some f, rest) ↦ some (finished ("", some (failure f)), rest)
  | some (none, rest) ↦ choice_input choices (prompt_for_numeric_input_until_valid can_go_back) rest
]

-- Each round takes at least two answers, so that the length of the script is fuel enough.
unfoldable pub choice_rounds : ℕ → Bool → List Choice → Conv (Input String)
choice_rounds zero can_go_back choices script = none
choice_rounds (suc fuel) can_go_back choices script =
    elim (choice_round can_go_back choices script) [
      | none ↦ none
      | some (finished r, rest) ↦ some (r, rest)
      | some (again, rest) ↦ choice_rounds fuel can_go_back choices rest
    ]

-- promptForChoiceWithMessage; its texts are left out
unfoldable pub prompt_for_choice : Bool → List Choice → Conv (Input String)
prompt_for_choice can_go_back choices script =
    choice_rounds (length script) can_go_back choices script
