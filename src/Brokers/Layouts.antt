-- ===== src/Brokers/Layouts.antt =====
-- internal/brokers/layouts: the items of a layout's field, as text. A layout is a map of texts.
use Prim.Native.Char.{code}
use Prim.Native.String.{String}
use Prim.Native.String as Str
use authd.Prelude.{ℕ, Option, none, some, List, [], ◌∷◌, map, Dict, nat_eq, ◌==◌, if◌then◌else◌}
use authd.LocalEntries.Text.{split, trim_space}

abbrev pub Layout : Type 0
Layout = Dict String String

-- strings.Cut at one character
unfoldable pub cut : ℕ → String → Option (String × String)
cut sep String.[] = none
cut sep (String.◌∷◌ c s) =
    let rest = cut sep s in
    if code c == sep
    then some (String.[], s)
    else elim rest [ none ↦ none | some (before, after) ↦ some (String.◌∷◌ c before, after) ]

-- strings.Join with a comma
unfoldable pub join : List String → String
join [] = ""
join (item ∷ []) = item
join (item ∷ items) = Str.◌++◌ item (Str.◌++◌ "," (join items))

unfoldable pub build_items : String → List String → String
build_items kind items = Str.◌++◌ kind (Str.◌++◌ ":" (join items))

-- `none` is the nil slice.
unfoldable pub parse_items : String → String × Option (List String)
parse_items items = elim (cut b':' items) [
  | none ↦ ("", none)
  | some (kind, rest) ↦ (kind, some (map trim_space (split b',' rest)))
]
