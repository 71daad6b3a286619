-- ===== src/LocalEntries/Text.antt =====
-- Go's strings.TrimSpace and strings.Split, as internal/users/localentries and internal/brokers use them.
use Prim.Native.Char.{Char, code}
use Prim.Native.String.{String}
use authd.Prelude.{
  ℕ, ◌≡◌, refl, Bool, true, false, ◌&&◌, ◌||◌, List, [], ◌∷◌, ◌==◌, nat_eq, leb, if◌then◌else◌,
}

-- unicode.IsSpace
unfoldable pub is_space : ℕ → Bool
is_space c =
    (leb 9 c && leb c 13)
    || c == 32
    || c == 0x85
    || c == 0xa0
    || c == 0x1680
    || (leb 0x2000 c && leb c 0x200a)
    || c == 0x2028
    || c == 0x2029
    || c == 0x202f
    || c == 0x205f
    || c == 0x3000

unfoldable pub trim_left : String → String
unfolding is_space
trim_left String.[] = String.[]
trim_left (String.◌∷◌ c s) =
    let rest = trim_left s in if is_space (code c) then rest else String.◌∷◌ c s

is_empty : String → Bool
is_empty String.[] = true
is_empty (String.◌∷◌ _ _) = false

-- A character stays if something stays behind it or it is no space.
unfoldable pub trim_right : String → String
unfolding is_space is_empty
trim_right String.[] = String.[]
trim_right (String.◌∷◌ c s) =
    let rest = trim_right s in
    if is_empty rest && is_space (code c) then String.[] else String.◌∷◌ c rest

unfoldable pub trim_space : String → String
unfolding trim_left trim_right
trim_space s = trim_right (trim_left s)

abbrev cons_first : Char → List String → List String
cons_first c [] = String.◌∷◌ c String.[] ∷ []
cons_first c (s ∷ rest) = String.◌∷◌ c s ∷ rest

-- Split at each `sep`; a text without it is one part.
unfoldable pub split : ℕ → String → List String
split sep String.[] = String.[] ∷ []
split sep (String.◌∷◌ c s) =
    let rest = split sep s in if code c == sep then String.[] ∷ rest else cons_first c rest

split_line : split b':' (trim_space "  sudo:x:27:ann,bob ") ≡ "sudo" ∷ "x" ∷ "27" ∷ "ann,bob" ∷ []
unfolding split trim_space
split_line = refl
