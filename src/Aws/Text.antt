-- ===== src/Aws/Text.antt =====
-- Go's `strings.ToUpper`, on ASCII texts, and `strings.Split` at a one-letter separator.
use terracost.Prelude.{
  ℕ, String, ◌≡◌, refl, Bool, true, false, ◌||◌, List, [], ◌∷◌, ◌==◌, eqb, if◌then◌else◌,
}
use Prim.Native.Char.{Char, code}
use Prim.Native.String

infixr 65 ◌<>◌
abbrev pub ◌<>◌ : String → String → String
s <> t = String.◌++◌ s t

-- `strings.Split(s, sep)[0]`
unfoldable pub split_head : ℕ → String → String
split_head sep String.[] = String.[]
split_head sep (String.◌∷◌ c s) =
    let rest = split_head sep s in if eqb (code c) sep then String.[] else String.◌∷◌ c rest

abbrev extend : Char → List String → List String
extend c [] = String.◌∷◌ c String.[] ∷ []
extend c (part ∷ parts) = String.◌∷◌ c part ∷ parts

-- `strings.Split(s, sep)`
unfoldable pub split : ℕ → String → List String
split sep String.[] = String.[] ∷ []
split sep (String.◌∷◌ c s) =
    let rest = split sep s in if eqb (code c) sep then String.[] ∷ rest else extend c rest

-- `s[0:1]` of a text that is not empty
abbrev pub initial : String → String
initial String.[] = String.[]
initial (String.◌∷◌ c s) = String.◌∷◌ c String.[]

abbrev capitals : List (ℕ × Char)
capitals =
    (b'a', "A")
    ∷ (b'b', "B")
    ∷ (b'c', "C")
    ∷ (b'd', "D")
    ∷ (b'e', "E")
    ∷ (b'f', "F")
    ∷ (b'g', "G")
    ∷ (b'h', "H")
    ∷ (b'i', "I")
    ∷ (b'j', "J")
    ∷ (b'k', "K")
    ∷ (b'l', "L")
    ∷ (b'm', "M")
    ∷ (b'n', "N")
    ∷ (b'o', "O")
    ∷ (b'p', "P")
    ∷ (b'q', "Q")
    ∷ (b'r', "R")
    ∷ (b's', "S")
    ∷ (b't', "T")
    ∷ (b'u', "U")
    ∷ (b'v', "V")
    ∷ (b'w', "W")
    ∷ (b'x', "X")
    ∷ (b'y', "Y")
    ∷ (b'z', "Z")
    ∷ []

capital : List (ℕ × Char) → Char → Char
capital [] c = c
capital ((small, large) ∷ rest) c = if eqb (code c) small then large else capital rest c

unfoldable pub to_upper : String → String
unfolding capital
to_upper String.[] = String.[]
to_upper (String.◌∷◌ c s) = String.◌∷◌ (capital capitals c) (to_upper s)

upper_runs : to_upper (split_head b'-' "us-east-1") ≡ "US"
unfolding to_upper split_head
upper_runs = refl

-- `strings.ToLower`
abbrev smalls : List (ℕ × Char)
smalls =
    (b'A', "a")
    ∷ (b'B', "b")
    ∷ (b'C', "c")
    ∷ (b'D', "d")
    ∷ (b'E', "e")
    ∷ (b'F', "f")
    ∷ (b'G', "g")
    ∷ (b'H', "h")
    ∷ (b'I', "i")
    ∷ (b'J', "j")
    ∷ (b'K', "k")
    ∷ (b'L', "l")
    ∷ (b'M', "m")
    ∷ (b'N', "n")
    ∷ (b'O', "o")
    ∷ (b'P', "p")
    ∷ (b'Q', "q")
    ∷ (b'R', "r")
    ∷ (b'S', "s")
    ∷ (b'T', "t")
    ∷ (b'U', "u")
    ∷ (b'V', "v")
    ∷ (b'W', "w")
    ∷ (b'X', "x")
    ∷ (b'Y', "y")
    ∷ (b'Z', "z")
    ∷ []

unfoldable pub to_lower : String → String
unfolding capital
to_lower String.[] = String.[]
to_lower (String.◌∷◌ c s) = String.◌∷◌ (capital smalls c) (to_lower s)

-- `strings.HasPrefix`, with the prefix first
abbrev pub has_prefix : String → String → Bool
has_prefix String.[] s = true
has_prefix (String.◌∷◌ c prefix) String.[] = false
has_prefix (String.◌∷◌ c prefix) (String.◌∷◌ c' s) =
    let rest = has_prefix prefix s in if eqb (code c) (code c') then rest else false

-- `strings.Contains`, with the part first
abbrev pub contains : String → String → Bool
contains part String.[] = part == ""
contains part (String.◌∷◌ c s) =
    let later = contains part s in has_prefix part (String.◌∷◌ c s) || later
