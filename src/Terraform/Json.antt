-- ===== src/Terraform/Json.antt =====
-- The values of encoding/json, `interface{}` in the plan's fields. A number is a float64, by its bits.
use terracost.Prelude.{
  ℕ, ◌-◌, String, Bool, true, false, Option, none, some, List, [], ◌∷◌, ◌==◌, eqb, if◌then◌else◌,
}
use terracost.Dict.{Dict}

mutual
  pub data Json : Type 0 where
    null : Json
    text : String → Json
    boolean : Bool → Json
    number : ℕ → Json
    array : Items → Json
    object : Fields → Json

  pub data Items : Type 0 where
    no_items : Items
    item : Json → Items → Items

  pub data Fields : Type 0 where
    no_fields : Fields
    field : String → Json → Fields → Fields

-- The lists of a value, as `Dict` and `List` have them.
abbrev pub items_of : Items → List Json
items_of no_items = []
items_of (item j xs) = j ∷ items_of xs

abbrev pub array_of : List Json → Items
array_of [] = no_items
array_of (j ∷ js) = item j (array_of js)

abbrev pub fields_of : Fields → Dict Json
fields_of no_fields = []
fields_of (field k j fs) = (k, j) ∷ fields_of fs

abbrev pub object_of : Dict Json → Fields
object_of [] = no_fields
object_of ((k, j) ∷ m) = field k j (object_of m)

-- `v == nil`
abbrev pub is_null : Json → Bool
is_null null = true
is_null _ = false

-- `v == ""`
abbrev pub is_empty : Json → Bool
is_empty (text s) = s == ""
is_empty _ = false

-- `l[i]`, where `none` is an index out of range
abbrev pub nth {ℓ} : {A : Type ℓ} → ℕ → List A → Option A
nth i [] = none
nth i (x ∷ xs) = if eqb i 0 then some x else nth (i - 1) xs

-- `l[i] = x` at an index that is there
abbrev pub set_at {ℓ} : {A : Type ℓ} → ℕ → A → List A → List A
set_at i x [] = []
set_at i x (y ∷ ys) = if eqb i 0 then x ∷ ys else y ∷ set_at (i - 1) x ys
