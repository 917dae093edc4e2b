-- ===== src/Terraform/Expressions.antt =====
-- terraform/plan.go: `evaluateResourceExpressions` and `isArray`. `format_value` is what fmt makes of a
-- value at `%s`.
use terracost.Prelude.{
  ℕ, ◌+◌, ◌-◌, ◌*◌, String, Bool, true, false, not, ◌&&◌, ◌||◌, Option, none, some, List, [], ◌∷◌,
  ◌==◌, ltb, leb, eqb, if◌then◌else◌, is_some,
}
use Prim.Native.Char.{code}
use Prim.Native.Nat.{◌^◌}
use terracost.Errors.{Error, Run, done, failed, panic, ◌>>>◌, wrap_run, errorf, errorf_at}
use terracost.Dict.{Dict, lookup, insert}
use terracost.Aws.Text.{◌<>◌, split, split_head}
use terracost.Terraform.Json.{
  Json, text, array, object, Items, no_items, item, Fields, no_fields, field, items_of, array_of,
  fields_of, object_of, is_null, is_empty, nth,
}

-- the digits up to a `]` that ends the text, as a number; `seen` says that there was one
abbrev closing : ℕ → Bool → String → Option ℕ
closing acc seen String.[] = none
closing acc seen (String.◌∷◌ c s) =
    let more = closing (acc * 10 + (code c - b'0')) true s in
    if eqb (code c) b']'
    then (if seen && s == "" then some acc else none)
    else if leb b'0' (code c) && leb (code c) b'9'
    then more
    else none

-- the match of `.*\[(?P<position>\d+)\]$`
abbrev position_match : String → Option ℕ
position_match String.[] = none
position_match (String.◌∷◌ c s) =
    let later = position_match s in
    let here = if eqb (code c) b'[' then closing 0 false s else none in
    elim here [ some p ↦ some p | none ↦ later ]

-- `isArray`, where `none` is `0, false`; `Atoi` fails on a number that is no int
unfoldable pub is_array : String → Option ℕ
is_array n = elim (position_match n) [
  | none ↦ none
  | some p ↦ if ltb p (2 ^ 63) then some p else none
]

abbrev pub not_defined : String → Error
not_defined var_name = errorf "required variable %q is not defined" (var_name ∷ [])

-- `va[pos]` of the value of a variable
abbrev element : String → ℕ → Json → Run Json
element var_name pos (array xs) = elim (nth pos (items_of xs)) [
  | some v ↦ done v
  | none ↦ failed (errorf_at "position requested [%d] is out of range for %q" pos (var_name ∷ []))
]
element var_name pos _ = failed (errorf "expecting %q to be an array" (var_name ∷ []))

-- the value that a variable gives at a position, if there is one
abbrev variable_at : String → Option ℕ → Option Json → Run Json
variable_at var_name pos none = failed (not_defined var_name)
variable_at var_name pos (some v) =
    if is_empty v
    then failed (not_defined var_name)
    else elim pos [ none ↦ done v | some i ↦ if is_null v then done v else element var_name i v ]

abbrev pub variable_value : Dict Json → String → Run Json
variable_value variables var_name =
    let pos = is_array var_name in
    let name = if is_some pos then split_head b'[' var_name else var_name in
    variable_at name pos (lookup name variables)

-- `m["references"].([]interface{})`, and `m["constant_value"]` where that is not nil
abbrev pub references : Dict Json → List Json
references m = elim (lookup "references" m) [ some (array xs) ↦ items_of xs | _ ↦ [] ]

abbrev pub constant_value : Dict Json → Option Json
constant_value m = elim (lookup "constant_value" m) [
  | none ↦ none
  | some v ↦ if is_null v then none else some v
]

module _ (format_value : Json → String) where
  -- `refs[1]` for a reference with more than two parts, and `refs[0]` for one with two
  abbrev resource_reference : String → String → List Json → List String → Run Json
  resource_reference prefix r refs [] = done (text (prefix <> "." <> r))
  resource_reference prefix r [] (_ ∷ _) = panic "index out of range"
  resource_reference prefix r (r' ∷ _) (_ ∷ _) = done (text (prefix <> "." <> format_value r'))

  -- the value of a reference; `none` where it is left out
  abbrev pub follow : String → Dict Json → String → List Json → List String → Run (Option Json)
  follow prefix variables r refs (kind ∷ var_name ∷ parts) =
      if kind == "local" || kind == "module" || kind == "data"
      then done none
      else if not (kind == "var")
      then (resource_reference prefix r refs parts >>> λ v. done (some v))
      else (variable_value variables var_name >>> λ v. done (some v))
  follow prefix variables r refs _ = failed (errorf "reference %q has invalid format" (r ∷ []))

  abbrev first_reference : String → Dict Json → List Json → Run (Option Json)
  first_reference prefix variables [] = done none
  first_reference prefix variables (text r ∷ refs) = follow prefix variables r refs (split b'.' r)
  first_reference prefix variables (_ ∷ refs) = panic "interface conversion"

  -- the value of an expression that is a map; `none` where it is left out
  abbrev pub map_value : String → Dict Json → Dict Json → Run (Option Json)
  map_value prefix variables m = elim (constant_value m) [
    | some v ↦ done (some v)
    | none ↦ first_reference prefix variables (references m)
  ]

abbrev pub put_value : String → Option Json → Dict Json → Dict Json
put_value name none values = values
put_value name (some v) values = insert name v values

unfoldable mutual
  -- the loop over the map
  pub evaluate_fields : (Json → String) → String → Dict Json → Fields → Dict Json → Run (Dict Json)
  evaluate_fields fmt prefix variables no_fields values = done values
  evaluate_fields fmt prefix variables (field name ex config) values =
      evaluate_value fmt prefix variables ex >>> λ v.
      evaluate_fields fmt prefix variables config (put_value name v values)

  -- one round of it
  pub evaluate_value : (Json → String) → String → Dict Json → Json → Run (Option Json)
  evaluate_value fmt prefix variables (object m) = map_value fmt prefix variables (fields_of m)
  evaluate_value fmt prefix variables (array a) =
      evaluate_items fmt prefix variables a >>> λ items. done (some (array (array_of items)))
  evaluate_value fmt prefix variables _ = done none

  -- the loop over an array, of which it takes the maps
  pub evaluate_items : (Json → String) → String → Dict Json → Items → Run (List Json)
  evaluate_items fmt prefix variables no_items = done []
  evaluate_items fmt prefix variables (item (object mc) a) =
      wrap_run "failed to evaluateResourceExpressions on array: %w" []
        (evaluate_fields fmt prefix variables mc [])
      >>> λ av.
          evaluate_items fmt prefix variables a >>> λ rest. done (object (object_of av) ∷ rest)
  evaluate_items fmt prefix variables (item _ a) = evaluate_items fmt prefix variables a

-- `evaluateResourceExpressions`
unfoldable pub evaluate_resource_expressions :
    (Json → String) → String → Dict Json → Dict Json → Run (Dict Json)
unfolding evaluate_fields
evaluate_resource_expressions format_value prefix config variables =
    evaluate_fields format_value prefix variables (object_of config) []
