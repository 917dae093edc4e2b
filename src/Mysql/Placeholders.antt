-- ===== src/Mysql/Placeholders.antt =====
-- The placeholders of a WHERE clause are as many as its parameters.
use terracost.Prelude.{
  ℕ, ◌+◌, String, ◌≡◌, refl, ◌∙◌, Option, none, some, List, [], ◌∷◌, ◌++◌, arith, eqb,
  if◌then◌else◌, length, length-append, All,
}
use Prim.Native.Char.{code}
use text.Mathlib.TextLemmas.{cons-append, nil-append}
use terracost.Query.{AttributeFilter, ProductFilter, PriceFilter}
use terracost.Mysql.Filters.{
  product_fields, price_fields, Param, str, Where, ◌<>◌, join, where_string, parameters,
  empty_where, add_condition, add_equal_fields, add_attribute, add_attributes, parse_product_filter,
  parse_price_filter, product_where,
}

-- The `?` of a statement.
abbrev pub placeholders : String → ℕ
placeholders String.[] = 0
placeholders (String.◌∷◌ c s) = (if eqb (code c) b'?' then 1 else 0) + placeholders s

pub placeholders-append : (s t : String) → placeholders (s <> t) ≡ placeholders s + placeholders t
placeholders-append String.[] t = rw nil-append (omega arith)
placeholders-append (String.◌∷◌ c s) t = rw cons-append (omega (arith, placeholders-append s t))

abbrev pub total : List String → ℕ
total [] = 0
total (s ∷ ss) = placeholders s + total ss

total-append : (ss ts : List String) → total (ss ++ ts) ≡ total ss + total ts
total-append [] ts = omega arith
total-append (s ∷ ss) ts = omega (arith, total-append ss ts)

placeholders-join : (ss : List String) → placeholders (join " AND " ss) ≡ total ss
unfolding join
placeholders-join [] = refl
placeholders-join (s ∷ []) = omega arith
placeholders-join (s ∷ t ∷ ss) =
    rw (placeholders-append, placeholders-append) (omega (arith, placeholders-join (t ∷ ss)))

-- Every condition so far has one placeholder.
abbrev IsBound : Where → Type 0
IsBound w = total w.conditions ≡ length w.params

add_condition-IsBound :
    (w : Where) (c : String) (p : Param)
    → placeholders c ≡ 1
    → IsBound w
    → IsBound (add_condition w c p)
unfolding add_condition
add_condition-IsBound w c p one h =
    omega (arith, total-append w.conditions (c ∷ []), length-append w.params (p ∷ []))

-- The column names have no placeholder.
abbrev ArePlain : List (String × Option String) → Type 0
ArePlain = All λ f. placeholders f.0 ≡ 0

-- No attribute's key, which goes into the text of the statement, has a placeholder.
abbrev pub ArePlainKeys : List AttributeFilter → Type 0
ArePlainKeys = All λ f. placeholders f.key ≡ 0

add_equal_fields-IsBound :
    (w : Where) (fields : List (String × Option String))
    → ArePlain fields
    → IsBound w
    → IsBound (add_equal_fields w fields)
unfolding add_equal_fields
add_equal_fields-IsBound w [] p h = h
add_equal_fields-IsBound w ((key, none) ∷ fields) (_, p) h = add_equal_fields-IsBound w fields p h
add_equal_fields-IsBound w ((key, some val) ∷ fields) (q, p) h =
    add_equal_fields-IsBound (add_condition w (key <> " = ?") (str val)) fields p
      (add_condition-IsBound w (key <> " = ?") (str val) (rw placeholders-append (omega arith)) h)

add_attribute-IsBound :
    (w : Where) (key : String) (value regex : Option String)
    → placeholders key ≡ 0
    → IsBound w
    → IsBound (add_attribute w key value regex)
add_attribute-IsBound w key (some v) r q h =
    add_condition-IsBound w _ (str v) (rw (placeholders-append, placeholders-append) (omega arith))
      h
add_attribute-IsBound w key none (some r) q h =
    add_condition-IsBound w _ (str r) (rw (placeholders-append, placeholders-append) (omega arith))
      h
add_attribute-IsBound w key none none q h = h

add_attributes-IsBound :
    (w : Where) (fs : List AttributeFilter)
    → ArePlainKeys fs
    → IsBound w
    → IsBound (add_attributes w fs)
unfolding add_attributes
add_attributes-IsBound w [] p h = h
add_attributes-IsBound w (f ∷ fs) (q, p) h =
    add_attributes-IsBound (add_attribute w f.key f.value f.value_regex) fs p
      (add_attribute-IsBound w f.key f.value f.value_regex q h)

-- The text of a product filter's clause has as many placeholders as there are parameters, if no
-- attribute's key has one.
pub product_placeholders :
    (filter : ProductFilter)
    → ArePlainKeys filter.attribute_filters
    → let w = parse_product_filter (some filter) in
      placeholders (where_string w) ≡ length (parameters w)
unfolding parse_product_filter where_string parameters
product_placeholders filter p =
    placeholders-join _
    ∙ add_attributes-IsBound _ filter.attribute_filters p
        (add_equal_fields-IsBound empty_where (product_fields filter) (omega arith) refl)

product_where-IsBound : (i : ℕ) → IsBound (product_where i)
unfolding add_condition
product_where-IsBound i = ground arith

-- The text of a price filter's clause has as many placeholders as there are parameters, if no
-- attribute's key has one.
pub price_placeholders :
    (filter : PriceFilter) (product_id : ℕ)
    → ArePlainKeys filter.attribute_filters
    → let w = parse_price_filter (some filter) product_id in
      placeholders (where_string w) ≡ length (parameters w)
unfolding parse_price_filter where_string parameters
price_placeholders filter product_id p =
    placeholders-join _
    ∙ add_attributes-IsBound _ filter.attribute_filters p (
        add_equal_fields-IsBound (product_where product_id) (price_fields filter) (omega arith)
          (product_where-IsBound product_id))
