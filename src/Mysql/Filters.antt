-- ===== src/Mysql/Filters.antt =====
-- mysql/filters.go: the WHERE clause of a filter, with one `?` for each parameter.
use terracost.Prelude.{ℕ, String, not, Option, none, some, List, [], ◌∷◌, ◌++◌, eqb, if◌then◌else◌}
use Prim.Native.String
use terracost.Query.{AttributeFilter, ProductFilter, PriceFilter}

-- A parameter of a statement: a text, or a product's ID.
pub data Param : Type 0 where
  str : String → Param
  number : ℕ → Param

pub record Where : Type 0 where
  pub conditions : List String
  pub params : List Param

infixr 65 ◌<>◌
abbrev pub ◌<>◌ : String → String → String
s <> t = String.◌++◌ s t

-- `strings.Join`
unfoldable pub join : String → List String → String
join sep [] = ""
join sep (s ∷ []) = s
join sep (s ∷ t ∷ ss) = s <> sep <> join sep (t ∷ ss)

-- `Where.String` and `Where.Parameters`
unfoldable pub where_string : Where → String
unfolding join
where_string w = join " AND " w.conditions

unfoldable pub parameters : Where → List Param
parameters w = w.params

-- `&Where{}`
abbrev pub empty_where : Where
empty_where = record { conditions = []; params = [] }

-- `add`, with the one parameter that every caller gives
unfoldable pub add_condition : Where → String → Param → Where
add_condition w condition param = record {
  conditions = w.conditions ++ condition ∷ [];
  params = w.params ++ param ∷ [];
}

-- `for _, fm := range equalFields`
unfoldable pub add_equal_fields : Where → List (String × Option String) → Where
unfolding add_condition
add_equal_fields w [] = w
add_equal_fields w ((key, none) ∷ fields) = add_equal_fields w fields
add_equal_fields w ((key, some val) ∷ fields) =
    add_equal_fields (add_condition w (key <> " = ?") (str val)) fields

abbrev pub add_attribute : Where → String → Option String → Option String → Where
add_attribute w key (some value) regex =
    add_condition w ("JSON_UNQUOTE(JSON_EXTRACT(attributes, '$." <> key <> "')) = ?") (str value)
add_attribute w key none (some regex) =
    add_condition w ("JSON_UNQUOTE(JSON_EXTRACT(attributes, '$." <> key <> "')) RLIKE ?")
      (str regex)
add_attribute w key none none = w

-- `for _, f := range filter.AttributeFilters`
unfoldable pub add_attributes : Where → List AttributeFilter → Where
unfolding add_condition
add_attributes w [] = w
add_attributes w (f ∷ fs) = add_attributes (add_attribute w f.key f.value f.value_regex) fs

-- `equalFields` of a product filter
abbrev pub product_fields : ProductFilter → List (String × Option String)
product_fields filter =
    ("provider", filter.provider)
    ∷ ("location", filter.location)
    ∷ ("service", filter.service)
    ∷ ("family", filter.family)
    ∷ ("sku", filter.sku)
    ∷ []

-- `parseProductFilter`
unfoldable pub parse_product_filter : Option ProductFilter → Where
unfolding add_equal_fields add_attributes
parse_product_filter none = empty_where
parse_product_filter (some filter) =
    add_attributes (add_equal_fields empty_where (product_fields filter)) filter.attribute_filters

abbrev pub product_where : ℕ → Where
product_where product_id =
    if not (eqb product_id 0)
    then add_condition empty_where "product_id = ?" (number product_id)
    else empty_where

-- `equalFields` of a price filter
abbrev pub price_fields : PriceFilter → List (String × Option String)
price_fields filter = ("unit", filter.unit) ∷ ("currency", filter.currency) ∷ []

-- `parsePriceFilter`
unfoldable pub parse_price_filter : Option PriceFilter → ℕ → Where
unfolding add_equal_fields add_attributes add_condition
parse_price_filter none product_id = product_where product_id
parse_price_filter (some filter) product_id =
    add_attributes (add_equal_fields (product_where product_id) (price_fields filter))
      filter.attribute_filters
