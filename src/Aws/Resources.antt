-- ===== src/Aws/Resources.antt =====
-- aws/terraform/provider.go: the provider, and what the resources' files share.
use terracost.Prelude.{String, Bool, not, Option, none, some, List, [], ◌∷◌, if◌then◌else◌}
use terracost.Errors.{Result, ok, err, errorf}
use terracost.Aws.Region.{new_from_zone, valid}
use terracost.Query.{AttributeFilter, ProductFilter, PriceFilter}

-- `float64`, of which the code tests the sign before it makes a decimal of it
pub record Float (F D : Type 0) : Type 0 where
  pub zero_float : F
  -- `x > 0`
  pub positive : F → Bool
  -- `decimal.NewFromFloat`
  pub from_float : F → D

-- `Provider`
pub record Provider : Type 0 where
  pub key : String
  pub region : String

-- `NewProvider`
unfoldable pub new_provider : String → String → Result Provider
new_provider key region_code =
    if not (valid region_code)
    then err (errorf "invalid AWS region: %q" (region_code ∷ []))
    else ok (record { key = key; region = region_code })

-- `if reg := region.NewFromZone(zone); reg.Valid() { … = reg }`
abbrev pub zone_region : Provider → String → String
zone_region p zone = let reg = new_from_zone zone in if valid reg then reg else p.region

-- an attribute filter by value, and one by regular expression
abbrev pub by_value : String → String → AttributeFilter
by_value key v = record { key = key; value = some v; value_regex = none }

abbrev pub by_regex : String → String → AttributeFilter
by_regex key r = record { key = key; value = none; value_regex = some r }

-- the filter of a component's product: the provider's key, the service, the family and the region
abbrev pub product_of :
    String → String → String → String → List AttributeFilter → Option ProductFilter
product_of key service family location filters = some (record {
  provider = some key;
  sku = none;
  service = some service;
  family = some family;
  location = some location;
  attribute_filters = filters;
})

-- the filter of its price, by unit
abbrev pub priced_by : String → List AttributeFilter → Option PriceFilter
priced_by unit filters =
    some (record { unit = some unit; currency = none; attribute_filters = filters })

abbrev pub on_demand : List AttributeFilter
on_demand = by_value "TermType" "OnDemand" ∷ []

abbrev pub on_demand_from : String → List AttributeFilter
on_demand_from range = by_value "TermType" "OnDemand" ∷ by_value "StartingRange" range ∷ []
