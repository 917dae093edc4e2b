-- ===== src/Query.antt =====
-- The packages product, price and query: the records that the other packages exchange.
use terracost.Prelude.{ℕ, String, Bool, Option, List, map}
use terracost.Dict.{Dict}

-- product.AttributeFilter and price.AttributeFilter, which are alike; a nil pointer is `none`
pub record AttributeFilter : Type 0 where
  pub key : String
  pub value : Option String
  pub value_regex : Option String

pub record ProductFilter : Type 0 where
  pub provider : Option String
  pub sku : Option String
  pub service : Option String
  pub family : Option String
  pub location : Option String
  pub attribute_filters : List AttributeFilter

pub record PriceFilter : Type 0 where
  pub unit : Option String
  pub currency : Option String
  pub attribute_filters : List AttributeFilter

-- product.Product; the attributes may be the nil map
pub record Product : Type 0 where
  pub id : ℕ
  pub provider : String
  pub sku : String
  pub service : String
  pub family : String
  pub location : String
  pub attributes : Option (Dict String)

pub record Price (D : Type 0) : Type 0 where
  pub id : ℕ
  pub unit : String
  pub currency : String
  pub value : D
  pub attributes : Option (Dict String)

-- price.WithProduct
pub record WithProduct (D : Type 0) : Type 0 where
  pub price : Price D
  pub product : Product

-- query.Component; the filters are pointers
pub record ComponentQuery (D : Type 0) : Type 0 where
  pub name : String
  pub hourly_quantity : D
  pub monthly_quantity : D
  pub unit : String
  pub details : List String
  pub usage : Bool
  pub product_filter : Option ProductFilter
  pub price_filter : Option PriceFilter

-- query.Resource
pub record ResourceQuery (D : Type 0) : Type 0 where
  pub address : String
  pub provider : String
  pub typ : String
  pub components : List (ComponentQuery D)

-- The addresses of the queries, in their order.
abbrev pub addresses : {D : Type 0} → List (ResourceQuery D) → List String
addresses qs = map (λ q. q.address) qs
