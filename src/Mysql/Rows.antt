-- ===== src/Mysql/Rows.antt =====
-- mysql/product.go and mysql/price.go: how products and prices are written to rows and read back. The
-- text of the attributes is encoding/json's (`marshal`, `unmarshal`), the currency is that of
-- golang.org/x/text (`parse_iso`), and `md5` is crypto/md5's.
pub mod RoundTrip
use terracost.Prelude.{
  ℕ, zero, suc, ◌+◌, ◌-◌, ◌*◌, ◌/◌, ◌%◌, ◌≤◌, ◌<◌, String, ◌≡◌, refl, sym, ap, ◌∙◌, subst, ◌≢◌, ◌↔◌,
  ◌⊎◌, inl, inr, Bool, true, false, not, ◌&&◌, ◌||◌, false≢true, Option, none, some, List, [], ◌∷◌,
  ◌++◌, map, arith, ◌==◌, eq_iff, eq_refl, ltb, leb, eqb, if◌then◌else◌, Bool-cases, Option-cases,
  is_some, length, length-append, All, All-append, List-cases,
}
use terracost.Errors.{Result, ok, err, ◌>>=◌}
use terracost.Dict.{Dict, lookup}
use terracost.Price.Hash.{generate_hash}
use terracost.Query.{Product, Price, WithProduct}

-- A value in a column.
pub data Cell (D : Type 0) : Type 0 where
  str : String → Cell D
  number : ℕ → Cell D
  amount : D → Cell D

-- `dbProduct` and `dbPrice`
pub record DbProduct : Type 0 where
  pub id : ℕ
  pub sku : String
  pub provider : String
  pub service : String
  pub family : String
  pub location : String
  pub attributes : String

pub record DbPrice (D : Type 0) : Type 0 where
  pub id : ℕ
  pub product_id : ℕ
  pub hash : String
  pub currency : String
  pub value : D
  pub unit : String
  pub attributes : String

module _ (unmarshal : String → Option (Dict String)) where
  -- `toDomainEntity`
  unfoldable pub product_entity : DbProduct → Product
  product_entity p = record {
    id = p.id;
    provider = p.provider;
    sku = p.sku;
    service = p.service;
    family = p.family;
    location = p.location;
    attributes = unmarshal p.attributes;
  }

  unfoldable pub price_entity : {D : Type 0} → DbPrice D → Price D
  price_entity p = record {
    id = p.id;
    unit = p.unit;
    currency = p.currency;
    value = p.value;
    attributes = unmarshal p.attributes;
  }

module _ (marshal : Option (Dict String) → Result String) where
  -- `newProduct`
  unfoldable pub db_product : Product → Result DbProduct
  db_product p = marshal p.attributes >>= λ attributes. ok (record {
    id = 0;
    sku = p.sku;
    provider = p.provider;
    service = p.service;
    family = p.family;
    location = p.location;
    attributes = attributes;
  })

  -- `newPrice`
  unfoldable pub db_price :
      {D : Type 0}
      → (String → Result String)
      → (String → String)
      → WithProduct D
      → Result (DbPrice D)
  db_price parse_iso md5 pwp = marshal pwp.price.attributes >>= λ attributes.
      parse_iso pwp.price.currency >>= λ cur. ok (record {
        id = 0;
        product_id = pwp.product.id;
        hash = generate_hash md5 pwp.price;
        currency = cur;
        value = pwp.price.value;
        unit = pwp.price.unit;
        attributes = attributes;
      })

-- the columns and the parameters of the two INSERT statements of `Upsert`
abbrev pub product_insert_columns : List String
product_insert_columns = "provider" ∷ "sku" ∷ "service" ∷ "family" ∷ "location" ∷ "attributes" ∷ []

abbrev pub price_insert_columns : List String
price_insert_columns = "product_id" ∷ "hash" ∷ "currency" ∷ "price" ∷ "unit" ∷ "attributes" ∷ []

-- the type DECIMAL(digits, places) of a column
pub record DecimalType : Type 0 where
  pub digits : ℕ
  pub places : ℕ

-- the type of the column `price`, in mysql/migrations/v0_initial.go
abbrev pub price_type : DecimalType
price_type = record { digits = 24; places = 10 }

-- the columns of the two SELECT statements of `Filter`
abbrev pub product_columns : List String
product_columns = "id" ∷ "provider" ∷ "sku" ∷ "service" ∷ "family" ∷ "location" ∷ "attributes" ∷ []

abbrev pub price_columns : List String
price_columns = "id" ∷ "hash" ∷ "product_id" ∷ "currency" ∷ "price" ∷ "unit" ∷ "attributes" ∷ []

module _ {D : Type 0} where
  unfoldable pub product_params : DbProduct → List (Cell D)
  product_params p =
      str p.provider
      ∷ str p.sku
      ∷ str p.service
      ∷ str p.family
      ∷ str p.location
      ∷ str p.attributes
      ∷ []

  unfoldable pub price_params : DbPrice D → List (Cell D)
  price_params p =
      number p.product_id
      ∷ str p.hash
      ∷ str p.currency
      ∷ amount p.value
      ∷ str p.unit
      ∷ str p.attributes
      ∷ []

  module _ (unmarshal : String → Option (Dict String)) where
    -- `scanProduct` and `scanPrice`, where `none` is the error of `Scan`
    unfoldable pub scan_product : List (Option (Cell D)) → Option Product
    unfolding product_entity
    scan_product
          (some (number id)
            ∷ some (str provider)
            ∷ some (str sku)
            ∷ some (str service)
            ∷ some (str family)
            ∷ some (str location)
            ∷ some (str attributes)
            ∷ []) =
        some (
          product_entity unmarshal (record {
            id = id;
            sku = sku;
            provider = provider;
            service = service;
            family = family;
            location = location;
            attributes = attributes;
          }))
    scan_product _ = none

    unfoldable pub scan_price : List (Option (Cell D)) → Option (Price D)
    unfolding price_entity
    scan_price
          (some (number id)
            ∷ some (str hash)
            ∷ some (number product_id)
            ∷ some (str currency)
            ∷ some (amount value)
            ∷ some (str unit)
            ∷ some (str attributes)
            ∷ []) =
        some (
          price_entity unmarshal (record {
            id = id;
            product_id = product_id;
            hash = hash;
            currency = currency;
            value = value;
            unit = unit;
            attributes = attributes;
          }))
    scan_price _ = none
