-- ===== src/Mysql/Tests.antt =====
-- The clauses of two filters, and rows that are written and read.
use Prim.Native.Nat.{◌^◌}
use terracost.Prelude.{◌<◌, arith, String, ◌≡◌, refl, sym, ◌∙◌, Option, none, some, [], ◌∷◌, length}
use terracost.Query.{AttributeFilter, ProductFilter, PriceFilter}
use terracost.Errors.{Result, ok}
use terracost.Dict.{Dict}
use terracost.Decimal.{Whole, whole, whole_decimal, ℕ_numbers, Whole-IsExact, whole_fits, num-whole}
use terracost.Query.{Product, WithProduct}
use terracost.Mysql.Rows.{
  DecimalType, DbProduct, DbPrice, db_product, db_price, product_params, price_params,
  product_columns, price_columns, product_insert_columns, price_insert_columns, scan_product,
  scan_price,
}
use terracost.Mysql.Rows.RoundTrip.{inserted, selected, product_round_trip, price_round_trip}
use terracost.Price.Hash.{generate_hash, hashed_text}
use terracost.Cost.Plan.{sort_strings}
use terracost.Mysql.Filters.{
  join, where_string, parameters, add_condition, add_equal_fields, add_attributes,
  parse_product_filter, parse_price_filter,
}
use terracost.Mysql.Placeholders.{placeholders, product_placeholders, price_placeholders}

abbrev term_type : AttributeFilter
term_type = record { key = "TermType"; value = some "OnDemand"; value_regex = none }

abbrev usage_type : AttributeFilter
usage_type = record { key = "UsageType"; value = none; value_regex = some "^EBS" }

abbrev disks : ProductFilter
disks = record {
  provider = some "aws";
  sku = none;
  service = none;
  family = some "Storage";
  location = none;
  attribute_filters = usage_type ∷ [];
}

abbrev hourly_price : PriceFilter
hourly_price = record { unit = some "Hrs"; currency = none; attribute_filters = term_type ∷ [] }

hourly_price_runs :
    where_string (parse_price_filter (some hourly_price) 3)
    ≡ "product_id = ? AND unit = ? AND JSON_UNQUOTE(JSON_EXTRACT(attributes, '$.TermType')) = ?"
unfolding where_string join parse_price_filter add_equal_fields add_attributes add_condition
hourly_price_runs = refl

product_placeholders_example :
    placeholders (where_string (parse_product_filter (some disks)))
    ≡ length (parameters (parse_product_filter (some disks)))
product_placeholders_example = product_placeholders disks (refl, tt)

price_placeholders_example :
    placeholders (where_string (parse_price_filter (some hourly_price) 3))
    ≡ length (parameters (parse_price_filter (some hourly_price) 3))
price_placeholders_example = price_placeholders hourly_price 3 (refl, tt)

-- JSON of the empty map
abbrev write_map : Option (Dict String) → Result String
write_map _ = ok "{}"

abbrev read_map : String → Option (Dict String)
read_map _ = some []

abbrev volume : Product
volume = record {
  id = 0;
  provider = "aws";
  sku = "GP3";
  service = "AmazonEC2";
  family = "Storage";
  location = "eu-west-3";
  attributes = some [];
}

abbrev volume_row : DbProduct
volume_row = record {
  id = 0;
  sku = "GP3";
  provider = "aws";
  service = "AmazonEC2";
  family = "Storage";
  location = "eu-west-3";
  attributes = "{}";
}

volume_written : db_product write_map volume ≡ ok volume_row
unfolding db_product
volume_written = refl

-- a column that gives back the number in a struct that is never blank
abbrev new_struct : DecimalType → Whole → Whole
new_struct t a = some (whole a)

product_round_trip_example :
    scan_product read_map (
      selected product_columns
        (inserted new_struct 5 product_insert_columns (product_params volume_row)))
    ≡ some (record volume { id = 5 })
product_round_trip_example =
    product_round_trip new_struct write_map read_map volume volume_row 5 refl volume_written

abbrev volume_price : WithProduct Whole
volume_price = record {
  price = record { id = 0; unit = "GB-Mo"; currency = "USD"; value = some 2; attributes = some [] };
  product = volume;
}

abbrev price_row : DbPrice Whole
price_row = record {
  id = 0;
  product_id = 0;
  hash = "GB-Mo-USD";
  currency = "USD";
  value = some 2;
  unit = "GB-Mo";
  attributes = "{}";
}

abbrev some_hash : String → String
some_hash s = s

abbrev parse_any : String → Result String
parse_any s = ok s

price_written : db_price write_map parse_any some_hash volume_price ≡ ok price_row
unfolding db_price generate_hash hashed_text join sort_strings
price_written = refl

price_round_trip_example :
    (value : Whole) × (scan_price read_map (
        selected price_columns
          (inserted new_struct 9 price_insert_columns (price_params price_row)))
      ≡ some (record volume_price.price { id = 9; value = value }))
    × (Whole-IsExact.num value ≡ Whole-IsExact.num (some 2))
price_round_trip_example =
    price_round_trip Whole-IsExact (λ n q. q < 10 ^ n) new_struct
      (λ t a fits below. num-whole (new_struct t a) ∙ sym (num-whole a)) write_map read_map
      parse_any some_hash volume_price price_row 9 refl refl (whole_fits (some 2) 10)
      (rw (num-whole (some 2)) (omega arith)) price_written
