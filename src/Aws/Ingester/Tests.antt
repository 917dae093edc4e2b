-- ===== src/Aws/Ingester/Tests.antt =====
-- A row of an offer file.
use terracost.Prelude.{String, ◌≡◌, refl, some, [], ◌∷◌}
use terracost.Errors.{Result, ok}
use terracost.Dict.{Dict, lookup}
use terracost.Decimal.{Whole}
use terracost.Cost.Resource.{entries}
use terracost.Aws.Region.{text_at}
use terracost.Aws.Ingester.{new_product, new_price_with_product, priced_row}
use terracost.Aws.Ingester.Attributes.{given, new_product-attribute, new_price_with_product-ok}

abbrev row : Dict String
row =
    ("SKU", "X")
    ∷ ("Location", "EU (Paris)")
    ∷ ("Instance Type", "t3.micro")
    ∷ ("PricePerUnit", "0.1")
    ∷ ("TermType", "OnDemand")
    ∷ ("Currency", "USD")
    ∷ []

new_product-attribute_example :
    lookup "InstanceType" (entries (new_product row).attributes)
    ≡ given (text_at "Instance Type" row)
unfolding lookup
new_product-attribute_example = new_product-attribute row "Instance Type" "InstanceType" refl

abbrev the_price : Whole
the_price = some 1

-- a parser that knows one number
abbrev parse_tenth : String → Result Whole
parse_tenth _ = ok (some 1)

new_price_with_product-ok_example :
    (parse_tenth (text_at "PricePerUnit" row) ≡ ok (some 1))
    × (new_product row ≡ new_product row)
    × (lookup "TermType" (entries (priced_row row the_price).price.attributes)
        ≡ given (text_at "TermType" row))
unfolding lookup new_price_with_product
new_price_with_product-ok_example =
    new_price_with_product-ok parse_tenth row (priced_row row the_price) "TermType" "TermType" refl
      refl
