-- ===== src/Ingestion/Tests.antt =====
-- A run on two prices of one product and one of another.
use terracost.Prelude.{ℕ, ◌+◌, String, ◌≡◌, refl, none, some, List, [], ◌∷◌, length, All, mem}
use mathlib.Core.List.{reverse}
use terracost.Errors.{ok}
use terracost.Decimal.{Whole}
use terracost.Dict.{lookup, insert, keys, IsMap}
use terracost.Query.{WithProduct}
use terracost.Ingestion.{Store, ingest_loop, ingest_pricing}
use terracost.Ingestion.Trace.{prices_of, skus_of, item_skus, stored}
use terracost.Ingestion.Stored.{IsAnswer, ingest_pricing-stores}

-- a backend that numbers the products by the calls made before
abbrev counting : Store Whole
counting = record {
  product_id = λ calls p. ok (1 + length calls);
  price_id = λ calls pp. ok (length calls);
}

abbrev item : String → ℕ → WithProduct Whole
item sku value = record {
  price = record {
    id = 0;
    unit = "Hrs";
    currency = "USD";
    value = some value;
    attributes = some [];
  };
  product = record {
    id = 0;
    provider = "aws";
    sku = sku;
    service = "AmazonEC2";
    family = "Storage";
    location = "us-east-1";
    attributes = some [];
  };
}

abbrev three_items : List (WithProduct Whole)
three_items = item "A" 1 ∷ item "B" 2 ∷ item "A" 3 ∷ []

three_items_run : (ingest_pricing counting three_items none).error ≡ none
unfolding ingest_pricing ingest_loop lookup insert
three_items_run = refl

three_ids : (ingest_pricing counting three_items none).ids ≡ ("A", 1) ∷ ("B", 3) ∷ []
unfolding ingest_pricing ingest_loop lookup insert
three_ids = refl

ingest_pricing-stores_example :
    let out = ingest_pricing counting three_items none in
    (stored out.ids three_items [] ≡ some (prices_of out.calls))
    × (skus_of out.calls ≡ reverse (keys out.ids))
    × IsMap out.ids
    × ((sku : String) → mem sku (keys out.ids) ≡ mem sku (item_skus three_items))
    × All (λ e. IsAnswer counting e.0 e.1) out.ids
ingest_pricing-stores_example = ingest_pricing-stores counting three_items none three_items_run
