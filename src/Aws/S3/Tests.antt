-- ===== src/Aws/S3/Tests.antt =====
-- A bucket with 600,000 GB of storage and 20,000 GB of outbound data.
use terracost.Prelude.{ℕ, ◌+◌, ◌≡◌, refl, some, List}
use terracost.Decimal.{
  Whole, whole_decimal, ℕ_numbers, Whole-IsExact, above, minus, whole_of_int, whole_minus,
}
use terracost.Query.{ComponentQuery}
use terracost.Dict.{lookup}
use terracost.Aws.Region.{get_region_to_short_name}
use terracost.Aws.S3.{S3Bucket, storage_tiers, outbound_tiers, outbound_usage_type}
use terracost.Aws.S3.Tiers.{total_quantity, counted_twice, tiers-total_quantity}

abbrev bucket : S3Bucket Whole
bucket = record {
  provider = record { key = "aws"; region = "us-east-1" };
  region = "us-east-1";
  monthly_outbound_data_gb = some 20000;
  storage_gb = some 600000;
}

abbrev total : List (ComponentQuery Whole) → ℕ
total = total_quantity Whole-IsExact

tiers-total_quantity_example :
    (total (storage_tiers above minus bucket) ≡ Whole-IsExact.num bucket.storage_gb)
    × (total (outbound_tiers above minus bucket)
        ≡ Whole-IsExact.num bucket.monthly_outbound_data_gb
          + counted_twice (λ k. k) above bucket.monthly_outbound_data_gb)
tiers-total_quantity_example =
    tiers-total_quantity Whole-IsExact (λ k. k) whole_of_int (λ j k. refl) above minus whole_minus
      bucket

-- The comment on the usage type of us-east-1 wants no short name in front of it.
us_east_runs : outbound_usage_type "us-east-1" ≡ "US-DataTransfer-Out-Bytes"
unfolding get_region_to_short_name lookup
us_east_runs = refl
