-- ===== src/Aws/S3.antt =====
-- aws/terraform/s3_bucket.go, s3_bucket_inventory.go and s3_bucket_analytics_configuration.go. Decoding the
-- values is mapstructure's; `greater` and `sub` are `decimal.Decimal`'s `GreaterThan` and `Sub`.
pub mod Tiers
pub mod Tests
use terracost.Prelude.{
  ℕ, zero, suc, ◌+◌, ◌-◌, ◌*◌, ◌/◌, ◌%◌, ◌≤◌, ◌<◌, String, ◌≡◌, refl, sym, ap, ◌∙◌, subst, ◌≢◌, ◌↔◌,
  ◌⊎◌, inl, inr, Bool, true, false, not, ◌&&◌, ◌||◌, false≢true, Option, none, some, List, [], ◌∷◌,
  ◌++◌, map, arith, ◌==◌, eq_iff, eq_refl, ltb, leb, eqb, if◌then◌else◌, Bool-cases, Option-cases,
  is_some, length, length-append, All, All-append, List-cases, mem, mem-append,
}
use terracost.Decimal.{Decimal}
use terracost.Query.{ComponentQuery}
use terracost.Aws.Text.{◌<>◌}
use terracost.Aws.Region.{get_region_to_short_name}
use terracost.Aws.Resources.{
  Float, Provider, by_value, by_regex, product_of, priced_by, on_demand_from,
}

pub record S3Bucket (D : Type 0) : Type 0 where
  pub provider : Provider
  pub region : String
  pub monthly_outbound_data_gb : D
  pub storage_gb : D

pub record S3BucketValues (F : Type 0) : Type 0 where
  pub monthly_outbound_data_gb : F
  pub storage_gb : F

module _ {D F : Type 0} ⦃f : Float F D⦄ where
  -- `newS3Bucket`
  unfoldable pub new_s3_bucket : Provider → S3BucketValues F → S3Bucket D
  new_s3_bucket p vals = record {
    provider = p;
    region = p.region;
    monthly_outbound_data_gb = f.from_float vals.monthly_outbound_data_gb;
    storage_gb = f.from_float vals.storage_gb;
  }

-- the usage type of outbound data
abbrev pub outbound_usage_type : String → String
outbound_usage_type region =
    let short_region = get_region_to_short_name region in
    if not (short_region == "") && not (short_region == "us-east-1")
    then short_region <> "-DataTransfer-Out-Bytes"
    else "DataTransfer-Out-Bytes"

module _ {D : Type 0} ⦃d : Decimal D⦄ where
  -- `S3BucketComponent`
  unfoldable pub s3_bucket_component : S3Bucket D → String → D → ComponentQuery D
  s3_bucket_component v starting_range storage = record {
    name = "Storage " <> starting_range;
    hourly_quantity = d.blank;
    monthly_quantity = storage;
    unit = "GB-Mo";
    details = "Standard" ∷ [];
    usage = true;
    product_filter =
        product_of v.provider.key "AmazonS3" "Storage" v.region
          (by_regex "UsageType" ".*TimedStorage-ByteHrs$" ∷ by_value "VolumeType" "Standard" ∷ []);
    price_filter = priced_by "GB-Mo" (on_demand_from starting_range);
  }

  -- `S3BucketOutboundDataTransferComponent`
  unfoldable pub s3_bucket_outbound_data_transfer_component :
      S3Bucket D → String → D → ComponentQuery D
  s3_bucket_outbound_data_transfer_component v starting_range outbound_gb = record {
    name = "Outbound Data Transfer " <> starting_range;
    hourly_quantity = d.blank;
    monthly_quantity = outbound_gb;
    unit = "GB";
    details = "Outbound" ∷ [];
    usage = true;
    product_filter =
        product_of v.provider.key "AWSDataTransfer" "Data Transfer" ""
          (by_value "UsageType" (outbound_usage_type v.region) ∷ []);
    price_filter = priced_by "GB" (on_demand_from starting_range);
  }

module _ {D : Type 0} ⦃d : Decimal D⦄ (greater : D → D → Bool) (sub : D → D → D) where
  -- the first part of `Components`: the tiers of the storage
  unfoldable pub storage_tiers : S3Bucket D → List (ComponentQuery D)
  unfolding s3_bucket_component
  storage_tiers v =
      if greater v.storage_gb (d.of_int 512000)
      then s3_bucket_component v "0" (d.of_int 51200)
        ∷ s3_bucket_component v "51200" (d.of_int 460800)
        ∷ s3_bucket_component v "512000" (sub v.storage_gb (d.of_int 512000))
        ∷ []
      else if greater v.storage_gb (d.of_int 51200)
      then s3_bucket_component v "0" (d.of_int 51200)
        ∷ s3_bucket_component v "51200" (sub v.storage_gb (d.of_int 51200))
        ∷ []
      else s3_bucket_component v "0" v.storage_gb ∷ []

  -- the second part: the tiers of the outbound data
  unfoldable pub outbound_tiers : S3Bucket D → List (ComponentQuery D)
  unfolding s3_bucket_outbound_data_transfer_component
  outbound_tiers v =
      let out = s3_bucket_outbound_data_transfer_component v in
      let gb = v.monthly_outbound_data_gb in
      if greater gb (d.of_int 153600)
      then out "0" (d.of_int 10240)
        ∷ out "10240" (d.of_int 40960)
        ∷ out "51200" (d.of_int 102400)
        ∷ out "153600" (sub gb (d.of_int 153600))
        ∷ []
      else if greater gb (d.of_int 51200)
      then out "0" (d.of_int 51200)
        ∷ out "10240" (d.of_int 40960)
        ∷ out "51200" (sub gb (d.of_int 51200))
        ∷ []
      else if greater gb (d.of_int 10240)
      then out "0" (d.of_int 51200) ∷ out "10240" (sub gb (d.of_int 10240)) ∷ []
      else out "0" gb ∷ []

  -- `Components`
  unfoldable pub s3_bucket_components : S3Bucket D → List (ComponentQuery D)
  unfolding storage_tiers outbound_tiers
  s3_bucket_components v = storage_tiers v ++ outbound_tiers v

-- `S3BucketInventory` and `S3BucketAnalyticsConfiguration`: the objects are those listed or monitored
pub record S3Objects (D : Type 0) : Type 0 where
  pub provider : Provider
  pub region : String
  pub monthly_objects : D

module _ {F D : Type 0} ⦃f : Float F D⦄ where
  -- `newS3BucketInventory`
  unfoldable pub new_s3_bucket_inventory : Provider → F → S3Objects D
  new_s3_bucket_inventory p monthly_listed_objects = record {
    provider = p;
    region = p.region;
    monthly_objects = f.from_float monthly_listed_objects;
  }

  -- `newS3BucketAnalyticsConfiguration`
  unfoldable pub new_s3_bucket_analytics_configuration : Provider → F → S3Objects D
  new_s3_bucket_analytics_configuration p monthly_monitored_objects = record {
    provider = p;
    region = p.region;
    monthly_objects = f.from_float monthly_monitored_objects;
  }

module _ {D : Type 0} ⦃d : Decimal D⦄ where
  -- `s3BucketInventoryComponent`
  unfoldable pub s3_bucket_inventory_component : S3Objects D → ComponentQuery D
  s3_bucket_inventory_component v = record {
    name = "Objects listed";
    hourly_quantity = d.blank;
    monthly_quantity = v.monthly_objects;
    unit = "Objects";
    details = "Listed" ∷ [];
    usage = true;
    product_filter =
        product_of v.provider.key "AmazonS3" "Fee" v.region
          (by_regex "UsageType" ".*Inventory-ObjectsListed$" ∷ []);
    price_filter = priced_by "Objects" (on_demand_from "0");
  }

  -- `s3BucketAnalyticsConfigurationComponent`
  unfoldable pub s3_bucket_analytics_configuration_component : S3Objects D → ComponentQuery D
  s3_bucket_analytics_configuration_component v = record {
    name = "Objects monitored";
    hourly_quantity = d.blank;
    monthly_quantity = v.monthly_objects;
    unit = "Objects";
    details = "Monitored" ∷ [];
    usage = true;
    product_filter =
        product_of v.provider.key "AmazonS3" "Fee" v.region
          (by_regex "UsageType" ".*StorageAnalytics-ObjCount$" ∷ []);
    price_filter = priced_by "Objects" (on_demand_from "0");
  }
