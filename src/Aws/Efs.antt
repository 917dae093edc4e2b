-- ===== src/Aws/Efs.antt =====
-- aws/terraform/efs_file_system.go: EFS file systems. Decoding the values is mapstructure's; `greater`,
-- `sub`, `div` and `is_positive` are `decimal.Decimal`'s.
use terracost.Prelude.{
  String, Bool, true, false, not, ◌&&◌, none, List, [], ◌∷◌, ◌++◌, ◌==◌, if◌then◌else◌,
}
use terracost.Decimal.{Decimal}
use terracost.Query.{ComponentQuery}
use terracost.Aws.Text.{◌<>◌}
use terracost.Aws.Region.{new_from_zone, valid}
use terracost.Aws.Resources.{Float, Provider, zone_region, by_value, by_regex, product_of}

pub record EfsFileSystem (D : Type 0) : Type 0 where
  pub provider : Provider
  pub region : String
  pub availability_zone_name : String
  pub throughput_mode : String
  pub provisioned_throughput_in_mibps : D
  pub has_lifecycle_policy : Bool
  pub storage_gb : D
  pub infrequent_access_storage_gb : D
  pub monthly_infrequent_access_read_gb : D
  pub monthly_infrequent_access_write_gb : D

pub record EfsFileSystemValues (F : Type 0) : Type 0 where
  pub availability_zone_name : String
  -- the two transitions of each block
  pub lifecycle_policy : List (String × String)
  pub throughput_mode : String
  pub provisioned_throughput_in_mibps : F
  pub storage_gb : F
  pub infrequent_access_storage_gb : F
  pub monthly_infrequent_access_read_gb : F
  pub monthly_infrequent_access_write_gb : F

abbrev is_set : {A : Type 0} → List A → Bool
is_set [] = false
is_set (_ ∷ _) = true

module _ {D : Type 0} ⦃d : Decimal D⦄ (sub div : D → D → D) (is_positive : D → Bool) where
  -- `calculateProvisionedThroughput`
  unfoldable pub calculate_provisioned_throughput : D → D → D
  calculate_provisioned_throughput storage_gb throughput =
      let default_throughput =
        d.mul storage_gb (div (d.of_int 730) (d.mul (d.of_int 20) (d.of_int 1))) in
      let total = d.mul throughput (d.of_int 730) in
      let billable = div (sub total default_throughput) (d.of_int 730) in
      if is_positive billable then billable else d.of_int 0

module _ {D F : Type 0} ⦃d : Decimal D⦄ ⦃f : Float F D⦄ (sub div : D → D → D)
    (is_positive : D → Bool) where
  abbrev provisioned : EfsFileSystemValues F → D
  unfolding calculate_provisioned_throughput
  provisioned vals =
      if vals.throughput_mode == "provisioned" && f.positive vals.provisioned_throughput_in_mibps
      then calculate_provisioned_throughput sub div is_positive (f.from_float vals.storage_gb)
          (f.from_float vals.provisioned_throughput_in_mibps)
      else d.of_int 0

  -- `newEFSFileSystem`
  unfoldable pub new_efs_file_system : Provider → EfsFileSystemValues F → EfsFileSystem D
  unfolding calculate_provisioned_throughput
  new_efs_file_system p vals = record {
    provider = p;
    region = zone_region p vals.availability_zone_name;
    availability_zone_name =
        if valid (new_from_zone vals.availability_zone_name)
        then vals.availability_zone_name
        else "";
    throughput_mode = if not (vals.throughput_mode == "") then vals.throughput_mode else "bursting";
    provisioned_throughput_in_mibps = provisioned vals;
    has_lifecycle_policy = is_set vals.lifecycle_policy;
    storage_gb = f.from_float vals.storage_gb;
    infrequent_access_storage_gb = f.from_float vals.infrequent_access_storage_gb;
    monthly_infrequent_access_read_gb = f.from_float vals.monthly_infrequent_access_read_gb;
    monthly_infrequent_access_write_gb = f.from_float vals.monthly_infrequent_access_write_gb;
  }

module _ {D : Type 0} ⦃d : Decimal D⦄ where
  -- `efsFileSystemComponent`
  unfoldable pub efs_file_system_component : EfsFileSystem D → String → D → ComponentQuery D
  efs_file_system_component v usagetype storage_gb = record {
    name = "Storage " <> usagetype;
    hourly_quantity = d.blank;
    monthly_quantity = storage_gb;
    unit = "GB";
    details = "EFS storage" ∷ usagetype ∷ [];
    usage = true;
    product_filter =
        product_of v.provider.key "AmazonEFS" "Storage" v.region
          (by_regex "UsageType" usagetype ∷ []);
    price_filter = none;
  }

  -- `provisionedThroughputComponent`
  unfoldable pub provisioned_throughput_component : EfsFileSystem D → ComponentQuery D
  provisioned_throughput_component v = record {
    name = "Provisioned throughput";
    hourly_quantity = d.blank;
    monthly_quantity = v.provisioned_throughput_in_mibps;
    unit = "MBps";
    details = "Througput" ∷ [];
    usage = true;
    product_filter =
        product_of v.provider.key "AmazonEFS" "Provisioned Throughput" v.region
          (by_regex "UsageType" "ProvisionedTP-MiBpsHrs" ∷ []);
    price_filter = none;
  }

  -- `requestsComponent`
  unfoldable pub requests_component : EfsFileSystem D → String → ComponentQuery D
  requests_component v access_type = record {
    name = "Requests " <> access_type;
    hourly_quantity = d.blank;
    monthly_quantity =
        if access_type == "Read"
        then v.monthly_infrequent_access_read_gb
        else v.monthly_infrequent_access_write_gb;
    unit = "GB";
    details = "Requests" ∷ "Infrequent Access" ∷ access_type ∷ [];
    usage = true;
    product_filter =
        product_of v.provider.key "AmazonEFS" "Storage" v.region
          (by_value "AccessType" access_type ∷ by_value "StorageClass" "Infrequent Access" ∷ []);
    price_filter = none;
  }

module _ {D : Type 0} ⦃d : Decimal D⦄ (greater : D → D → Bool) where
  -- a component whose quantity is above 0
  abbrev if_any : D → ComponentQuery D → List (ComponentQuery D)
  if_any quantity comp = if greater quantity (d.of_int 0) then comp ∷ [] else []

  abbrev infrequent_components : EfsFileSystem D → List (ComponentQuery D)
  infrequent_components v =
      let usagetype =
        if not (v.availability_zone_name == "")
        then ".*-IATimedStorage-Z-ByteHrs"
        else ".*-IATimedStorage-ByteHrs" in
      if_any v.infrequent_access_storage_gb
        (efs_file_system_component v usagetype v.infrequent_access_storage_gb)
      ++ (if_any v.monthly_infrequent_access_read_gb (requests_component v "Read")
          ++ if_any v.monthly_infrequent_access_write_gb (requests_component v "Write"))

  -- `Components`
  unfoldable pub efs_components : EfsFileSystem D → List (ComponentQuery D)
  unfolding efs_file_system_component provisioned_throughput_component requests_component
  efs_components v =
      let usagetype =
        if not (v.availability_zone_name == "")
        then ".*-TimedStorage-Z-ByteHrs"
        else ".*-TimedStorage-ByteHrs" in
      efs_file_system_component v usagetype v.storage_gb
      ∷ (if_any v.provisioned_throughput_in_mibps (provisioned_throughput_component v)
          ++ (if v.has_lifecycle_policy then infrequent_components v else []))
