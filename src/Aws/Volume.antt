-- ===== src/Aws/Volume.antt =====
-- aws/terraform/volume.go: EBS volumes. Decoding the values is mapstructure's.
use terracost.Prelude.{String, false, not, ◌||◌, none, some, List, [], ◌∷◌, ◌==◌, if◌then◌else◌}
use terracost.Decimal.{Decimal}
use terracost.Query.{ComponentQuery}
use terracost.Aws.Resources.{Float, Provider, zone_region, by_value, by_regex}

pub record Volume (D : Type 0) : Type 0 where
  pub provider : Provider
  pub region : String
  pub volume_type : String
  pub size : D
  pub iops : D

pub record VolumeValues (F : Type 0) : Type 0 where
  pub availability_zone : String
  pub typ : String
  pub size : F
  pub iops : F

module _ {D F : Type 0} ⦃d : Decimal D⦄ ⦃f : Float F D⦄ where
  -- `newVolume`
  unfoldable pub new_volume : Provider → VolumeValues F → Volume D
  new_volume p vals = record {
    provider = p;
    region = zone_region p vals.availability_zone;
    volume_type = if not (vals.typ == "") then vals.typ else "gp3";
    size = if f.positive vals.size then f.from_float vals.size else d.of_int 8;
    iops = if f.positive vals.iops then f.from_float vals.iops else d.of_int 16000;
  }

module _ {D : Type 0} ⦃d : Decimal D⦄ where
  -- `storageComponent`
  unfoldable pub storage_component : Volume D → ComponentQuery D
  storage_component v = record {
    name = "Storage";
    hourly_quantity = d.blank;
    monthly_quantity = v.size;
    unit = "GB";
    details = v.volume_type ∷ [];
    usage = false;
    product_filter = some (record {
      provider = some v.provider.key;
      sku = none;
      service = some "AmazonEC2";
      family = some "Storage";
      location = some v.region;
      attribute_filters = by_value "VolumeAPIName" v.volume_type ∷ [];
    });
    price_filter = none;
  }

  -- `iopsComponent`
  unfoldable pub iops_component : Volume D → ComponentQuery D
  iops_component v = record {
    name = "Provisioned IOPS";
    hourly_quantity = d.blank;
    monthly_quantity = v.iops;
    unit = "IOPS";
    details = [];
    usage = false;
    product_filter = some (record {
      provider = some v.provider.key;
      sku = none;
      service = some "AmazonEC2";
      family = some "System Operation";
      location = some v.region;
      attribute_filters =
          by_value "VolumeAPIName" v.volume_type ∷ by_regex "UsageType" "^EBS:VolumeP-IOPS" ∷ [];
    });
    price_filter = none;
  }

  -- `Components`
  unfoldable pub volume_components : Volume D → List (ComponentQuery D)
  unfolding storage_component iops_component
  volume_components v =
      storage_component v
      ∷ (if v.volume_type == "io1" || v.volume_type == "io2" then iops_component v ∷ [] else [])
