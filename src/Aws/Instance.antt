-- ===== src/Aws/Instance.antt =====
-- aws/terraform/instance.go: EC2 instances. Decoding the values is mapstructure's.
use terracost.Prelude.{
  String, Bool, true, false, Option, none, some, List, [], ◌∷◌, ◌++◌, map, ◌==◌, if◌then◌else◌,
}
use terracost.Decimal.{Decimal}
use terracost.Query.{ComponentQuery, ProductFilter, AttributeFilter}
use terracost.Aws.Text.{◌<>◌, split_head, to_upper}
use terracost.Aws.Resources.{on_demand, priced_by, Float, Provider, zone_region, by_value}
use terracost.Aws.Volume.{Volume, VolumeValues, new_volume, volume_components}

pub record Instance (D : Type 0) : Type 0 where
  pub provider : Provider
  pub region : String
  pub instance_type : String
  pub tenancy : String
  pub operating_system : String
  pub capacity_status : String
  pub pre_installed_sw : String
  pub cpu_credits : Bool
  pub ebs_optimized : Bool
  pub enable_monitoring : Bool
  pub instance_count : D
  pub root_volume : Option (Volume D)

pub record BlockDevice (F : Type 0) : Type 0 where
  pub volume_type : String
  pub volume_size : F
  pub iops : F

pub record InstanceValues (F : Type 0) : Type 0 where
  pub instance_type : String
  pub tenancy : String
  pub availability_zone : String
  pub ebs_optimized : Bool
  pub enable_monitoring : Bool
  -- the `cpu_credits` of each block
  pub credit_specification : List String
  pub root_block_device : List (BlockDevice F)

-- `len(specs) > 0 && specs[0].CPUCredits == "unlimited"`
abbrev pub is_unlimited : List String → Bool
is_unlimited [] = false
is_unlimited (credits ∷ _) = credits == "unlimited"

-- the volume values of the first root block, if there is one
abbrev pub root_values : {F : Type 0} → F → String → List (BlockDevice F) → VolumeValues F
root_values unset zone [] = record {
  availability_zone = zone;
  typ = "";
  size = unset;
  iops = unset;
}
root_values unset zone (rbd ∷ _) = record {
  availability_zone = zone;
  typ = rbd.volume_type;
  size = rbd.volume_size;
  iops = rbd.iops;
}

module _ {D F : Type 0} ⦃d : Decimal D⦄ ⦃f : Float F D⦄ where
  -- `newInstance`
  unfoldable pub new_instance : Provider → InstanceValues F → Instance D
  unfolding new_volume
  new_instance p vals = record {
    provider = p;
    region = zone_region p vals.availability_zone;
    instance_type = vals.instance_type;
    tenancy = if vals.tenancy == "dedicated" then "Dedicated" else "Shared";
    operating_system = "Linux";
    capacity_status = "Used";
    pre_installed_sw = "NA";
    cpu_credits = is_unlimited vals.credit_specification;
    ebs_optimized = vals.ebs_optimized;
    enable_monitoring = vals.enable_monitoring;
    instance_count = d.of_int 1;
    root_volume =
        some
          (new_volume p (root_values f.zero_float vals.availability_zone vals.root_block_device));
  }

abbrev pub when {ℓ} : {A : Type ℓ} → Bool → A → List A
when true a = a ∷ []
when false a = []

module _ {D : Type 0} ⦃d : Decimal D⦄ where
  -- the product filters of the components, which name the provider, the service and the region
  abbrev pub instance_filter : Instance D → String → String → List AttributeFilter → ProductFilter
  instance_filter inst service family filters = record {
    provider = some inst.provider.key;
    sku = none;
    service = some service;
    family = some family;
    location = some inst.region;
    attribute_filters = filters;
  }

  -- `strings.ToUpper(strings.Split(inst.region.String(), "-")[0])`
  abbrev usage_region : Instance D → String
  usage_region inst = to_upper (split_head b'-' inst.region)

  -- `cpuCreditCostComponent`
  unfoldable pub cpu_credit_cost_component : Instance D → ComponentQuery D
  cpu_credit_cost_component inst = record {
    name = "CPUCreditCost";
    hourly_quantity = inst.instance_count;
    monthly_quantity = d.blank;
    unit = "";
    details = "Linux" ∷ "on-demand" ∷ inst.instance_type ∷ [];
    usage = false;
    product_filter = some (
        instance_filter inst "AmazonEC2" "CPU Credits" (
          by_value "OperatingSystem" inst.operating_system
          ∷ by_value "UsageType"
              (usage_region inst <> "-CPUCredits:" <> split_head b'.' inst.instance_type)
          ∷ []));
    price_filter = priced_by "vCPU-Hours" on_demand;
  }

  -- `detailedMonitoringCostComponent`
  unfoldable pub detailed_monitoring_cost_component : Instance D → ComponentQuery D
  detailed_monitoring_cost_component inst = record {
    name = "EC2 detailed monitoring";
    hourly_quantity = d.blank;
    monthly_quantity = d.mul (d.of_int 7) inst.instance_count;
    unit = "";
    details = "on-demand" ∷ "monitoring" ∷ [];
    usage = false;
    product_filter = some (instance_filter inst "AmazonCloudWatch" "Metric" []);
    price_filter =
        priced_by "Metrics" (by_value "TermType" "OnDemand" ∷ by_value "StartingRange" "0" ∷ []);
  }

  -- `ebsOptimizedCostComponent`
  unfoldable pub ebs_optimized_cost_component : Instance D → ComponentQuery D
  ebs_optimized_cost_component inst = record {
    name = "EBS-optimized usage";
    hourly_quantity = inst.instance_count;
    monthly_quantity = d.blank;
    unit = "";
    details = "EBS" ∷ "Optimizes" ∷ inst.instance_type ∷ [];
    usage = false;
    product_filter = some (
        instance_filter inst "AmazonEC2" "Compute Instance" (
          by_value "InstanceType" inst.instance_type
          ∷ by_value "UsageType" (usage_region inst <> "-EBSOptimized:" <> inst.instance_type)
          ∷ []));
    price_filter = priced_by "Hrs" on_demand;
  }

  -- `computeComponent`
  unfoldable pub compute_component : Instance D → ComponentQuery D
  compute_component inst = record {
    name = "Compute";
    hourly_quantity = inst.instance_count;
    monthly_quantity = d.blank;
    unit = "";
    details = "Linux" ∷ "on-demand" ∷ inst.instance_type ∷ [];
    usage = false;
    product_filter = some (
        instance_filter inst "AmazonEC2" "Compute Instance" (
          by_value "CapacityStatus" inst.capacity_status
          ∷ by_value "InstanceType" inst.instance_type
          ∷ by_value "Tenancy" inst.tenancy
          ∷ by_value "OperatingSystem" inst.operating_system
          ∷ by_value "PreInstalledSW" inst.pre_installed_sw
          ∷ []));
    price_filter = priced_by "Hrs" on_demand;
  }

  -- `comp.Name = "Root volume: " + comp.Name` for each component of the root volume
  abbrev pub root_component : ComponentQuery D → ComponentQuery D
  root_component comp = record comp { name = "Root volume: " <> comp.name }

  abbrev pub root_components : Option (Volume D) → List (ComponentQuery D)
  root_components none = []
  root_components (some v) = map root_component (volume_components v)

  -- `Components`
  unfoldable pub instance_components : Instance D → List (ComponentQuery D)
  unfolding volume_components cpu_credit_cost_component detailed_monitoring_cost_component
      ebs_optimized_cost_component compute_component
  instance_components inst =
      compute_component inst
      ∷ (root_components inst.root_volume
          ++ (when inst.cpu_credits (cpu_credit_cost_component inst)
              ++ (when inst.enable_monitoring (detailed_monitoring_cost_component inst)
                  ++ when inst.ebs_optimized (ebs_optimized_cost_component inst))))
