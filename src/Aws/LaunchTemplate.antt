-- ===== src/Aws/LaunchTemplate.antt =====
-- aws/terraform/launch_configuration.go and launch_template.go, and what autoscaling_group.go and
-- eks_node_group.go take from them. Decoding the values is mapstructure's.
use terracost.Prelude.{
  String, Bool, false, not, ◌||◌, Option, none, some, List, [], ◌∷◌, ◌==◌, if◌then◌else◌,
}
use terracost.Decimal.{Decimal}
use terracost.Dict.{Dict, lookup}
use terracost.Terraform.Json.{Json}
use terracost.Terraform.Queries.{TfResource}
use terracost.Aws.Resources.{Float, Provider, zone_region}
use terracost.Aws.Volume.{Volume, new_volume}
use terracost.Aws.Instance.{Instance, BlockDevice, is_unlimited}

pub record LaunchConfigurationValues (F : Type 0) : Type 0 where
  pub instance_type : String
  pub placement_tenancy : String
  pub ebs_optimized : Bool
  pub enable_monitoring : Bool
  pub root_block_device : List (BlockDevice F)

pub record Placement : Type 0 where
  pub tenancy : String
  pub availability_zone : String

pub record LaunchTemplateValues (F : Type 0) : Type 0 where
  pub instance_type : String
  pub placement : List Placement
  pub ebs_optimized : Bool
  -- whether each block is enabled
  pub monitoring : List Bool
  -- the `cpu_credits` of each block
  pub credit_specification : List String
  -- the `ebs` blocks of each mapping
  pub block_device_mappings : List (List (BlockDevice F))

-- a block that refers to a template
pub record TemplateReference : Type 0 where
  pub id : String
  pub name : String

-- `rss[ref].Values`: nil where there is no resource of that name
abbrev pub resource_values : Dict TfResource → String → Option (Dict Json)
resource_values rss ref = elim (lookup ref rss) [ none ↦ none | some r ↦ r.values ]

-- the id of a reference, or its name
abbrev pub reference_of : TemplateReference → String
reference_of template = if not (template.id == "") then template.id else template.name

-- the first block that is enabled
abbrev pub first_enabled : List Bool → Bool
first_enabled [] = false
first_enabled (enabled ∷ _) = enabled

abbrev first_zone : String → List Placement → String
first_zone zone [] = zone
first_zone zone (placement ∷ _) =
    if not (placement.availability_zone == "") then placement.availability_zone else zone

abbrev first_tenancy : String → List Placement → String
first_tenancy tenancy [] = tenancy
first_tenancy tenancy (placement ∷ _) =
    if placement.tenancy == "dedicated" then "Dedicated" else tenancy

-- the zone that a template gives, or else `zone`
abbrev pub template_zone : {F : Type 0} → LaunchTemplateValues F → String → String
template_zone lt zone = first_zone zone lt.placement

module _ {D F : Type 0} ⦃d : Decimal D⦄ ⦃f : Float F D⦄ where
  abbrev pub block_volume : Provider → String → BlockDevice F → Volume D
  unfolding new_volume
  block_volume p zone rbd = new_volume p (record {
    availability_zone = zone;
    typ = rbd.volume_type;
    size = rbd.volume_size;
    iops = rbd.iops;
  })

  abbrev pub first_volume :
      Provider → String → Option (Volume D) → List (BlockDevice F) → Option (Volume D)
  first_volume p zone volume [] = volume
  first_volume p zone volume (rbd ∷ _) = some (block_volume p zone rbd)

  abbrev pub first_mapping :
      Provider → String → Option (Volume D) → List (List (BlockDevice F)) → Option (Volume D)
  first_mapping p zone volume [] = volume
  first_mapping p zone volume (ebs ∷ _) = first_volume p zone volume ebs

  -- what a group takes from its configuration
  unfoldable pub configure :
      Provider → String → LaunchConfigurationValues F → Instance D → Instance D
  configure p zone lc inst = record inst {
    instance_type = lc.instance_type;
    tenancy = if lc.placement_tenancy == "dedicated" then "Dedicated" else inst.tenancy;
    ebs_optimized = lc.ebs_optimized || inst.ebs_optimized;
    enable_monitoring = lc.enable_monitoring || inst.enable_monitoring;
    root_volume = first_volume p zone inst.root_volume lc.root_block_device;
  }

  -- What a group takes from its template; `instance_type` is the type to set, and `zone` the zone of the
  -- root volume.
  unfoldable pub apply_template :
      Provider → String → String → LaunchTemplateValues F → Instance D → Instance D
  apply_template p zone instance_type lt inst = record inst {
    instance_type = instance_type;
    tenancy = first_tenancy inst.tenancy lt.placement;
    ebs_optimized = lt.ebs_optimized || inst.ebs_optimized;
    cpu_credits = is_unlimited lt.credit_specification || inst.cpu_credits;
    enable_monitoring = first_enabled lt.monitoring || inst.enable_monitoring;
    root_volume = first_mapping p zone inst.root_volume lt.block_device_mappings;
  }

module _ {D : Type 0} where
  -- the instance before its group's values are read
  abbrev pub group_instance : Provider → D → Instance D
  group_instance p count = record {
    provider = p;
    region = p.region;
    instance_type = "";
    tenancy = "Shared";
    operating_system = "Linux";
    capacity_status = "Used";
    pre_installed_sw = "NA";
    cpu_credits = false;
    ebs_optimized = false;
    enable_monitoring = false;
    instance_count = count;
    root_volume = none;
  }

  -- the region of the zone, where that is valid
  abbrev pub in_zone : Provider → String → Instance D → Instance D
  in_zone p zone inst = record inst { region = zone_region p zone }
