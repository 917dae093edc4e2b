-- ===== src/Aws/AutoscalingGroup.antt =====
-- aws/terraform/autoscaling_group.go and eks_node_group.go: groups of EC2 instances. Decoding the values is
-- mapstructure's: `decode_configuration` and `decode_template` are what it makes of the values of another
-- resource, `none` being nil. `I` is Go's `int64`, `positive` its `> 0`, and `integer` is `NewFromInt`.
use terracost.Prelude.{
  String, Bool, true, false, not, Option, none, some, List, [], ◌∷◌, ◌==◌, if◌then◌else◌,
}
use terracost.Errors.{Result, ok, err, Run, done, panic, ◌>>>◌}
use terracost.Decimal.{Decimal}
use terracost.Dict.{Dict}
use terracost.Terraform.Json.{Json}
use terracost.Terraform.Queries.{TfResource}
use terracost.Aws.Text.{◌<>◌}
use terracost.Aws.Resources.{Float, Provider}
use terracost.Aws.Instance.{Instance, BlockDevice}
use terracost.Aws.LaunchTemplate.{
  LaunchConfigurationValues, LaunchTemplateValues, TemplateReference, resource_values, reference_of,
  template_zone, configure, apply_template, block_volume, group_instance, in_zone,
}

-- a `launch_template` block of a policy
pub record MixedTemplate : Type 0 where
  pub launch_template_specification : List TemplateReference
  -- the instance type of each block
  pub override : List String

pub record AutoscalingGroupValues (I : Type 0) : Type 0 where
  pub availability_zones : List String
  pub launch_configuration : String
  pub launch_template : List TemplateReference
  -- the templates of each policy
  pub mixed_instances_policy : List (List MixedTemplate)
  pub min_size : I
  pub desired_capacity : I

abbrev pub first_or_empty : List String → String
first_or_empty [] = ""
first_or_empty (s ∷ _) = s

-- the reference to a template, and the instance type that overrides the template's
abbrev mixed_reference : List MixedTemplate → Run (String × String)
mixed_reference [] = panic "index out of range"
mixed_reference (template ∷ _) = elim template.launch_template_specification [
  | [] ↦ panic "index out of range"
  | (specification ∷ _) ↦ done (reference_of specification, first_or_empty template.override)
]

abbrev pub group_reference :
    List TemplateReference → List (List MixedTemplate) → Run (String × String)
group_reference templates (policy ∷ _) = mixed_reference policy
group_reference (template ∷ _) [] = done (reference_of template, "")
group_reference [] [] = done ("", "")

-- `len(vals.LaunchTemplate) > 0 || len(vals.MixedInstancesPolicy) > 0`
abbrev pub has_template : List TemplateReference → List (List MixedTemplate) → Bool
has_template [] [] = false
has_template _ _ = true

module _ {I D : Type 0} ⦃d : Decimal D⦄ (integer : I → D) (positive : I → Bool) where
  abbrev pub instance_count : I → I → D
  instance_count desired min =
      if positive desired then integer desired else if positive min then integer min else d.of_int 1

module _ {D F : Type 0} ⦃d : Decimal D⦄ ⦃f : Float F D⦄
    (decode_template : Option (Dict Json) → Result (LaunchTemplateValues F)) where
  -- the last part of both constructors: the template, and the region of the zone
  abbrev pub from_template :
      Provider → String → String → Instance D → Result (LaunchTemplateValues F) → Instance D
  from_template p zone override inst (err e) = inst
  from_template p zone override inst (ok lt) =
      let placed = template_zone lt zone in
      in_zone p placed (
        apply_template p placed (if not (override == "") then override else lt.instance_type) lt
          inst)

module _ {D F I : Type 0} ⦃d : Decimal D⦄ ⦃f : Float F D⦄
    (decode_configuration : Option (Dict Json) → Result (LaunchConfigurationValues F))
    (decode_template : Option (Dict Json) → Result (LaunchTemplateValues F)) (integer : I → D)
    (positive : I → Bool) (p : Provider) (rss : Dict TfResource) where
  -- the part of `newAutoscalingGroup` after the launch configuration
  abbrev pub from_group_template : AutoscalingGroupValues I → String → Instance D → Run (Instance D)
  from_group_template vals zone inst =
      if not (has_template vals.launch_template vals.mixed_instances_policy)
      then done (in_zone p zone inst)
      else (group_reference vals.launch_template vals.mixed_instances_policy >>> λ r. done (
          from_template decode_template p zone r.1 inst
            (decode_template (resource_values rss r.0))))

  abbrev pub from_configuration :
      AutoscalingGroupValues I
      → String
      → Instance D
      → Result (LaunchConfigurationValues F)
      → Run (Instance D)
  from_configuration vals zone inst (err e) = done inst
  from_configuration vals zone inst (ok lc) =
      from_group_template vals zone (configure p zone lc inst)

  -- `newAutoscalingGroup`
  unfoldable pub new_autoscaling_group : AutoscalingGroupValues I → Run (Instance D)
  unfolding configure apply_template
  new_autoscaling_group vals =
      let zone = first_or_empty vals.availability_zones in
      let inst =
        group_instance p (instance_count integer positive vals.desired_capacity vals.min_size) in
      if vals.launch_configuration == ""
      then from_group_template vals zone inst
      else from_configuration vals zone inst
          (decode_configuration (resource_values rss vals.launch_configuration))

pub record EksNodeGroupValues (I F : Type 0) : Type 0 where
  -- the minimal and the desired size of each block
  pub scaling_config : List (I × I)
  pub instance_types : List String
  pub disk_size : F
  pub launch_template : List TemplateReference

abbrev node_type : List String → String
node_type [] = "t3.medium"
node_type (instance_type ∷ _) = instance_type

module _ {D F I : Type 0} ⦃d : Decimal D⦄ ⦃f : Float F D⦄
    (decode_template : Option (Dict Json) → Result (LaunchTemplateValues F)) (integer : I → D)
    (positive : I → Bool) (twenty : F) (p : Provider) (rss : Dict TfResource) where
  abbrev pub node_count : List (I × I) → D
  node_count [] = d.of_int 0
  node_count ((min, desired) ∷ _) = instance_count integer positive desired min

  -- a template that was found, or else the node group's types
  abbrev pub from_node_template :
      EksNodeGroupValues I F → String → Instance D → Option (Dict Json) → Instance D
  from_node_template vals zone inst none = record inst {
    instance_type = node_type vals.instance_types;
  }
  from_node_template vals zone inst (some values) =
      from_template decode_template p zone "" inst (decode_template (some values))

  -- without a template; `twenty` is the float of the default size
  abbrev without_template : EksNodeGroupValues I F → String → Instance D → Instance D
  without_template vals zone inst =
      let disk : BlockDevice F = record {
        volume_type = "gp3";
        volume_size = if f.positive vals.disk_size then vals.disk_size else twenty;
        iops = f.zero_float;
      } in
      in_zone p zone (record inst {
        instance_type = node_type vals.instance_types;
        root_volume = some (block_volume p zone disk);
      })

  abbrev pub node_instance :
      EksNodeGroupValues I F → String → Instance D → List TemplateReference → Instance D
  node_instance vals zone inst [] = without_template vals zone inst
  node_instance vals zone inst (template ∷ _) =
      from_node_template vals zone inst (resource_values rss (reference_of template))

  -- `newEKSNodeGroup`
  unfoldable pub new_eks_node_group : EksNodeGroupValues I F → Instance D
  unfolding apply_template
  new_eks_node_group vals =
      node_instance vals (p.region <> "a") (group_instance p (node_count vals.scaling_config))
        vals.launch_template
