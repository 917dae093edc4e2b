-- ===== src/Aws/Components/Instances.antt =====
-- Whom the queries of an EC2 instance ask, alone or in a group.
use terracost.Prelude.{
  String, ◌≡◌, refl, ap, subst, inl, inr, Bool, true, false, not, Option, none, some, List, [], ◌∷◌,
  map, ◌==◌, if◌then◌else◌, Bool-cases,
}
use terracost.Errors.{Result, ok, err, Run, done, failed, panic, ◌>>>◌}
use terracost.Decimal.{Decimal}
use terracost.Dict.{Dict}
use terracost.Terraform.Json.{Json}
use terracost.Terraform.Queries.{TfResource}
use terracost.Aws.Resources.{Float, Provider}
use terracost.Aws.Volume.{Volume, new_volume, volume_components}
use terracost.Aws.Instance.{
  Instance, BlockDevice, instance_components, root_components, root_component, when,
}
use terracost.Aws.LaunchTemplate.{
  template_zone, group_instance, reference_of, TemplateReference, LaunchConfigurationValues,
  LaunchTemplateValues, configure, apply_template, resource_values, first_volume, first_mapping,
}
use terracost.Query.{ComponentQuery}
use terracost.Aws.Text.{◌<>◌}
use terracost.Aws.AutoscalingGroup.{
  AutoscalingGroupValues, EksNodeGroupValues, new_autoscaling_group, new_eks_node_group,
  from_template, from_group_template, from_configuration, has_template, group_reference,
  first_or_empty, instance_count, from_node_template, node_instance, node_count,
}
use terracost.Aws.Components.Asked.{AllAsk, nothing, asks, one, append-AllAsk, volume-AllAsk}

module _ {D : Type 0} where
  -- The volume, if there is one, is the provider's.
  abbrev pub IsOf : String → Option (Volume D) → Type 0
  IsOf key none = Unit
  IsOf key (some v) = v.provider.key ≡ key

  -- So are the instance and its root volume.
  abbrev pub InstanceOf : String → Instance D → Type 0
  InstanceOf key inst = (inst.provider.key ≡ key) × IsOf key inst.root_volume

module _ {D : Type 0} ⦃d : Decimal D⦄ where
  renamed-AllAsk :
      (key : String) (qs : List (ComponentQuery D))
      → AllAsk key qs
      → AllAsk key (map root_component qs)
  renamed-AllAsk key [] nothing = nothing
  renamed-AllAsk key (q ∷ qs) (asks p h) = asks p (renamed-AllAsk key qs h)

  root-AllAsk : (key : String) (o : Option (Volume D)) → IsOf key o → AllAsk key (root_components o)
  root-AllAsk key none h = nothing
  root-AllAsk key (some v) h =
      renamed-AllAsk key (volume_components v)
        (subst (λ (k : String). AllAsk k (volume_components v)) h (volume-AllAsk v))

  when-AllAsk :
      {key : String} (c : Bool) {q : ComponentQuery D} → AllAsk key (q ∷ []) → AllAsk key (when c q)
  when-AllAsk true h = h
  when-AllAsk false h = nothing

  pub instance-AllAsk :
      (key : String) (inst : Instance D)
      → InstanceOf key inst
      → AllAsk key (instance_components inst)
  unfolding instance_components
  instance-AllAsk key inst (p, h) =
      asks (_, refl, ap some p)
        (append-AllAsk (root-AllAsk key inst.root_volume h) (
          append-AllAsk (when-AllAsk inst.cpu_credits (one (_, refl, ap some p))) (
            append-AllAsk (when-AllAsk inst.enable_monitoring (one (_, refl, ap some p)))
              (when-AllAsk inst.ebs_optimized (one (_, refl, ap some p))))))

module _ {D F : Type 0} ⦃d : Decimal D⦄ ⦃f : Float F D⦄ where
  first_volume-IsOf :
      (p : Provider) (zone : String) (o : Option (Volume D)) (blocks : List (BlockDevice F))
      → IsOf p.key o
      → IsOf p.key (first_volume p zone o blocks)
  unfolding new_volume
  first_volume-IsOf p zone o [] h = h
  first_volume-IsOf p zone o (rbd ∷ blocks) h = refl

  first_mapping-IsOf :
      (p : Provider) (zone : String) (o : Option (Volume D))
      (mappings : List (List (BlockDevice F)))
      → IsOf p.key o
      → IsOf p.key (first_mapping p zone o mappings)
  first_mapping-IsOf p zone o [] h = h
  first_mapping-IsOf p zone o (ebs ∷ mappings) h = first_volume-IsOf p zone o ebs h

  configure-InstanceOf :
      (p : Provider) (zone : String) (lc : LaunchConfigurationValues F) (inst : Instance D)
      → InstanceOf p.key inst
      → InstanceOf p.key (configure p zone lc inst)
  unfolding configure
  configure-InstanceOf p zone lc inst (e, h) =
      (e, first_volume-IsOf p zone inst.root_volume lc.root_block_device h)

  apply_template-InstanceOf :
      (p : Provider) (zone typ : String) (lt : LaunchTemplateValues F) (inst : Instance D)
      → InstanceOf p.key inst
      → InstanceOf p.key (apply_template p zone typ lt inst)
  unfolding apply_template
  apply_template-InstanceOf p zone typ lt inst (e, h) =
      (e, first_mapping-IsOf p zone inst.root_volume lt.block_device_mappings h)

  from_template-InstanceOf :
      (decode_template : Option (Dict Json) → Result (LaunchTemplateValues F)) (p : Provider)
      (zone override : String) (inst : Instance D) (r : Result (LaunchTemplateValues F))
      → InstanceOf p.key inst
      → InstanceOf p.key (from_template decode_template p zone override inst r)
  from_template-InstanceOf decode_template p zone override inst (err e) h = h
  from_template-InstanceOf decode_template p zone override inst (ok lt) h =
      apply_template-InstanceOf p (template_zone lt zone)
        (if not (override == "") then override else lt.instance_type) lt inst h

-- the instance that is returned, if one is
abbrev pub RunOf : {D : Type 0} → String → Run (Instance D) → Type 0
RunOf key (done inst) = InstanceOf key inst
RunOf key (failed e) = Unit
RunOf key (panic why) = Unit

module _ {D F I : Type 0} ⦃d : Decimal D⦄ ⦃f : Float F D⦄
    (decode_configuration : Option (Dict Json) → Result (LaunchConfigurationValues F))
    (decode_template : Option (Dict Json) → Result (LaunchTemplateValues F)) (integer : I → D)
    (positive : I → Bool) (p : Provider) (rss : Dict TfResource) where
  referred-RunOf :
      (zone : String) (inst : Instance D) (r : Run (String × String))
      → InstanceOf p.key inst
      → RunOf p.key (
          r >>> λ x. done (
            from_template decode_template p zone x.1 inst
              (decode_template (resource_values rss x.0))))
  referred-RunOf zone inst (done x) h =
      from_template-InstanceOf decode_template p zone x.1 inst
        (decode_template (resource_values rss x.0)) h
  referred-RunOf zone inst (failed e) h = tt
  referred-RunOf zone inst (panic why) h = tt

  from_group_template-RunOf :
      (vals : AutoscalingGroupValues I) (zone : String) (inst : Instance D)
      → InstanceOf p.key inst
      → RunOf p.key (
          from_group_template decode_configuration decode_template integer positive p rss vals zone
            inst)
  from_group_template-RunOf vals zone inst h =
      elim (Bool-cases (has_template vals.launch_template vals.mixed_instances_policy)) [
        | inl e ↦ rw e (
            referred-RunOf zone inst
              (group_reference vals.launch_template vals.mixed_instances_policy) h)
        | inr e ↦ rw e h
      ]

  from_configuration-RunOf :
      (vals : AutoscalingGroupValues I) (zone : String) (inst : Instance D)
      (r : Result (LaunchConfigurationValues F))
      → InstanceOf p.key inst
      → RunOf p.key (
          from_configuration decode_configuration decode_template integer positive p rss vals zone
            inst r)
  from_configuration-RunOf vals zone inst (err e) h = h
  from_configuration-RunOf vals zone inst (ok lc) h =
      from_group_template-RunOf vals zone (configure p zone lc inst)
        (configure-InstanceOf p zone lc inst h)

  pub new_autoscaling_group-RunOf :
      (vals : AutoscalingGroupValues I)
      → RunOf p.key
          (new_autoscaling_group decode_configuration decode_template integer positive p rss vals)
  unfolding new_autoscaling_group
  new_autoscaling_group-RunOf vals =
      let zone = first_or_empty vals.availability_zones in
      let inst =
        group_instance p (instance_count integer positive vals.desired_capacity vals.min_size) in
      elim (Bool-cases (vals.launch_configuration == "")) [
        | inl e ↦ rw e (from_group_template-RunOf vals zone inst (refl, tt))
        | inr e ↦ rw e (
            from_configuration-RunOf vals zone inst
              (decode_configuration (resource_values rss vals.launch_configuration)) (refl, tt))
      ]

module _ {D F I : Type 0} ⦃d : Decimal D⦄ ⦃f : Float F D⦄
    (decode_template : Option (Dict Json) → Result (LaunchTemplateValues F)) (integer : I → D)
    (positive : I → Bool) (twenty : F) (p : Provider) (rss : Dict TfResource) where
  from_node_template-InstanceOf :
      (vals : EksNodeGroupValues I F) (zone : String) (inst : Instance D) (o : Option (Dict Json))
      → InstanceOf p.key inst
      → InstanceOf p.key
          (from_node_template decode_template integer positive twenty p rss vals zone inst o)
  from_node_template-InstanceOf vals zone inst none h = h
  from_node_template-InstanceOf vals zone inst (some values) h =
      from_template-InstanceOf decode_template p zone "" inst (decode_template (some values)) h

  node_instance-InstanceOf :
      (vals : EksNodeGroupValues I F) (zone : String) (inst : Instance D)
      (templates : List TemplateReference)
      → InstanceOf p.key inst
      → InstanceOf p.key
          (node_instance decode_template integer positive twenty p rss vals zone inst templates)
  unfolding new_volume
  node_instance-InstanceOf vals zone inst [] (e, h) = (e, refl)
  node_instance-InstanceOf vals zone inst (template ∷ templates) h =
      from_node_template-InstanceOf vals zone inst (resource_values rss (reference_of template)) h

  pub new_eks_node_group-InstanceOf :
      (vals : EksNodeGroupValues I F)
      → InstanceOf {D = D} p.key
          (new_eks_node_group decode_template integer positive twenty p rss vals)
  unfolding new_eks_node_group
  new_eks_node_group-InstanceOf vals =
      node_instance-InstanceOf vals (p.region <> "a")
        (group_instance p
          (node_count decode_template integer positive twenty p rss vals.scaling_config))
        vals.launch_template (refl, tt)
