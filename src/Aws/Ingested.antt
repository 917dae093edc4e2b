-- ===== src/Aws/Ingested.antt =====
-- The products that the components of the resources ask for are among those that `MinimalFilter`
-- lets through.
use terracost.Prelude.{
  String, ◌≡◌, refl, ap, ◌∙◌, ◌⊎◌, inl, inr, Bool, true, false, ◌||◌, false≢true, some, List, [],
  ◌∷◌, ◌++◌, map, arith, ◌==◌, if◌then◌else◌,
}
use terracost.Decimal.{Decimal}
use terracost.Query.{Product, ComponentQuery}
use terracost.Catalog.{matches_query, matches_any}
use terracost.Aws.Filter.{minimal_filter}
use terracost.Aws.Resources.{Float, Provider, by_value}
use terracost.Aws.Volume.{Volume, volume_components, storage_component, iops_component}
use terracost.Aws.Instance.{
  Instance, InstanceValues, instance_filter, root_component, is_unlimited, new_instance,
  compute_component, instance_components, cpu_credit_cost_component,
  detailed_monitoring_cost_component,
}
use terracost.Aws.Filter.Families.{
  storage_passes, iops_passes, credits_stopped, monitoring_stopped, compute_passes,
}
use terracost.Aws.Matching.{
  matches_query-AsksFor, matches_any_cons, matches_any-when, matches_any-append, attribute-by_value,
  matches_product-attributes,
}

module _ (regex_match : String → String → Bool) {D : Type 0} ⦃d : Decimal D⦄ where
  -- A product that a component of a volume asks for passes `MinimalFilter`.
  pub volume-minimal_filter :
      (v : Volume D) (p : Product)
      → matches_any regex_match (volume_components v) p ≡ true
      → minimal_filter p ≡ true
  unfolding volume_components storage_component iops_component
  volume-minimal_filter v p h =
      let provisioned = v.volume_type == "io1" || v.volume_type == "io2" in
      let iops = if provisioned then iops_component v ∷ [] else [] in
      elim (matches_any_cons regex_match (storage_component v) iops p h) [
        | inl e ↦
            let (s, f) =
              matches_query-AsksFor regex_match (storage_component v) p "AmazonEC2" "Storage"
                (_, refl, refl, refl) e in
            storage_passes p s f
        | inr e ↦
            let (s, f) =
              matches_query-AsksFor regex_match (iops_component v) p "AmazonEC2" "System Operation"
                (_, refl, refl, refl)
                (matches_any-when regex_match provisioned (iops_component v) p e) in
            iops_passes p s f
      ]

-- The attributes that `MinimalFilter` asks for in a record of the family "Compute Instance".
abbrev IsSupported : {D : Type 0} → Instance D → Type 0
IsSupported inst =
    (inst.capacity_status ≡ "Used")
    × (inst.operating_system ≡ "Linux")
    × (inst.pre_installed_sw ≡ "NA")
    × ((inst.tenancy ≡ "Shared") ⊎ (inst.tenancy ≡ "Dedicated"))

new_instance-IsSupported :
    {F : Type 0} (D : Type 0) ⦃d : Decimal D⦄ ⦃f : Float F D⦄ (p : Provider)
    (vals : InstanceValues F)
    → IsSupported (new_instance {D = D} p vals)
unfolding new_instance
new_instance-IsSupported D p vals = (refl, refl, refl, ground arith)

module _ (regex_match : String → String → Bool) {D : Type 0} ⦃d : Decimal D⦄ where
  compute-minimal_filter :
      (inst : Instance D) (prod : Product)
      → IsSupported inst
      → matches_query regex_match (compute_component inst).product_filter prod ≡ true
      → minimal_filter prod ≡ true
  unfolding compute_component
  compute-minimal_filter inst prod (used, linux, na, tenancy) h =
      let fs₄ = by_value "PreInstalledSW" inst.pre_installed_sw ∷ [] in
      let fs₃ = by_value "OperatingSystem" inst.operating_system ∷ fs₄ in
      let fs₂ = by_value "Tenancy" inst.tenancy ∷ fs₃ in
      let fs₁ = by_value "InstanceType" inst.instance_type ∷ fs₂ in
      let (s, f) =
        matches_query-AsksFor regex_match (compute_component inst) prod "AmazonEC2"
          "Compute Instance" (_, refl, refl, refl) h in
      let (a, h₁) = attribute-by_value regex_match "CapacityStatus" inst.capacity_status fs₁ prod (
        matches_product-attributes regex_match
          (instance_filter inst "AmazonEC2" "Compute Instance"
            (by_value "CapacityStatus" inst.capacity_status ∷ fs₁))
          prod h) in
      let (_, h₂) = attribute-by_value regex_match "InstanceType" inst.instance_type fs₂ prod h₁ in
      let (t, h₃) = attribute-by_value regex_match "Tenancy" inst.tenancy fs₃ prod h₂ in
      let (o, h₄) =
        attribute-by_value regex_match "OperatingSystem" inst.operating_system fs₄ prod h₃ in
      let (n, _) =
        attribute-by_value regex_match "PreInstalledSW" inst.pre_installed_sw [] prod h₄ in
      compute_passes prod inst.tenancy s f (a ∙ used) (o ∙ linux) (n ∙ na) t tenancy

  matches_any-root_component :
      (comps : List (ComponentQuery D)) (p : Product)
      → matches_any regex_match (map root_component comps) p ≡ matches_any regex_match comps p
  matches_any-root_component [] p = refl
  matches_any-root_component (q ∷ comps) p =
      ap (λ b. matches_query regex_match q.product_filter p || b)
        (matches_any-root_component comps p)

  -- An instance that orders none of the extras.
  abbrev pub IsPlain : Instance D → Type 0
  IsPlain inst =
      (inst.cpu_credits ≡ false) × (inst.enable_monitoring ≡ false) × (inst.ebs_optimized ≡ false)

  instance-minimal_filter :
      (inst : Instance D) (prod : Product) (v : Volume D)
      → IsSupported inst
      → IsPlain inst
      → inst.root_volume ≡ some v
      → matches_any regex_match (instance_components inst) prod ≡ true
      → minimal_filter prod ≡ true
  unfolding instance_components
  instance-minimal_filter inst prod v good (a, b, c) root h =
      elim (matches_any_cons regex_match (compute_component inst)
        (map root_component (volume_components v) ++ []) prod (rw (a, b, c, root) at h)) [
          | inl e ↦ compute-minimal_filter inst prod good e
          | inr e ↦
              elim (matches_any-append regex_match (map root_component (volume_components v)) []
                prod e) [
                  | inl e' ↦
                      volume-minimal_filter regex_match v prod (rw matches_any-root_component at e')
                  | inr e' ↦ absurd (false≢true e')
                ]
        ]

-- A product that a component of a new instance asks for passes `MinimalFilter`, if the instance has
-- neither unlimited CPU credits nor detailed monitoring nor EBS optimization.
pub new_instance-minimal_filter :
    (regex_match : String → String → Bool) {F : Type 0} (D : Type 0) ⦃d : Decimal D⦄ ⦃f : Float F D⦄
    (p : Provider) (vals : InstanceValues F) (prod : Product)
    → is_unlimited vals.credit_specification ≡ false
    → vals.enable_monitoring ≡ false
    → vals.ebs_optimized ≡ false
    → matches_any regex_match (instance_components (new_instance {D = D} p vals)) prod ≡ true
    → minimal_filter prod ≡ true
unfolding new_instance
new_instance-minimal_filter regex_match D p vals prod a b c h =
    instance-minimal_filter regex_match (new_instance {D = D} p vals) prod _
      (new_instance-IsSupported D p vals) (a, b, c) refl h

module _ (regex_match : String → String → Bool) {D : Type 0} ⦃d : Decimal D⦄ where
  -- A product that an instance's CPU credits or its detailed monitoring ask for does not pass
  -- `MinimalFilter`.
  pub extras-minimal_filter :
      (inst : Instance D) (prod : Product)
      → matches_any regex_match
          (cpu_credit_cost_component inst ∷ detailed_monitoring_cost_component inst ∷ [])
          prod
        ≡ true
      → minimal_filter prod ≡ false
  unfolding cpu_credit_cost_component detailed_monitoring_cost_component
  extras-minimal_filter inst prod h =
      let monitoring = detailed_monitoring_cost_component inst in
      elim (matches_any_cons regex_match (cpu_credit_cost_component inst) (monitoring ∷ []) prod
        h) [
          | inl e ↦
              let (s, f) =
                matches_query-AsksFor regex_match (cpu_credit_cost_component inst) prod "AmazonEC2"
                  "CPU Credits" (_, refl, refl, refl) e in
              credits_stopped prod s f
          | inr e ↦
              let (s, f) =
                matches_query-AsksFor regex_match monitoring prod "AmazonCloudWatch" "Metric"
                  (_, refl, refl, refl) (matches_any-when regex_match true monitoring prod e) in
              monitoring_stopped prod s f
        ]
