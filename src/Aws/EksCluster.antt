-- ===== src/Aws/EksCluster.antt =====
-- aws/terraform/eks_cluster.go: EKS clusters. Decoding the values is mapstructure's.
pub mod Prefix
use terracost.Prelude.{
  ℕ, zero, suc, ◌+◌, ◌-◌, ◌*◌, ◌/◌, ◌%◌, ◌≤◌, ◌<◌, String, ◌≡◌, refl, sym, ap, ◌∙◌, subst, ◌≢◌, ◌↔◌,
  ◌⊎◌, inl, inr, Bool, true, false, not, ◌&&◌, ◌||◌, false≢true, Option, none, some, List, [], ◌∷◌,
  ◌++◌, map, arith, ◌==◌, eq_iff, eq_refl, ltb, leb, eqb, if◌then◌else◌, Bool-cases, Option-cases,
  is_some, length, length-append, All, All-append, List-cases,
}
use terracost.Decimal.{Decimal}
use terracost.Query.{ComponentQuery}
use terracost.Errors.{Run, done, failed, panic}
use terracost.Aws.Text.{◌<>◌, split, to_upper, initial}
use terracost.Aws.Resources.{Provider, by_value}

pub record EksCluster : Type 0 where
  pub provider_key : String
  pub region : String

-- `newEKSCluster`
unfoldable pub new_eks_cluster : Provider → EksCluster
new_eks_cluster p = record { provider_key = p.key; region = p.region }

-- `fmt.Sprintf("%s%s%s", strings.ToUpper(splitedRegion[0]), strings.ToUpper(splitedRegion[1][0:1]),
-- splitedRegion[2])`, where `none` is the panic at an index or a slice out of range
abbrev of_parts : List String → Option String
of_parts (first ∷ second ∷ third ∷ _) =
    if second == "" then none else some (to_upper first <> to_upper (initial second) <> third)
of_parts _ = none

-- the variable `region` of `eKSClusterInstanceComponent`
unfoldable pub usage_prefix : String → Option String
usage_prefix region = if region == "eu-west-1" then some "EU" else of_parts (split b'-' region)

module _ {D : Type 0} ⦃d : Decimal D⦄ where
  abbrev cluster_component : EksCluster → String → ComponentQuery D
  cluster_component inst prefix = record {
    name = "EKS Cluster";
    hourly_quantity = d.of_int 1;
    monthly_quantity = d.blank;
    unit = "";
    details = "EKSCluster:Compute" ∷ [];
    usage = false;
    product_filter = some (record {
      provider = some inst.provider_key;
      sku = none;
      service = some "AmazonEKS";
      family = some "Compute";
      location = some inst.region;
      attribute_filters = by_value "UsageType" (prefix <> "-AmazonEKS-Hours:perCluster") ∷ [];
    });
    price_filter = some (record {
      unit = none;
      currency = none;
      attribute_filters = by_value "TermType" "OnDemand" ∷ [];
    });
  }

  -- `eKSClusterInstanceComponent`
  unfoldable pub eks_cluster_instance_component : EksCluster → Run (ComponentQuery D)
  unfolding usage_prefix
  eks_cluster_instance_component inst = elim (usage_prefix inst.region) [
    | none ↦ panic "out of range"
    | some prefix ↦ done (cluster_component inst prefix)
  ]

  -- `Components`
  unfoldable pub eks_cluster_components : EksCluster → Run (List (ComponentQuery D))
  unfolding eks_cluster_instance_component
  eks_cluster_components inst = elim (eks_cluster_instance_component inst) [
    | done q ↦ done (q ∷ [])
    | failed e ↦ failed e
    | panic s ↦ panic s
  ]
