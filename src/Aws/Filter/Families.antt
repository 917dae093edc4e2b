-- ===== src/Aws/Filter/Families.antt =====
-- What `MinimalFilter` says of the services and families that the components name.
use terracost.Prelude.{String, ◌≡◌, refl, ◌⊎◌, inl, inr, true, false}
use terracost.Query.{Product}
use terracost.Aws.Filter.{
  attribute, minimal_filter, minimal_filter_ec2, minimal_filter_cloud_watch, attributes_allowed,
  is_value_allowed,
}

pub storage_passes :
    (p : Product) → p.service ≡ "AmazonEC2" → p.family ≡ "Storage" → minimal_filter p ≡ true
unfolding minimal_filter minimal_filter_ec2
storage_passes p s f = rw s (rw f refl)

pub iops_passes :
    (p : Product)
    → p.service ≡ "AmazonEC2"
    → p.family ≡ "System Operation"
    → minimal_filter p ≡ true
unfolding minimal_filter minimal_filter_ec2
iops_passes p s f = rw s (rw f refl)

pub nat_passes :
    (p : Product) → p.service ≡ "AmazonEC2" → p.family ≡ "NAT Gateway" → minimal_filter p ≡ true
unfolding minimal_filter minimal_filter_ec2
nat_passes p s f = rw s (rw f refl)

pub whole_service_passes :
    (p : Product) (service : String)
    → (service ≡ "AWSELB") ⊎ (service ≡ "AWSQueueService") ⊎ (service ≡ "AmazonEKS")
    → p.service ≡ service
    → minimal_filter p ≡ true
unfolding minimal_filter
whole_service_passes p service (inl e) s = rw (s, e) refl
whole_service_passes p service (inr (inl e)) s = rw (s, e) refl
whole_service_passes p service (inr (inr e)) s = rw (s, e) refl

pub credits_stopped :
    (p : Product) → p.service ≡ "AmazonEC2" → p.family ≡ "CPU Credits" → minimal_filter p ≡ false
unfolding minimal_filter minimal_filter_ec2
credits_stopped p s f = rw s (rw f refl)

pub monitoring_stopped :
    (p : Product) → p.service ≡ "AmazonCloudWatch" → p.family ≡ "Metric" → minimal_filter p ≡ false
unfolding minimal_filter minimal_filter_cloud_watch
monitoring_stopped p s f = rw s (rw f refl)

pub compute_passes :
    (p : Product) (tenancy : String)
    → p.service ≡ "AmazonEC2"
    → p.family ≡ "Compute Instance"
    → attribute p "CapacityStatus" ≡ "Used"
    → attribute p "OperatingSystem" ≡ "Linux"
    → attribute p "PreInstalledSW" ≡ "NA"
    → attribute p "Tenancy" ≡ tenancy
    → (tenancy ≡ "Shared") ⊎ (tenancy ≡ "Dedicated")
    → minimal_filter p ≡ true
unfolding minimal_filter minimal_filter_ec2 attributes_allowed is_value_allowed
compute_passes p tenancy s f a b c e (inl t) = rw s (rw f (rw (a, b, c, e, t) refl))
compute_passes p tenancy s f a b c e (inr t) = rw s (rw f (rw (a, b, c, e, t) refl))
