-- ===== src/Aws/Filter.antt =====
-- aws/filter.go and aws/services.go: which records are ingested.
pub mod Families
use terracost.Prelude.{
  ℕ, zero, suc, ◌+◌, ◌-◌, ◌*◌, ◌/◌, ◌%◌, ◌≤◌, ◌<◌, String, ◌≡◌, refl, sym, ap, ◌∙◌, subst, ◌≢◌, ◌↔◌,
  ◌⊎◌, inl, inr, Bool, true, false, not, ◌&&◌, ◌||◌, false≢true, Option, none, some, List, [], ◌∷◌,
  ◌++◌, map, arith, ◌==◌, eq_iff, eq_refl, ltb, leb, eqb, if◌then◌else◌, Bool-cases, Option-cases,
  is_some, length, length-append, All, All-append, List-cases,
}
use terracost.Dict.{Dict}
use terracost.Query.{Product}
use terracost.Cost.Resource.{entries}
use terracost.Aws.Region.{text_at}

-- `isValueAllowed`
unfoldable pub is_value_allowed : String → List String → Bool
is_value_allowed value [] = false
is_value_allowed value (v ∷ allowed) =
    let rest = is_value_allowed value allowed in if value == v then true else rest

-- `allowedProductAttrs`
abbrev pub allowed_product_attrs : Dict (List String)
allowed_product_attrs =
    ("CapacityStatus", "Used" ∷ [])
    ∷ ("OperatingSystem", "Linux" ∷ [])
    ∷ ("PreInstalledSW", "NA" ∷ [])
    ∷ ("Tenancy", "Shared" ∷ "Dedicated" ∷ [])
    ∷ []

-- `pp.Product.Attributes[k]`
abbrev pub attribute : Product → String → String
attribute p k = text_at k (entries p.attributes)

-- the loop over `allowedProductAttrs`
unfoldable pub attributes_allowed : Dict (List String) → Product → Bool
unfolding is_value_allowed
attributes_allowed [] p = true
attributes_allowed ((k, vals) ∷ m) p =
    let rest = attributes_allowed m p in
    if not (is_value_allowed (attribute p k) vals) then false else rest

-- `minimalFilterEC2`
unfoldable pub minimal_filter_ec2 : Product → Bool
unfolding attributes_allowed
minimal_filter_ec2 p =
    if p.family == "Compute Instance"
    then attributes_allowed allowed_product_attrs p
    else p.family == "Storage" || p.family == "System Operation" || p.family == "NAT Gateway"

-- `minimalFilterCloudWatch`
unfoldable pub minimal_filter_cloud_watch : Product → Bool
minimal_filter_cloud_watch p =
    p.family == "Data Payload" || p.family == "Storage Snapshot" || p.family == "Alarm"

-- `minimalFilterRDS`
unfoldable pub minimal_filter_rds : Product → Bool
minimal_filter_rds p =
    p.family == "Database Instance"
    || p.family == "Database Storage"
    || p.family == "Provisioned IOPS"
    || p.family == "Serverless"
    || p.family == "ServerlessV2"
    || p.family == "System Operation"
    || p.family == "Storage Snapshot"
    || p.family == "Performance Insights"

-- `minimalFilterS3Bucket`
unfoldable pub minimal_filter_s3_bucket : Product → Bool
minimal_filter_s3_bucket p = p.family == "Storage" || p.family == "API Request" || p.family == "Fee"

-- `MinimalFilter`, which reads the product alone
unfoldable pub minimal_filter : Product → Bool
unfolding minimal_filter_cloud_watch minimal_filter_ec2 minimal_filter_rds minimal_filter_s3_bucket
minimal_filter p =
    if p.service == "AmazonCloudWatch"
    then minimal_filter_cloud_watch p
    else if p.service == "AmazonEC2"
    then minimal_filter_ec2 p
    else if p.service == "AmazonEFS"
        || p.service == "AmazonEKS"
        || p.service == "AmazonElastiCache"
        || p.service == "AmazonFSx"
    then true
    else if p.service == "AmazonRDS"
    then minimal_filter_rds p
    else if p.service == "AmazonS3"
    then minimal_filter_s3_bucket p
    else p.service == "AWSDataTransfer"
      || p.service == "AWSELB"
      || p.service == "awskms"
      || p.service == "AWSQueueService"
      || p.service == "AWSSecretsManager"

-- `supportedServices`
abbrev pub supported_services : List String
supported_services =
    "AmazonCloudWatch" ∷ "AmazonEC2" ∷ "AmazonEFS" ∷ "AmazonEKS" ∷ "AmazonElastiCache" ∷ "AmazonFSx"
    ∷ "AmazonRDS" ∷ "AmazonS3" ∷ "AWSDataTransfer" ∷ "AWSELB" ∷ "awskms" ∷ "AWSQueueService"
    ∷ "AWSSecretsManager" ∷ []

-- `IsServiceSupported`: the map's keys, looked up
unfoldable pub is_service_supported : String → Bool
unfolding is_value_allowed
is_service_supported service = is_value_allowed service supported_services
