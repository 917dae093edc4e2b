-- ===== src/Aws/Tests.antt =====
-- Regions, and products that an instance, a volume and the gateways ask for.
use terracost.Prelude.{
  ℕ, String, ◌≡◌, refl, sym, ◌∙◌, ◌↔◌, Bool, true, false, not, false≢true, none, some, [], ◌∷◌,
  ◌++◌, eq_iff, eqb,
}
use terracost.Dict.{lookup, insert}
use terracost.Aws.Region.{code_to_name, new_from_name, valid, get_region_to_short_name}
use terracost.Decimal.{Whole, whole_decimal}
use terracost.Query.{Product}
use terracost.Catalog.{matches_any}
use terracost.Aws.Filter.{minimal_filter}
use terracost.Aws.Region.{new_from_zone}
use terracost.Aws.Resources.{Float, Provider}
use terracost.Aws.Volume.{Volume, new_volume, volume_components, storage_component, iops_component}
use terracost.Aws.Instance.{
  Instance, InstanceValues, new_instance, instance_components, compute_component,
  cpu_credit_cost_component, detailed_monitoring_cost_component,
}
use terracost.Aws.NatGateway.{
  NatGateway, nat_gateway_components, nat_gateway_instance_component,
  nat_gateway_data_processed_component,
}
use terracost.Aws.LoadBalancer.{LoadBalancer, lb_components, load_balancer_component}
use terracost.Aws.SqsQueue.{SqsQueue, sqs_queue_components, sqs_queue_component}
use terracost.Aws.EksCluster.{usage_prefix}
use terracost.Aws.EksCluster.Prefix.{differs, usage_prefix_iff}
use terracost.Aws.Ingested.{
  volume-minimal_filter, new_instance-minimal_filter, extras-minimal_filter,
}
use terracost.Aws.Gateways.{gateways-minimal_filter}
use terracost.Aws.Region.Table.{new_from_name_iff, short_name_injective}

new_from_name_iff_example :
    (new_from_name "EU (Paris)" ≡ "eu-west-3")
    ↔ (lookup "eu-west-3" code_to_name ≡ some "EU (Paris)")
new_from_name_iff_example = new_from_name_iff "EU (Paris)" "eu-west-3" (λ p. cc p)

abbrev eu_west_3 : String
eu_west_3 = "eu-west-3"

eu_west_3_name : get_region_to_short_name eu_west_3 ≡ "EUW3"
unfolding get_region_to_short_name lookup
eu_west_3_name = refl

eu_west_3-valid : valid eu_west_3 ≡ true
unfolding valid code_to_name lookup insert
eu_west_3-valid = refl

short_name_injective_example : eu_west_3 ≡ eu_west_3
short_name_injective_example =
    short_name_injective eu_west_3 eu_west_3 eu_west_3-valid eu_west_3-valid refl
      (λ p. false≢true ((eq_iff "EUW3" "APS3").1 (sym eu_west_3_name ∙ p)))

usage_prefix_iff_example :
    (usage_prefix eu_west_3 ≡ some (get_region_to_short_name eu_west_3))
    ↔ (differs eu_west_3 ≡ false)
usage_prefix_iff_example = usage_prefix_iff eu_west_3 eu_west_3-valid

instance abbrev whole_float : Float ℕ Whole
whole_float = record { zero_float = 0; positive = λ n. not (eqb n 0); from_float = λ n. some n }

abbrev aws : Provider
aws = record { key = "aws"; region = "eu-west-3" }

-- a regular expression that matches every text
abbrev any_match : String → String → Bool
any_match _ _ = true

abbrev data_disk : Volume Whole
data_disk = record {
  provider = aws;
  region = "eu-west-3";
  volume_type = "io1";
  size = some 10;
  iops = some 100;
}

abbrev product_of : String → String → Product
product_of service family = record {
  id = 1;
  provider = "aws";
  sku = "X";
  service = service;
  family = family;
  location = "eu-west-3";
  attributes = some (
      ("CapacityStatus", "Used")
      ∷ ("InstanceType", "t3.micro")
      ∷ ("Tenancy", "Shared")
      ∷ ("OperatingSystem", "Linux")
      ∷ ("PreInstalledSW", "NA")
      ∷ ("VolumeAPIName", "io1")
      ∷ ("UsageType", "EUW3-NatGateway-Hours")
      ∷ []);
}

iops_match :
    matches_any any_match (volume_components data_disk) (product_of "AmazonEC2" "System Operation")
    ≡ true
unfolding volume_components storage_component iops_component lookup
iops_match = refl

volume-minimal_filter_example : minimal_filter (product_of "AmazonEC2" "System Operation") ≡ true
volume-minimal_filter_example =
    volume-minimal_filter any_match data_disk (product_of "AmazonEC2" "System Operation") iops_match

abbrev micro : InstanceValues ℕ
micro = record {
  instance_type = "t3.micro";
  tenancy = "";
  availability_zone = "eu-west-3a";
  ebs_optimized = false;
  enable_monitoring = false;
  credit_specification = [];
  root_block_device = [];
}

micro_match :
    matches_any any_match
      (instance_components (new_instance {D = Whole} aws micro))
      (product_of "AmazonEC2" "Compute Instance")
    ≡ true
unfolding instance_components compute_component new_instance volume_components storage_component
    new_volume new_from_zone valid code_to_name lookup insert
micro_match = refl

new_instance-minimal_filter_example :
    minimal_filter (product_of "AmazonEC2" "Compute Instance") ≡ true
new_instance-minimal_filter_example =
    new_instance-minimal_filter any_match Whole aws micro
      (product_of "AmazonEC2" "Compute Instance") refl refl refl micro_match

abbrev metric : Product
metric = product_of "AmazonCloudWatch" "Metric"

abbrev burst : Instance Whole
burst = record {
  provider = aws;
  region = "eu-west-3";
  instance_type = "t3.micro";
  tenancy = "Shared";
  operating_system = "Linux";
  capacity_status = "Used";
  pre_installed_sw = "NA";
  cpu_credits = true;
  ebs_optimized = false;
  enable_monitoring = true;
  instance_count = some 1;
  root_volume = none;
}

metric_match :
    matches_any any_match
      (cpu_credit_cost_component burst ∷ detailed_monitoring_cost_component burst ∷ [])
      metric
    ≡ true
unfolding cpu_credit_cost_component detailed_monitoring_cost_component lookup
metric_match = refl

extras-minimal_filter_example : minimal_filter metric ≡ false
extras-minimal_filter_example = extras-minimal_filter any_match burst metric metric_match

abbrev gateway : NatGateway Whole
gateway = record { provider_key = "aws"; region = "eu-west-3"; monthly_data_processed_gb = some 5 }

abbrev balancer : LoadBalancer
balancer = record { provider = aws; region = "eu-west-3"; lb_type = "network" }

abbrev queue : SqsQueue Whole
queue = record {
  provider = aws;
  region = "eu-west-3";
  fifo_queue = true;
  monthly_requests = some 9;
  request_size_kb = some 64;
}

abbrev quotient : Whole → Whole → Whole
quotient a b = whole_decimal.div_round a b 0

abbrev request : Product
request = product_of "AWSQueueService" "API Request"

request_match :
    matches_any any_match
      (nat_gateway_components gateway
        ++ (lb_components {D = Whole} balancer ++ sqs_queue_components quotient (λ n. n) queue))
      request
    ≡ true
unfolding nat_gateway_components nat_gateway_instance_component nat_gateway_data_processed_component
    lb_components load_balancer_component sqs_queue_components sqs_queue_component lookup
request_match = refl

gateways-minimal_filter_example : minimal_filter request ≡ true
gateways-minimal_filter_example =
    gateways-minimal_filter any_match Whole quotient (λ n. n) gateway balancer queue request
      request_match
