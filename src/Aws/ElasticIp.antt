-- ===== src/Aws/ElasticIp.antt =====
-- aws/terraform/eip.go: Elastic IP addresses. Decoding the values is mapstructure's.
use terracost.Prelude.{String, false, not, ◌||◌, List, [], ◌∷◌, ◌==◌, if◌then◌else◌}
use terracost.Decimal.{Decimal}
use terracost.Query.{ComponentQuery}
use terracost.Aws.Resources.{Provider, by_value, product_of, priced_by, on_demand_from}

pub record ElasticIp : Type 0 where
  pub provider_key : String
  pub region : String
  pub customer_owned_ipv4_pool : String
  pub instance : String
  pub network_interface : String

pub record ElasticIpValues : Type 0 where
  pub customer_owned_ipv4_pool : String
  pub instance : String
  pub network_interface : String

-- `newElasticIP`
unfoldable pub new_elastic_ip : Provider → ElasticIpValues → ElasticIp
new_elastic_ip p vals = record {
  provider_key = p.key;
  region = p.region;
  customer_owned_ipv4_pool = vals.customer_owned_ipv4_pool;
  instance = vals.instance;
  network_interface = vals.network_interface;
}

module _ {D : Type 0} ⦃d : Decimal D⦄ where
  -- `elasticIPInstanceComponent`
  unfoldable pub elastic_ip_instance_component : ElasticIp → ComponentQuery D
  elastic_ip_instance_component inst = record {
    name = "Elastic IP";
    hourly_quantity = d.of_int 1;
    monthly_quantity = d.blank;
    unit = "";
    details = "ElasticIP:IdleAddress" ∷ [];
    usage = false;
    product_filter =
        product_of inst.provider_key "AmazonEC2" "IP Address" inst.region
          (by_value "Group" "ElasticIP:IdleAddress" ∷ []);
    price_filter = priced_by "Hrs" (on_demand_from "1");
  }

  -- `Components`: an address that something uses is free
  unfoldable pub elastic_ip_components : ElasticIp → List (ComponentQuery D)
  unfolding elastic_ip_instance_component
  elastic_ip_components inst =
      if not (inst.customer_owned_ipv4_pool == "")
        || not (inst.instance == "")
        || not (inst.network_interface == "")
      then []
      else elastic_ip_instance_component inst ∷ []
