-- ===== src/Aws/LoadBalancer.antt =====
-- aws/terraform/lb.go: load balancers. Decoding the values is mapstructure's.
use terracost.Prelude.{String, false, none, some, List, [], ◌∷◌, ◌==◌, if◌then◌else◌}
use terracost.Decimal.{Decimal}
use terracost.Query.{ComponentQuery}
use terracost.Aws.Resources.{Provider, by_regex}

-- `LB`
pub record LoadBalancer : Type 0 where
  pub provider : Provider
  pub region : String
  pub lb_type : String

-- `newLB`, of the values' `load_balancer_type`
unfoldable pub new_lb : Provider → String → LoadBalancer
new_lb p load_balancer_type = record {
  provider = p;
  region = p.region;
  lb_type = load_balancer_type;
}

-- the name and the family that the `switch` gives
abbrev pub name_and_family : String → String × String
name_and_family lb_type =
    if lb_type == "network"
    then ("Network Load Balancer", "Load Balancer-Network")
    else if lb_type == "gateway"
    then ("Gateway Load Balancer", "Load Balancer-Gateway")
    else if lb_type == "classic"
    then ("Classic Load Balancer", "Load Balancer")
    else ("Application Load Balancer", "Load Balancer-Application")

module _ {D : Type 0} ⦃d : Decimal D⦄ where
  -- `loadBalancerComponent`
  unfoldable pub load_balancer_component : LoadBalancer → ComponentQuery D
  load_balancer_component lb = record {
    name = (name_and_family lb.lb_type).0;
    hourly_quantity = d.of_int 1;
    monthly_quantity = d.blank;
    unit = "";
    details = [];
    usage = false;
    product_filter = some (record {
      provider = some lb.provider.key;
      sku = none;
      service = some "AWSELB";
      family = some (name_and_family lb.lb_type).1;
      location = some lb.region;
      attribute_filters = by_regex "UsageType" "LoadBalancerUsage" ∷ [];
    });
    price_filter = some (record { unit = some "Hrs"; currency = none; attribute_filters = [] });
  }

  -- `Components`
  unfoldable pub lb_components : LoadBalancer → List (ComponentQuery D)
  unfolding load_balancer_component
  lb_components lb = load_balancer_component lb ∷ []
