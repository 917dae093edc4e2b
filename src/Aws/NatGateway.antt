-- ===== src/Aws/NatGateway.antt =====
-- aws/terraform/nat_gateway.go: NAT gateways. Decoding the values is mapstructure's.
use terracost.Prelude.{String, true, false, none, some, List, [], ◌∷◌}
use terracost.Decimal.{Decimal}
use terracost.Query.{ComponentQuery, ProductFilter}
use terracost.Aws.Resources.{Float, Provider, by_value, by_regex}

pub record NatGateway (D : Type 0) : Type 0 where
  pub provider_key : String
  pub region : String
  pub monthly_data_processed_gb : D

-- `newNatGateway`, of the values' `monthly_data_processed_gb`
module _ {F D : Type 0} ⦃f : Float F D⦄ where
  unfoldable pub new_nat_gateway : Provider → F → NatGateway D
  new_nat_gateway p monthly_data_processed_gb = record {
    provider_key = p.key;
    region = p.region;
    monthly_data_processed_gb = f.from_float monthly_data_processed_gb;
  }

module _ {D : Type 0} ⦃d : Decimal D⦄ where
  -- the product filter of both components, which differ in the usage type
  abbrev nat_filter : NatGateway D → String → ProductFilter
  nat_filter inst usage_type = record {
    provider = some inst.provider_key;
    sku = none;
    service = some "AmazonEC2";
    family = some "NAT Gateway";
    location = some inst.region;
    attribute_filters = by_regex "UsageType" usage_type ∷ [];
  }

  -- `natGatewayInstanceComponent`
  unfoldable pub nat_gateway_instance_component : NatGateway D → ComponentQuery D
  nat_gateway_instance_component inst = record {
    name = "NAT gateway";
    hourly_quantity = d.of_int 1;
    monthly_quantity = d.blank;
    unit = "";
    details = "NatGateway" ∷ [];
    usage = false;
    product_filter = some (nat_filter inst ".*NatGateway-Hours");
    price_filter = some (record {
      unit = some "Hrs";
      currency = none;
      attribute_filters = by_value "TermType" "OnDemand" ∷ [];
    });
  }

  -- `natGatewayDataProcessedComponent`
  unfoldable pub nat_gateway_data_processed_component : NatGateway D → ComponentQuery D
  nat_gateway_data_processed_component inst = record {
    name = "NAT Data processed";
    hourly_quantity = d.blank;
    monthly_quantity = inst.monthly_data_processed_gb;
    unit = "";
    details = "NatGateway Data processed" ∷ [];
    usage = true;
    product_filter = some (nat_filter inst ".*NatGateway-Bytes");
    price_filter = some (record {
      unit = some "GB";
      currency = none;
      attribute_filters = by_value "TermType" "OnDemand" ∷ [];
    });
  }

  -- `Components`
  unfoldable pub nat_gateway_components : NatGateway D → List (ComponentQuery D)
  unfolding nat_gateway_instance_component nat_gateway_data_processed_component
  nat_gateway_components inst =
      nat_gateway_instance_component inst ∷ nat_gateway_data_processed_component inst ∷ []
