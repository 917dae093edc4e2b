-- ===== src/Aws/Secret.antt =====
-- aws/terraform/secretsmanager_secret.go: secrets. Decoding the values is mapstructure's.
use terracost.Prelude.{String, true, List, [], ◌∷◌}
use terracost.Decimal.{Decimal}
use terracost.Query.{ComponentQuery}
use terracost.Aws.Resources.{Float, Provider, by_regex, product_of, priced_by, on_demand_from}

pub record SecretsmanagerSecret (D : Type 0) : Type 0 where
  pub provider : Provider
  pub region : String
  pub monthly_requests : D

-- `newSecretsmanagerSecret`, of the values' `monthly_requests`
module _ {F D : Type 0} ⦃f : Float F D⦄ where
  unfoldable pub new_secretsmanager_secret : Provider → F → SecretsmanagerSecret D
  new_secretsmanager_secret p monthly_requests = record {
    provider = p;
    region = p.region;
    monthly_requests = f.from_float monthly_requests;
  }

module _ {D : Type 0} ⦃d : Decimal D⦄ where
  -- `secretsmanagerSecretComponent`
  unfoldable pub secretsmanager_secret_component : SecretsmanagerSecret D → ComponentQuery D
  secretsmanager_secret_component v = record {
    name = "Secret";
    hourly_quantity = d.blank;
    monthly_quantity = d.of_int 1;
    unit = "Secrets";
    details = "Secret" ∷ [];
    usage = true;
    product_filter =
        product_of v.provider.key "AWSSecretsManager" "Secret" v.region
          (by_regex "UsageType" ".*-AWSSecretsManager-Secrets" ∷ []);
    price_filter = priced_by "Secrets" (on_demand_from "0");
  }

  -- `secretsmanagerSecretRequestsComponent`
  unfoldable pub secretsmanager_secret_requests_component :
      SecretsmanagerSecret D → ComponentQuery D
  secretsmanager_secret_requests_component v = record {
    name = "API Request";
    hourly_quantity = d.blank;
    monthly_quantity = v.monthly_requests;
    unit = "API Requests";
    details = "API Request" ∷ [];
    usage = true;
    product_filter =
        product_of v.provider.key "AWSSecretsManager" "API Request" v.region
          (by_regex "UsageType" ".*-AWSSecretsManager[-]?APIRequest[s]?" ∷ []);
    price_filter = priced_by "API Requests" (on_demand_from "0");
  }

  -- `Components`
  unfoldable pub secretsmanager_secret_components : SecretsmanagerSecret D → List (ComponentQuery D)
  unfolding secretsmanager_secret_component secretsmanager_secret_requests_component
  secretsmanager_secret_components v =
      secretsmanager_secret_component v ∷ secretsmanager_secret_requests_component v ∷ []
