-- ===== src/Terraform/Tests.antt =====
-- An instance's address, and the providers of a plan with two configurations.
use terracost.Prelude.{ℕ, String, ◌≡◌, refl, ◌↔◌, false≢true, Option, some, [], ◌∷◌, eq_iff, All}
use terracost.Errors.{ok}
use terracost.Dict.{Dict, lookup, insert}
use terracost.Aws.Text.{◌<>◌, split}
use terracost.Terraform.Address.{clean_resource_address}
use terracost.Terraform.Address.Instances.{clean_resource_address-instance}
use terracost.Terraform.Json.{Json, text}
use terracost.Terraform.Providers.{
  ProviderConfig, Initializer, collect, evaluate_provider_config_expressions, extract_providers,
  initializer_map,
}
use terracost.Terraform.Providers.Chosen.{last_match, lookup-initializer_map}
use terracost.Terraform.Providers.Values.{
  HasValue, constant, variable, Evaluated, evaluate_provider_config_expressions_iff,
}
use terracost.Terraform.Providers.Extracted.{
  Given, unmatched, returned, Provided, HasProvider, extract_providers_iff,
}

clean_resource_address-instance_example :
    clean_resource_address ("module.net" <> "[" <> "0" <> "]" <> ".aws_instance.web")
    ≡ "module.net" <> clean_resource_address ".aws_instance.web"
clean_resource_address-instance_example =
    clean_resource_address-instance "module.net" "0" ".aws_instance.web" refl refl

abbrev regions : Dict Json
regions = ("region", text "eu-west-3") ∷ []

abbrev aws_config : ProviderConfig
aws_config = record {
  name = "aws";
  expressions =
      ("region", record { constant_value = ""; references = "var.region" ∷ [] })
      ∷ ("profile", record { constant_value = "dev"; references = [] })
      ∷ [];
}

abbrev aws_values : Dict Json
aws_values = ("region", text "eu-west-3") ∷ ("profile", text "dev") ∷ []

aws_values_run : evaluate_provider_config_expressions regions aws_config ≡ ok aws_values
unfolding evaluate_provider_config_expressions collect split lookup insert
aws_values_run = refl

region_value :
    HasValue regions
      (record { constant_value = ""; references = "var.region" ∷ [] })
      (text "eu-west-3")
unfolding split lookup
region_value = variable refl refl refl refl (λ p. cc p)

profile_value : HasValue regions (record { constant_value = "dev"; references = [] }) (text "dev")
profile_value = constant (λ p. false≢true ((eq_iff "dev" "").1 p))

evaluate_provider_config_expressions_iff_example :
    All (λ e. (v : Json) × HasValue regions e.1 v) aws_config.expressions ↔ (
      (values : Dict Json) × (evaluate_provider_config_expressions regions aws_config ≡ ok values)
      × ((name : String)
          → Evaluated regions (lookup name aws_config.expressions) (lookup name values)))
unfolding lookup
evaluate_provider_config_expressions_iff_example =
    evaluate_provider_config_expressions_iff regions aws_config (refl, (refl, tt))

aws_config_values : All (λ e. (v : Json) × HasValue regions e.1 v) aws_config.expressions
aws_config_values = ((_, region_value), ((_, profile_value), tt))

-- a provider is its number here
abbrev aws_initializer : Initializer ℕ
aws_initializer = record { match_names = "aws" ∷ []; provider = λ values. ok (some 7) }

abbrev configs : Dict ProviderConfig
configs = ("aws", aws_config) ∷ ("random", record { name = "random"; expressions = [] }) ∷ []

configs_run :
    extract_providers (("aws", aws_initializer) ∷ []) regions configs ≡ ok (("aws", 7) ∷ [])
unfolding extract_providers evaluate_provider_config_expressions collect split lookup insert
configs_run = refl

extract_providers_iff_example :
    (All (λ e. (p : Option ℕ) × Given (("aws", aws_initializer) ∷ []) regions e.1 p) configs
      × HasProvider (("aws", aws_initializer) ∷ []) regions configs)
    ↔ ((providers : Dict ℕ) × (extract_providers (("aws", aws_initializer) ∷ []) regions configs
          ≡ ok providers)
        × ((name : String)
            → Provided
                (("aws", aws_initializer) ∷ [])
                regions
                (lookup name configs)
                (lookup name providers)))
unfolding lookup
extract_providers_iff_example =
    extract_providers_iff (("aws", aws_initializer) ∷ []) regions configs (refl, (refl, tt))

configs-Given :
    All (λ e. (p : Option ℕ) × Given (("aws", aws_initializer) ∷ []) regions e.1 p) configs
    × HasProvider (("aws", aws_initializer) ∷ []) regions configs
unfolding lookup
configs-Given =
    let aws_given : Given (("aws", aws_initializer) ∷ []) regions aws_config (some 7) =
      returned refl aws_values_run refl in
    (((_, aws_given), ((_, unmatched refl), tt)), ("aws", aws_config, 7, refl, aws_given))

lookup-initializer_map_example :
    lookup "aws" (initializer_map (aws_initializer ∷ []) [])
    ≡ last_match "aws" (aws_initializer ∷ []) (lookup "aws" [])
lookup-initializer_map_example = lookup-initializer_map "aws" (aws_initializer ∷ []) []
