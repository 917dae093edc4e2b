-- ===== src/Estimation/Tests.antt =====
-- The estimate of a plan with a module, and the queries of its planned values.
use terracost.Prelude.{
  String, ◌≡◌, refl, true, false, none, some, [], ◌∷◌, ◌==◌, if◌then◌else◌, mem,
}
use terracost.Cost.Component.{Component}
use terracost.Cost.Money.{zero_cost}
use terracost.Errors.{product_not_found, ok, done}
use terracost.Decimal.{Whole, whole_decimal}
use terracost.Dict.{Dict, lookup, insert}
use terracost.Aws.Text.{split}
use terracost.Query.{ComponentQuery}
use terracost.Terraform.Address.{clean_resource_address}
use terracost.Terraform.Json.{Json, null}
use terracost.Terraform.Expressions.{evaluate_resource_expressions, evaluate_fields}
use terracost.Terraform.Providers.{Initializer, extract_providers, initializer_map}
use terracost.Terraform.Configuration.{
  ConfigurationResource, ConfigurationModule, configuration_module, no_calls, call,
  extract_module_configuration,
}
use terracost.Terraform.Configuration.Addresses.{configured}
use terracost.Terraform.Queries.{
  TfResource, TfProvider, Module, module_of, no_modules, child_module, extract_module_queries,
}
use terracost.Terraform.Queries.Addresses.{managed}
use terracost.Terraform.Plan.{TfDocument, plan_of, plan_providers, extract_queries}
use terracost.Mysql.Filters.{join}
use terracost.Cost.State.{
  price_component, Catalog, new_state, add_resources, add_components, add_component,
  ensure_resource, price_component,
}
use terracost.Cost.Plan.{Plan, new_plan, sort_strings}
use terracost.Estimation.{or_default, estimate_terraform_plan}
use terracost.Estimation.Addresses.{Shows, estimate_terraform_plan-addresses}

abbrev compute : ComponentQuery Whole
compute = record {
  name = "Compute";
  hourly_quantity = some 1;
  monthly_quantity = none;
  unit = "Hrs";
  details = [];
  usage = false;
  product_filter = none;
  price_filter = none;
}

abbrev aws : TfProvider Whole
aws = record {
  name = "aws";
  resource_components = λ rss res. done (if res.typ == "aws_instance" then compute ∷ [] else []);
}

abbrev initializer : Initializer (TfProvider Whole)
initializer = record { match_names = "aws" ∷ []; provider = λ values. ok (some aws) }

abbrev configured_resource : String → String → ConfigurationResource
configured_resource addr key = record {
  address = addr;
  provider_config_key = key;
  expressions = [];
}

-- a resource and a data source of the root module, a resource of the module `net`, and one of a provider
-- that is not known
abbrev root : ConfigurationModule
root =
    configuration_module
      (configured_resource "aws_instance.web" "aws"
        ∷ configured_resource "data.aws_ami.base" "aws"
        ∷ configured_resource "random_id.id" "random"
        ∷ [])
      []
      (call "net"
        (configuration_module (configured_resource "aws_eip.ip" "module.net:aws" ∷ []) [] no_calls)
        no_calls)

abbrev resource : String → String → String → TfResource
resource addr mode typ = record {
  address = addr;
  index = null;
  mode = mode;
  typ = typ;
  name = "";
  provider_name = "aws";
  values = some [];
}

abbrev planned : Module
planned =
    module_of
      (resource "aws_instance.web[0]" "managed" "aws_instance"
        ∷ resource "data.aws_ami.base" "data" "aws_ami"
        ∷ resource "random_id.id" "managed" "random_id"
        ∷ [])
      (child_module
        (module_of (resource "module.net.aws_eip.ip" "managed" "aws_eip" ∷ []) no_modules)
        no_modules)

abbrev document : TfDocument
document = record {
  provider_config =
      ("aws", record { name = "aws"; expressions = [] })
      ∷ ("module.net:aws", record { name = "aws"; expressions = [] })
      ∷ [];
  root_module = root;
  prior_state = none;
  planned_values = planned;
  variables = [];
}

abbrev unknown : Component Whole
unknown = record {
  quantity = none;
  unit = "";
  rate = zero_cost;
  details = [];
  usage = false;
  error = some product_not_found;
}

abbrev nothing : Catalog Whole
nothing = record { products = λ f. ok []; prices = λ id f. ok [] }

abbrev show : Json → String
show v = ""

configured_runs :
    configured (("aws", aws) ∷ []) "" root
    ≡ "aws_instance.web" ∷ "data.aws_ami.base" ∷ "module.net.aws_eip.ip" ∷ []
unfolding configured lookup split
configured_runs = refl

managed_runs :
    managed (λ a. mem a (configured (("aws", aws) ∷ []) "" root)) planned
    ≡ "aws_instance.web[0]" ∷ "module.net.aws_eip.ip" ∷ []
unfolding managed configured lookup split clean_resource_address
managed_runs = refl

abbrev estimated : Plan Whole
estimated = record {
  name = "net";
  prior = none;
  planned = some (record {
    resources =
        (
          "aws_instance.web[0]",
          record {
            provider = "aws";
            typ = "aws_instance";
            components = some (("Compute", unknown) ∷ []);
            skipped = false;
          },
        )
        ∷ (
          "module.net.aws_eip.ip",
          record { provider = "aws"; typ = "aws_eip"; components = none; skipped = true },
        )
        ∷ [];
  });
}

estimated_runs :
    estimate_terraform_plan nothing show [] (ok document) [] (initializer ∷ []) ≡ done estimated
unfolding estimate_terraform_plan new_plan extract_queries extract_module_queries
    extract_module_configuration lookup insert split clean_resource_address new_state add_resources
    add_components add_component ensure_resource extract_providers evaluate_resource_expressions
    evaluate_fields sort_strings initializer_map join price_component
estimated_runs = refl

estimate_terraform_plan-addresses_example :
    (providers : Dict (TfProvider Whole)) × (plan_providers
        (plan_of (or_default [] (initializer ∷ [])) document [])
      ≡ done providers)
    × Shows document providers estimated
estimate_terraform_plan-addresses_example =
    estimate_terraform_plan-addresses nothing show [] document [] (initializer ∷ []) estimated_runs
