-- ===== src/Aws/Initializer.antt =====
-- aws/terraform_provider.go: what makes the AWS provider of a provider's configuration.
use terracost.Prelude.{String, Option, none, some, [], ◌∷◌, ◌==◌, if◌then◌else◌}
use terracost.Errors.{Result, ok, err, ◌>>=◌, errorf}
use terracost.Dict.{lookup}
use terracost.Terraform.Json.{Json, null, text, boolean, number, array, object}
use terracost.Terraform.Providers.{Initializer}
use terracost.Aws.Resources.{Provider, new_provider}

-- `DefaultRegion`
abbrev pub default_region : String
default_region = "us-east-1"

-- what `%T` writes for a value that was decoded from JSON
abbrev go_type : Json → String
go_type null = "<nil>"
go_type (text _) = "string"
go_type (boolean _) = "bool"
go_type (number _) = "float64"
go_type (array _) = "[]interface {}"
go_type (object _) = "map[string]interface {}"

-- the provider of the value of `region`
abbrev provider_in : Option Json → Result Provider
provider_in none = new_provider "aws" default_region
provider_in (some (text r)) = new_provider "aws" (if r == "" then default_region else r)
provider_in (some v) = err (errorf "invalid region type (expected string): %T" (go_type v ∷ []))

-- `TerraformProviderInitializer`
unfoldable pub terraform_provider_initializer : Initializer Provider
terraform_provider_initializer = record {
  match_names = "aws" ∷ "registry.terraform.io/hashicorp/aws" ∷ [];
  provider = λ values. provider_in (lookup "region" values) >>= λ p. ok (some p);
}
