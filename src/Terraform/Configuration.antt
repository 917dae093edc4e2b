-- ===== src/Terraform/Configuration.antt =====
-- terraform/plan.go and terraform/schema.go: `extractModuleConfiguration`, which gives every resource of
-- the configuration its provider. A map of module calls is a list of them.
pub mod Addresses
use terracost.Prelude.{
  ℕ, zero, suc, ◌+◌, ◌-◌, ◌*◌, ◌/◌, ◌%◌, ◌≤◌, ◌<◌, String, ◌≡◌, refl, sym, ap, ◌∙◌, subst, ◌≢◌, ◌↔◌,
  ◌⊎◌, inl, inr, Bool, true, false, not, ◌&&◌, ◌||◌, false≢true, Option, none, some, List, [], ◌∷◌,
  ◌++◌, map, arith, ◌==◌, eq_iff, eq_refl, ltb, leb, eqb, if◌then◌else◌, Bool-cases, Option-cases,
  is_some, length, length-append, All, All-append, List-cases, mem, mem-append,
}
use terracost.Errors.{Error, Run, done, failed, panic, ◌>>>◌, wrap_run}
use terracost.Dict.{Dict, lookup, insert}
use terracost.Aws.Text.{◌<>◌, split}
use terracost.Terraform.Json.{Json}
use terracost.Terraform.Expressions.{evaluate_resource_expressions}

pub record ConfigurationResource : Type 0 where
  pub address : String
  pub provider_config_key : String
  pub expressions : Dict Json

mutual
  pub data ConfigurationModule : Type 0 where
    -- the resources, the variables and the module calls
    configuration_module :
        List ConfigurationResource → Dict Json → ModuleCalls → ConfigurationModule

  pub data ModuleCalls : Type 0 where
    no_calls : ModuleCalls
    call : String → ConfigurationModule → ModuleCalls → ModuleCalls
    -- a call whose module is nil
    empty_call : String → ModuleCalls → ModuleCalls

-- `providerWithResourceValues`
pub record ResourceProvider (P : Type 0) : Type 0 where
  pub provider : P
  pub values : Dict Json

-- the last part of a key with colons
abbrev last_part : String → List String → String
last_part key [] = key
last_part key (part ∷ parts) = last_part part parts

abbrev pub provider_key : String → String
provider_key key = last_part key (split b':' key)

abbrev pub address_in : String → String → String
address_in prefix addr = if prefix == "" then addr else "module." <> prefix <> "." <> addr

abbrev pub next_prefix : String → String → String
next_prefix prefix k = if prefix == "" then k else prefix <> ".module." <> k

module _ {P : Type 0} (format_value : Json → String) (providers : Dict P) where
  -- one round of the loop over a module's resources
  abbrev pub configure_resource :
      String
      → Dict Json
      → ConfigurationResource
      → Option P
      → Dict (ResourceProvider P)
      → Run (Dict (ResourceProvider P))
  configure_resource prefix variables res none rps = done rps
  configure_resource prefix variables res (some prov) rps =
      wrap_run "failed to evaluate resource expressions: %w" []
        (evaluate_resource_expressions format_value ("module." <> prefix) res.expressions variables)
      >>> λ rv.
          done
            (insert (address_in prefix res.address) (record { provider = prov; values = rv }) rps)

  unfoldable pub configure_resources :
      String
      → Dict Json
      → List ConfigurationResource
      → Dict (ResourceProvider P)
      → Run (Dict (ResourceProvider P))
  configure_resources prefix variables [] rps = done rps
  configure_resources prefix variables (res ∷ resources) rps =
      configure_resource prefix variables res
        (lookup (provider_key res.provider_config_key) providers) rps
      >>> λ rps. configure_resources prefix variables resources rps

unfoldable mutual
  unfolding configure_resources

  -- `extractModuleConfiguration`
  pub extract_module_configuration :
      {P : Type 0}
      → (Json → String)
      → Dict P
      → String
      → ConfigurationModule
      → Dict (ResourceProvider P)
      → Run (Dict (ResourceProvider P))
  extract_module_configuration fmt providers prefix (configuration_module resources variables calls)
        rps =
      configure_resources fmt providers prefix variables resources rps >>> λ rps.
      extract_calls fmt providers prefix calls rps

  -- its loop over the module calls
  pub extract_calls :
      {P : Type 0}
      → (Json → String)
      → Dict P
      → String
      → ModuleCalls
      → Dict (ResourceProvider P)
      → Run (Dict (ResourceProvider P))
  extract_calls fmt providers prefix no_calls rps = done rps
  extract_calls fmt providers prefix (empty_call k calls) rps =
      extract_calls fmt providers prefix calls rps
  extract_calls fmt providers prefix (call k child calls) rps =
      wrap_run "failed to extract child (%s) module configuration: %w" (next_prefix prefix k ∷ [])
        (extract_module_configuration fmt providers (next_prefix prefix k) child rps)
      >>> λ rps. extract_calls fmt providers prefix calls rps
