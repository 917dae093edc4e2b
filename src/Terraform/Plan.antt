-- ===== src/Terraform/Plan.antt =====
-- terraform/plan.go: a plan that was read, and the queries of its two states.
use terracost.Prelude.{String, Option, none, some, List, [], ◌∷◌}
use terracost.Errors.{Run, done, ◌>>>◌, wrap_run, run_of}
use terracost.Dict.{Dict}
use terracost.Query.{ResourceQuery}
use terracost.Terraform.Json.{Json}
use terracost.Terraform.Providers.{ProviderConfig, Initializer, initializer_map, extract_providers}
use terracost.Terraform.Configuration.{
  ConfigurationModule, ResourceProvider, extract_module_configuration,
}
use terracost.Terraform.Queries.{TfProvider, Module, extract_module_queries}

-- what the JSON of a plan holds: the modules are the root modules
pub record TfDocument : Type 0 where
  pub provider_config : Dict ProviderConfig
  pub root_module : ConfigurationModule
  pub prior_state : Option Module
  pub planned_values : Module
  pub variables : Dict Json

-- `Plan`
pub record TfPlan (D : Type 0) : Type 0 where
  pub provider_initializers : Dict (Initializer (TfProvider D))
  pub usage : Dict Json
  pub document : TfDocument

module _ {D : Type 0} where
  -- `NewPlan`, `Read` of a document and `SetUsage`
  abbrev pub plan_of : List (Initializer (TfProvider D)) → TfDocument → Dict Json → TfPlan D
  plan_of initializers document usage = record {
    provider_initializers = initializer_map initializers [];
    usage = usage;
    document = document;
  }

  -- `extractProviders` of the plan
  abbrev pub plan_providers : TfPlan D → Run (Dict (TfProvider D))
  plan_providers p =
      run_of
        (extract_providers p.provider_initializers p.document.variables p.document.provider_config)

module _ {D : Type 0} (format_value : Json → String) where
  abbrev pub plan_configuration :
      TfPlan D → Dict (TfProvider D) → Run (Dict (ResourceProvider (TfProvider D)))
  plan_configuration p providers =
      wrap_run "failed to extract module (%s) configuration: %w" ("root_module" ∷ [])
        (extract_module_configuration format_value providers "" p.document.root_module [])

  -- `extractQueries`
  unfoldable pub extract_queries :
      TfPlan D → Module → Dict (TfProvider D) → Run (List (ResourceQuery D))
  extract_queries p values providers =
      plan_configuration p providers >>> λ rps. extract_module_queries p.usage rps values

  -- `ExtractPlannedQueries`
  unfoldable pub extract_planned_queries : TfPlan D → Run (List (ResourceQuery D))
  unfolding extract_queries
  extract_planned_queries p =
      wrap_run "unable to extract planned queries: %w" [] (plan_providers p) >>> λ providers.
      wrap_run "failed to extract queries: %w" []
        (extract_queries p p.document.planned_values providers)

  abbrev pub prior_queries : TfPlan D → Option Module → Run (List (ResourceQuery D))
  prior_queries p none = done []
  prior_queries p (some values) =
      wrap_run "unable to extract prior queries: %w" [] (plan_providers p) >>> λ providers.
      wrap_run "failed to extract queries: %w" [] (extract_queries p values providers)

  -- `ExtractPriorQueries`
  unfoldable pub extract_prior_queries : TfPlan D → Run (List (ResourceQuery D))
  unfolding extract_queries
  extract_prior_queries p = prior_queries p p.document.prior_state
