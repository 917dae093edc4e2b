-- ===== src/Estimation.antt =====
-- estimation.go: `EstimateTerraformPlan`. `default_providers` is what `getDefaultProviders` returns, and
-- `read` the document of the plan, or the error of its decoding.
pub mod Addresses
pub mod Tests
use terracost.Prelude.{
  ℕ, zero, suc, ◌+◌, ◌-◌, ◌*◌, ◌/◌, ◌%◌, ◌≤◌, ◌<◌, String, ◌≡◌, refl, sym, ap, ◌∙◌, subst, ◌≢◌, ◌↔◌,
  ◌⊎◌, inl, inr, Bool, true, false, not, ◌&&◌, ◌||◌, false≢true, Option, none, some, List, [], ◌∷◌,
  ◌++◌, map, arith, ◌==◌, eq_iff, eq_refl, ltb, leb, eqb, if◌then◌else◌, Bool-cases, Option-cases,
  is_some, length, length-append, All, All-append, List-cases, mem, mem-append,
}
use terracost.Errors.{Error, Result, Run, done, failed, panic, ◌>>>◌, run_of, no_queries}
use terracost.Dict.{Dict}
use terracost.Decimal.{Decimal}
use terracost.Query.{ResourceQuery}
use terracost.Mysql.Filters.{join}
use terracost.Terraform.Json.{Json}
use terracost.Terraform.Providers.{Initializer}
use terracost.Terraform.Configuration.{
  ConfigurationModule, configuration_module, ModuleCalls, no_calls, call, empty_call,
}
use terracost.Terraform.Queries.{TfProvider}
use terracost.Terraform.Plan.{
  TfDocument, TfPlan, plan_of, extract_planned_queries, extract_prior_queries,
}
use terracost.Cost.State.{Catalog, State, new_state}
use terracost.Cost.Plan.{Plan, new_plan, sort_strings}

-- `err != terraform.ErrNoQueries`, and the state that `NewState` returns: nil with an error
abbrev pub prior_of : {D : Type 0} → Run (State D) → Run (Option (State D))
prior_of (done s) = done (some s)
prior_of (failed no_queries) = done none
prior_of (failed e) = failed e
prior_of (panic why) = panic why

abbrev call_names : ModuleCalls → List String
call_names no_calls = []
call_names (call k _ calls) = k ∷ call_names calls
call_names (empty_call k calls) = k ∷ call_names calls

abbrev root_calls : ConfigurationModule → List String
root_calls (configuration_module _ _ calls) = call_names calls

-- the name of the plan
abbrev pub module_names : ConfigurationModule → String
module_names m = join ", " (sort_strings (root_calls m))

-- `if len(providerInitializers) == 0`
abbrev pub or_default : {A : Type 0} → List A → List A → List A
or_default default_providers [] = default_providers
or_default default_providers (pi ∷ pis) = pi ∷ pis

module _ {D : Type 0} ⦃d : Decimal D⦄ (be : Catalog D) (format_value : Json → String)
    (default_providers : List (Initializer (TfProvider D))) where
  abbrev pub estimate_plan : TfPlan D → Run (Plan D)
  estimate_plan tfplan = extract_prior_queries format_value tfplan >>> λ prior_queries.
      prior_of (new_state be prior_queries) >>> λ prior.
      extract_planned_queries format_value tfplan >>> λ planned_queries.
      new_state be planned_queries >>> λ planned.
      done (new_plan (module_names tfplan.document.root_module) prior (some planned))

  -- `EstimateTerraformPlan`
  unfoldable pub estimate_terraform_plan :
      Result TfDocument → Dict Json → List (Initializer (TfProvider D)) → Run (Plan D)
  unfolding extract_prior_queries extract_planned_queries
  estimate_terraform_plan read usage initializers = run_of read >>> λ document.
      estimate_plan (plan_of (or_default default_providers initializers) document usage)
