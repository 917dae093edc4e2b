-- ===== src/Estimation/Addresses.antt =====
-- Which resources of a plan have a place in its estimate.
use terracost.Prelude.{
  String, ◌≡◌, refl, ap, ◌∙◌, inl, inr, Bool, false, Option, none, some, List, [], ◌∷◌, arith, mem,
}
use terracost.Errors.{ok, done, ◌>>>◌, >>>-eq-done, along_done, wrap_run, wrap_run-eq-done}
use terracost.Decimal.{Decimal}
use terracost.Dict.{Dict, lookup}
use terracost.Query.{ResourceQuery, addresses}
use mathlib.Core.Path.{fun_ext}
use terracost.Terraform.Json.{Json}
use terracost.Terraform.Providers.{Initializer}
use terracost.Terraform.Configuration.{
  ConfigurationModule, ResourceProvider, extract_module_configuration,
}
use terracost.Terraform.Configuration.Addresses.{configured, extract_module_configuration_lem}
use terracost.Terraform.Queries.{TfProvider, Module}
use terracost.Terraform.Queries.Addresses.{managed, has_provider, extract_module_queries_lem}
use terracost.Terraform.Plan.{
  TfDocument, TfPlan, plan_of, plan_providers, plan_configuration, extract_queries,
  extract_planned_queries, prior_queries, extract_prior_queries,
}
use terracost.Cost.State.{Catalog, State, new_state}
use terracost.Cost.State.Addresses.{has, has-new_state, new_state-cases}
use terracost.Cost.Plan.{Plan, new_plan}
use terracost.Estimation.{prior_of, module_names, or_default, estimate_terraform_plan}

-- The address has a provider in the configuration.
abbrev pub is_configured : {P : Type 0} → Dict P → ConfigurationModule → String → Bool
is_configured providers m a = mem a (configured providers "" m)

-- The resource is in the state, if there is one.
abbrev pub has_in : {D : Type 0} → String → Option (State D) → Bool
has_in a none = false
has_in a (some s) = has a s

-- The addresses of the estimated resources, of a state that may be missing.
abbrev pub managed_of : (String → Bool) → Option Module → List String
managed_of known none = []
managed_of known (some values) = managed known values

has_provider-configured :
    {P : Type 0} (fmt : Json → String) (providers : Dict P) (m : ConfigurationModule)
    {rps : Dict (ResourceProvider P)}
    → extract_module_configuration fmt providers "" m [] ≡ done rps
    → has_provider rps ≡ is_configured providers m
unfolding lookup
has_provider-configured fmt providers m e =
    fun_ext (λ a. extract_module_configuration_lem fmt providers "" m [] e a ∙ ground arith)

module _ {D : Type 0} (fmt : Json → String) (p : TfPlan D) (providers : Dict (TfProvider D)) where
  extract_queries_lem :
      (values : Module) {qs : List (ResourceQuery D)}
      → extract_queries fmt p values providers ≡ done qs
      → (a : String)
      → mem a (addresses qs)
        ≡ mem a (managed (is_configured providers p.document.root_module) values)
  unfolding extract_queries
  extract_queries_lem values e a =
      let format : String = "failed to extract module (%s) configuration: %w" in
      let walk = extract_module_configuration fmt providers "" p.document.root_module [] in
      let (rps, e1, e2) = >>>-eq-done (plan_configuration fmt p providers) _ e in
      extract_module_queries_lem p.usage rps values e2 a
      ∙ ap (λ (known : String → Bool). mem a (managed known values))
          (has_provider-configured fmt providers p.document.root_module
            (wrap_run-eq-done format ("root_module" ∷ []) walk e1))

  -- The queries of one of the states, where the providers are those of the plan.
  wrapped_queries_lem :
      (format : String) (values : Module) {qs : List (ResourceQuery D)}
      → plan_providers p ≡ done providers
      → (wrap_run format [] (plan_providers p) >>> λ providers.
          wrap_run "failed to extract queries: %w" [] (extract_queries fmt p values providers))
        ≡ done qs
      → (a : String)
      → mem a (addresses qs)
        ≡ mem a (managed (is_configured providers p.document.root_module) values)
  wrapped_queries_lem format values e q = extract_queries_lem values (
      wrap_run-eq-done "failed to extract queries: %w" [] (extract_queries fmt p values providers)
        (rw e at q))

module _ {D : Type 0} ⦃d : Decimal D⦄ (be : Catalog D) where
  has_in-prior_of :
      (qs : List (ResourceQuery D)) {prior : Option (State D)}
      → prior_of (new_state be qs) ≡ done prior
      → (a : String) → has_in a prior ≡ mem a (addresses qs)
  has_in-prior_of qs {prior} e a = elim (new_state-cases be qs) [
    | inl (none_asked, p) ↦
        along_done (λ (o : Option (State D)). has_in a o ≡ mem a (addresses qs)) {x = none}
          {y = prior} (rw p at e) (rw none_asked)
    | inr (inl (s, p)) ↦
        along_done (λ (o : Option (State D)). has_in a o ≡ mem a (addresses qs)) {x = some s}
          {y = prior} (rw p at e) (has-new_state be qs s p a)
    | inr (inr (why, p)) ↦ cc (rw p at e)
  ]

module _ {D : Type 0} (fmt : Json → String) (p : TfPlan D) (providers : Dict (TfProvider D)) where
  planned_queries_lem :
      {qs : List (ResourceQuery D)}
      → plan_providers p ≡ done providers
      → extract_planned_queries fmt p ≡ done qs
      → (a : String)
      → mem a (addresses qs)
        ≡ mem a (managed (is_configured providers p.document.root_module) p.document.planned_values)
  unfolding extract_planned_queries
  planned_queries_lem e q =
      wrapped_queries_lem fmt p providers "unable to extract planned queries: %w"
        p.document.planned_values e q

  prior_queries_lem :
      (values : Option Module) {qs : List (ResourceQuery D)}
      → plan_providers p ≡ done providers
      → prior_queries fmt p values ≡ done qs
      → (a : String)
      → mem a (addresses qs)
        ≡ mem a (managed_of (is_configured providers p.document.root_module) values)
  prior_queries_lem none e q a =
      along_done (λ (t : List (ResourceQuery D)). mem a (addresses t) ≡ false) q refl
  prior_queries_lem (some values) e q a =
      wrapped_queries_lem fmt p providers "unable to extract prior queries: %w" values e q a

module _ {D : Type 0} (fmt : Json → String) (p : TfPlan D) where
  planned_providers :
      {qs : List (ResourceQuery D)}
      → extract_planned_queries fmt p ≡ done qs
      → (providers : Dict (TfProvider D)) × (plan_providers p ≡ done providers)
  unfolding extract_planned_queries
  planned_providers e =
      let format : String = "unable to extract planned queries: %w" in
      let (providers, e1, e2) = >>>-eq-done (wrap_run format [] (plan_providers p)) _ e in
      (providers, wrap_run-eq-done format [] (plan_providers p) e1)

-- The states of the estimate hold the estimated resources of the document's two states and no others.
module _ {D : Type 0} where
  abbrev pub Shows : TfDocument → Dict (TfProvider D) → Plan D → Type 0
  Shows document providers plan =
      let known = is_configured providers document.root_module in
      (a : String)
      → (has_in a plan.prior ≡ mem a (managed_of known document.prior_state))
        × (has_in a plan.planned ≡ mem a (managed known document.planned_values))

module _ {D : Type 0} ⦃d : Decimal D⦄ (be : Catalog D) (fmt : Json → String)
    (default_providers : List (Initializer (TfProvider D))) where
  -- If EstimateTerraformPlan of a decoded document returns a plan, the providers of the document
  -- were found, the prior state has exactly the addresses of the managed resources of the prior
  -- values that have a provider, and none where these are missing, and the planned state those of
  -- the planned values. An address has a provider if, cleaned of its instance keys, it is that of
  -- a resource of the configuration whose provider's key is among those found.
  pub estimate_terraform_plan-addresses :
      (document : TfDocument) (usage : Dict Json) (initializers : List (Initializer (TfProvider D)))
      {plan : Plan D}
      → estimate_terraform_plan be fmt default_providers (ok document) usage initializers
        ≡ done plan
      → (providers : Dict (TfProvider D)) × (plan_providers
            (plan_of (or_default default_providers initializers) document usage)
          ≡ done providers)
        × Shows document providers plan
  unfolding estimate_terraform_plan new_plan
  estimate_terraform_plan-addresses document usage initializers {plan} e =
      let tfplan = plan_of (or_default default_providers initializers) document usage in
      let (prior_asked, e1, r1) = >>>-eq-done (extract_prior_queries fmt tfplan) _ e in
      let (prior, e2, r2) = >>>-eq-done (prior_of (new_state be prior_asked)) _ r1 in
      let (planned_asked, e3, r3) = >>>-eq-done (extract_planned_queries fmt tfplan) _ r2 in
      let (planned, e4, r4) = >>>-eq-done (new_state be planned_asked) _ r3 in
      let (providers, e5) = planned_providers fmt tfplan e3 in
      (
        providers,
        e5,
        along_done (Shows document providers)
            {x = new_plan (module_names document.root_module) prior (some planned)} {y = plan} r4
            (λ a. (
              has_in-prior_of be prior_asked e2 a
                  ∙ prior_queries_lem fmt tfplan providers document.prior_state e5
                      (unfold extract_prior_queries in e1) a,
              has-new_state be planned_asked planned e4 a
                  ∙ planned_queries_lem fmt tfplan providers e5 e3 a,
            )),
      )
