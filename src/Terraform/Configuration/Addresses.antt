-- ===== src/Terraform/Configuration/Addresses.antt =====
-- The addresses that `extractModuleConfiguration` gives a provider.
use terracost.Prelude.{
  String, ◌≡◌, refl, ◌||◌, Option, none, some, List, [], ◌∷◌, ◌++◌, arith, is_some, mem, mem-append,
}
use terracost.Errors.{done, >>>-eq-done, along_done, wrap_run, wrap_run-eq-done}
use terracost.Dict.{Dict, lookup, is_some-lookup-insert}
use terracost.Aws.Text.{◌<>◌}
use terracost.Terraform.Json.{Json}
use terracost.Terraform.Expressions.{evaluate_resource_expressions}
use terracost.Terraform.Configuration.{
  ConfigurationResource, ConfigurationModule, configuration_module, ModuleCalls, no_calls, call,
  empty_call, ResourceProvider, provider_key, address_in, next_prefix, configure_resource,
  configure_resources, extract_module_configuration, extract_calls,
}

-- the address, if the provider is known
abbrev with_known : {P : Type 0} → String → Option P → List String
with_known a none = []
with_known a (some prov) = a ∷ []

-- what a part of the walk does to the addresses that have a provider
abbrev Step : {P : Type 0} → List String → Dict P → Dict P → Type 0
Step new rps rps' = (a : String) → is_some (lookup a rps') ≡ (mem a new || is_some (lookup a rps))

module _ {P : Type 0} (providers : Dict P) where
  -- the addresses of a module's resources whose provider is known
  abbrev pub configured_in : String → List ConfigurationResource → List String
  configured_in prefix [] = []
  configured_in prefix (res ∷ resources) =
      with_known (address_in prefix res.address)
        (lookup (provider_key res.provider_config_key) providers)
      ++ configured_in prefix resources

unfoldable mutual
  -- Those of a module and of the modules that it calls, each under the path of the calls.
  pub configured : {P : Type 0} → Dict P → String → ConfigurationModule → List String
  configured providers prefix (configuration_module resources variables calls) =
      configured_in providers prefix resources ++ configured_below providers prefix calls

  pub configured_below : {P : Type 0} → Dict P → String → ModuleCalls → List String
  configured_below providers prefix no_calls = []
  configured_below providers prefix (empty_call k calls) = configured_below providers prefix calls
  configured_below providers prefix (call k child calls) =
      configured providers (next_prefix prefix k) child ++ configured_below providers prefix calls

module _ {P : Type 0} where
  Step-compose :
      (new new' : List String) (r r' r'' : Dict P)
      → Step new r r'
      → Step new' r' r''
      → Step (new ++ new') r r''
  Step-compose new new' r r' r'' s s' a = rw (mem-append, s' a, s a) (ground arith)

module _ {P : Type 0} (fmt : Json → String) (providers : Dict P) where
  configure_resource-Step :
      (prefix : String) (variables : Dict Json) (res : ConfigurationResource) (prov : Option P)
      (rps : Dict (ResourceProvider P)) {rps' : Dict (ResourceProvider P)}
      → configure_resource fmt providers prefix variables res prov rps ≡ done rps'
      → Step (with_known (address_in prefix res.address) prov) rps rps'
  configure_resource-Step prefix variables res none rps e =
      along_done (λ (r : Dict (ResourceProvider P)). Step [] rps r) e (λ a. refl)
  configure_resource-Step prefix variables res (some prov) rps e =
      let format : String = "failed to evaluate resource expressions: %w" in
      let evaluated =
        evaluate_resource_expressions fmt ("module." <> prefix) res.expressions variables in
      let (rv, e1, e2) = >>>-eq-done (wrap_run format [] evaluated) _ e in
      along_done
        (λ (r : Dict (ResourceProvider P)). Step (address_in prefix res.address ∷ []) rps r) e2
        (λ a. rw is_some-lookup-insert (ground arith))

  configure_resources-Step :
      (prefix : String) (variables : Dict Json) (resources : List ConfigurationResource)
      (rps : Dict (ResourceProvider P)) {rps' : Dict (ResourceProvider P)}
      → configure_resources fmt providers prefix variables resources rps ≡ done rps'
      → Step (configured_in providers prefix resources) rps rps'
  unfolding configure_resources
  configure_resources-Step prefix variables [] rps e =
      along_done (λ (r : Dict (ResourceProvider P)). Step [] rps r) e (λ a. refl)
  configure_resources-Step prefix variables (res ∷ resources) rps {rps'} e =
      let prov = lookup (provider_key res.provider_config_key) providers in
      let (mid, e1, e2) =
        >>>-eq-done (configure_resource fmt providers prefix variables res prov rps) _ e in
      Step-compose (with_known (address_in prefix res.address) prov)
        (configured_in providers prefix resources) rps mid rps'
        (configure_resource-Step prefix variables res prov rps e1)
        (configure_resources-Step prefix variables resources mid e2)

mutual
  unfolding extract_module_configuration configured

  pub extract_module_configuration_lem :
      {P : Type 0} (fmt : Json → String) (providers : Dict P) (prefix : String)
      (m : ConfigurationModule) (rps : Dict (ResourceProvider P)) {rps' : Dict (ResourceProvider P)}
      → extract_module_configuration fmt providers prefix m rps ≡ done rps'
      → (a : String)
      → is_some (lookup a rps') ≡ (mem a (configured providers prefix m) || is_some (lookup a rps))
  extract_module_configuration_lem {P = P} fmt providers prefix
        (configuration_module resources variables calls) rps {rps'} e =
      let (mid, e1, e2) =
        >>>-eq-done (configure_resources fmt providers prefix variables resources rps) _ e in
      Step-compose (configured_in providers prefix resources)
        (configured_below providers prefix calls) rps mid rps'
        (configure_resources-Step fmt providers prefix variables resources rps e1)
        (extract_calls_lem fmt providers prefix calls mid e2)

  extract_calls_lem :
      {P : Type 0} (fmt : Json → String) (providers : Dict P) (prefix : String) (m : ModuleCalls)
      (rps : Dict (ResourceProvider P)) {rps' : Dict (ResourceProvider P)}
      → extract_calls fmt providers prefix m rps ≡ done rps'
      → (a : String)
      → is_some (lookup a rps')
        ≡ (mem a (configured_below providers prefix m) || is_some (lookup a rps))
  extract_calls_lem {P = P} fmt providers prefix no_calls rps e =
      along_done (λ (r : Dict (ResourceProvider P)). Step [] rps r) e (λ a. refl)
  extract_calls_lem fmt providers prefix (empty_call k calls) rps e =
      extract_calls_lem fmt providers prefix calls rps e
  extract_calls_lem fmt providers prefix (call k child calls) rps {rps'} e =
      let below = extract_module_configuration fmt providers (next_prefix prefix k) child rps in
      let format : String = "failed to extract child (%s) module configuration: %w" in
      let (mid, e1, e2) = >>>-eq-done (wrap_run format (next_prefix prefix k ∷ []) below) _ e in
      Step-compose (configured providers (next_prefix prefix k) child)
        (configured_below providers prefix calls) rps mid rps'
        (extract_module_configuration_lem fmt providers (next_prefix prefix k) child rps
          (wrap_run-eq-done format (next_prefix prefix k ∷ []) below e1))
        (extract_calls_lem fmt providers prefix calls mid e2)
