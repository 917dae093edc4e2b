-- ===== src/Terraform/Providers/Extracted.antt =====
-- `extractProviders`: which configurations give a provider, and which.
use terracost.Prelude.{
  String, ◌≡◌, refl, subst, ◌↔◌, ◌≢◌, inl, inr, Option, none, some, [], ◌∷◌, eq_refl, Option-cases,
  All,
}
use terracost.Errors.{Result, ok, err, wrap, ◌>>=◌, >>=-eq-ok}
use terracost.Cost.Totals.{wrap-eq-ok}
use terracost.Dict.{Dict, lookup, IsMap, All-of_lookup}
use terracost.Terraform.Json.{Json}
use terracost.Terraform.Providers.{
  ProviderConfig, Initializer, initialized, extract_provider, extract_providers, some_providers,
  evaluate_provider_config_expressions,
}
use terracost.Terraform.Providers.Chosen.{outcome_at, collect_all, collect-total}

-- The provider of a configuration: what the initializer for the configuration's name returned for its
-- values, nil or not, and none without an initializer.
pub data Given {P : Type 0} (initializers : Dict (Initializer P)) (variables : Dict Json)
    (config : ProviderConfig) : Option P → Type 0 where
  unmatched : lookup config.name initializers ≡ none → Given initializers variables config none
  returned :
      {pi : Initializer P} {values : Dict Json} {p : Option P}
      → lookup config.name initializers ≡ some pi
      → evaluate_provider_config_expressions variables config ≡ ok values
      → pi.provider values ≡ ok p
      → Given initializers variables config p

-- The provider under a name: that of its configuration, and none without one.
pub data Provided {P : Type 0} (initializers : Dict (Initializer P)) (variables : Dict Json)
    : Option ProviderConfig → Option P → Type 0 where
  absent : Provided initializers variables none none
  present :
      {config : ProviderConfig} {p : Option P}
      → Given initializers variables config p
      → Provided initializers variables (some config) p

module _ {P : Type 0} where
  nonempty :
      (r : Result (Dict P)) (providers : Dict P)
      → (r >>= some_providers) ≡ ok providers
      → (r ≡ ok providers) × (providers ≢ [])
  nonempty (err e) providers h = cc
  nonempty (ok []) providers h = cc
  nonempty (ok (p ∷ ps)) providers h = (h, λ q. cc (h, q))

  some_providers-eq-ok :
      (name : String) (p : P) (providers : Dict P)
      → lookup name providers ≡ some p
      → some_providers providers ≡ ok providers
  unfolding lookup
  some_providers-eq-ok name p [] h = cc
  some_providers-eq-ok name p (e ∷ providers) h = refl

module _ {P : Type 0} (initializers : Dict (Initializer P)) (variables : Dict Json) where
  extract_provider-Given :
      (name : String) (config : ProviderConfig) (p : Option P)
      → extract_provider initializers variables name config ≡ ok p
      → Given initializers variables config p
  extract_provider-Given name config p h =
      let format : String = "failed to read config of provider %q: %w" in
      elim (Option-cases (lookup config.name initializers)) [
        | inl q ↦
            subst (Given initializers variables config) {x = none} {y = p} (cc (rw q at h))
              (unmatched q)
        | inr (pi, q) ↦
            let (values, e, e') =
              >>=-eq-ok
                (wrap format (name ∷ []) (evaluate_provider_config_expressions variables config))
                pi.provider (rw (q, initialized) at h) in
            returned q
              ((wrap-eq-ok format (name ∷ [])
                  (evaluate_provider_config_expressions variables config) {a = values}).0
                e)
              e'
      ]

  Given-extract_provider :
      (name : String) (config : ProviderConfig) (p : Option P)
      → Given initializers variables config p
      → extract_provider initializers variables name config ≡ ok p
  Given-extract_provider name config p (unmatched q) = rw q refl
  Given-extract_provider name config p (returned q e e') = rw (q, initialized, e) e'

  outcome_at-Provided :
      (name : String) (config : Option ProviderConfig) (p : Option P)
      → outcome_at (extract_provider initializers variables) name config ≡ ok p
      → Provided initializers variables config p
  outcome_at-Provided name none p h =
      subst (Provided initializers variables none) {x = none} {y = p} (cc h) absent
  outcome_at-Provided name (some config) p h = present (extract_provider-Given name config p h)

  Provided-Given :
      {config : ProviderConfig} {p : Option P}
      → Provided initializers variables (some config) p
      → (q : Option P) × Given initializers variables config q
  Provided-Given (present g) = (_, g)

  Provided-some :
      {config : Option ProviderConfig} {p : P}
      → Provided initializers variables config (some p)
      → (c : ProviderConfig) × (config ≡ some c) × Given initializers variables c (some p)
  Provided-some (present g) = (_, refl, g)

  extract_each :
      (m : Dict ProviderConfig)
      → All (λ e. (p : Option P) × Given initializers variables e.1 p) m
      → All (λ e. (p : Option P) × (extract_provider initializers variables e.0 e.1 ≡ ok p)) m
  extract_each [] h = tt
  extract_each ((k, config) ∷ m) ((p, g), h) =
      ((p, Given-extract_provider k config p g), extract_each m h)

  -- A provider that is not nil, under the name of one of the configurations.
  abbrev pub HasProvider : Dict ProviderConfig → Type 0
  HasProvider configs =
      (name : String) × (config : ProviderConfig) × (p : P) × (lookup name configs ≡ some config)
      × Given initializers variables config (some p)

  found-HasProvider :
      (configs : Dict ProviderConfig) (providers : Dict P)
      → providers ≢ []
      → ((name : String)
          → Provided initializers variables (lookup name configs) (lookup name providers))
      → HasProvider configs
  unfolding lookup
  found-HasProvider configs [] h each = absurd (h refl)
  found-HasProvider configs ((k, p) ∷ providers) h each =
      let (config, e, g) = Provided-some (
        subst (Provided initializers variables (lookup k configs)) {y = some p} (rw (eq_refl k))
          (each k)) in
      (k, config, p, e, g)

  -- For configurations with distinct names extractProviders returns providers exactly where every
  -- configuration has an outcome and some configuration has a provider that is not nil, and then every
  -- name has the provider of its configuration, and a name without a configuration has none. The
  -- outcome of a configuration is none where there is no initializer for its Name, and else what that
  -- initializer returned, nil or not, for the values of the configuration's expressions.
  pub extract_providers_iff :
      (configs : Dict ProviderConfig)
      → IsMap configs
      → (All (λ e. (p : Option P) × Given initializers variables e.1 p) configs
          × HasProvider configs)
        ↔ ((providers : Dict P) × (extract_providers initializers variables configs ≡ ok providers)
            × ((name : String)
                → Provided initializers variables (lookup name configs) (lookup name providers)))
  unfolding extract_providers
  extract_providers_iff configs m = (
    λ (h, (name, config, p, found, g)).
        let (providers, e) =
          collect-total (extract_provider initializers variables) [] configs
            (extract_each configs h) in
        let at_name =
          collect_all (extract_provider initializers variables) configs providers name m e in
        let here : ok (lookup name providers) ≡ ok (some p) =
          cc (rw found at at_name, Given-extract_provider name config (some p) g) in
        (
          providers,
          rw (e, ◌>>=◌) (some_providers-eq-ok name p providers (cc here)),
          λ k.
              outcome_at-Provided k (lookup k configs) (lookup k providers)
                (collect_all (extract_provider initializers variables) configs providers k m e),
        ),
    λ (providers, e, each). (
      All-of_lookup (λ k config. (p : Option P) × Given initializers variables config p) configs m
          (λ k config q. Provided-Given (
            subst
              (λ (o : Option ProviderConfig).
                Provided initializers variables o (lookup k providers))
              q (each k))),
      found-HasProvider configs providers (nonempty _ providers e).1 each,
    ),
  )
