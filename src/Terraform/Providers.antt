-- ===== src/Terraform/Providers.antt =====
-- terraform/plan.go, terraform/provider.go and terraform/schema.go: the providers of a plan, of a type `P`.
pub mod Chosen
pub mod Values
pub mod Extracted
use terracost.Prelude.{
  ℕ, zero, suc, ◌+◌, ◌-◌, ◌*◌, ◌/◌, ◌%◌, ◌≤◌, ◌<◌, String, ◌≡◌, refl, sym, ap, ◌∙◌, subst, ◌≢◌, ◌↔◌,
  ◌⊎◌, inl, inr, Bool, true, false, not, ◌&&◌, ◌||◌, false≢true, Option, none, some, List, [], ◌∷◌,
  ◌++◌, map, arith, ◌==◌, eq_iff, eq_refl, ltb, leb, eqb, if◌then◌else◌, Bool-cases, Option-cases,
  is_some, length, length-append, All, All-append, List-cases,
}
use terracost.Errors.{
  Error, Result, ok, err, wrapf, errorf, wrap, ◌>>=◌, no_providers, no_known_provider,
}
use terracost.Dict.{Dict, lookup, insert}
use terracost.Terraform.Json.{Json, text, is_empty}
use terracost.Query.{ResourceQuery}
use terracost.Aws.Text.{split}

-- `ProviderConfigExpression`
pub record Expression : Type 0 where
  pub constant_value : String
  pub references : List String

pub record ProviderConfig : Type 0 where
  pub name : String
  pub expressions : Dict Expression

pub record Initializer (P : Type 0) : Type 0 where
  pub match_names : List String
  -- nil may be returned, to leave the provider out
  pub provider : Dict Json → Result (Option P)

abbrev pub put_some : {W : Type 0} → String → Option W → Dict W → Dict W
put_some k none out = out
put_some k (some w) out = insert k w out

module _ {V W : Type 0} where
  -- `for k, v := range m { w, err := f(k, v); if err != nil { return nil, err }; out[k] = w }`, where
  -- the assignment is left out for some
  unfoldable pub collect : (String → V → Result (Option W)) → Dict W → Dict V → Result (Dict W)
  collect f out [] = ok out
  collect f out ((k, v) ∷ m) = f k v >>= λ w. collect f (put_some k w out) m

abbrev pub invalid_reference : Error
invalid_reference = errorf "config expression contains invalid reference" []

abbrev pub variable_value : String → Option Json → Result (Option Json)
variable_value var_name none = err (errorf "required variable %q is not defined" (var_name ∷ []))
variable_value var_name (some v) =
    if is_empty v
    then err (errorf "required variable %q is not defined" (var_name ∷ []))
    else ok (some v)

abbrev pub reference_value : Dict Json → List String → Result (Option Json)
reference_value variables (_ ∷ var_name ∷ _) = variable_value var_name (lookup var_name variables)
reference_value variables _ = err invalid_reference

-- the body of the loop of `evaluateProviderConfigExpressions`
abbrev pub evaluate_expression : Dict Json → String → Expression → Result (Option Json)
evaluate_expression variables name e =
    if not (e.constant_value == "") then ok (some (text e.constant_value)) else elim e.references [
      | [] ↦ err invalid_reference
      | r ∷ _ ↦ reference_value variables (split b'.' r)
    ]

-- `evaluateProviderConfigExpressions`
unfoldable pub evaluate_provider_config_expressions :
    Dict Json → ProviderConfig → Result (Dict Json)
unfolding collect
evaluate_provider_config_expressions variables config =
    collect (evaluate_expression variables) [] config.expressions

abbrev pub some_providers : {P : Type 0} → Dict P → Result (Dict P)
some_providers [] = err no_providers
some_providers (p ∷ ps) = ok (p ∷ ps)

module _ {P : Type 0} where
  abbrev pub match_all : Initializer P → List String → Dict (Initializer P) → Dict (Initializer P)
  match_all pi [] pi_map = pi_map
  match_all pi (name ∷ names) pi_map = match_all pi names (insert name pi pi_map)

  -- the map of `NewPlan`
  unfoldable pub initializer_map :
      List (Initializer P) → Dict (Initializer P) → Dict (Initializer P)
  initializer_map [] pi_map = pi_map
  initializer_map (pi ∷ pis) pi_map = initializer_map pis (match_all pi pi.match_names pi_map)

  abbrev pub initialized :
      Dict Json → String → ProviderConfig → Option (Initializer P) → Result (Option P)
  initialized variables name config none = ok none
  initialized variables name config (some pi) =
      wrap "failed to read config of provider %q: %w" (name ∷ [])
        (evaluate_provider_config_expressions variables config)
      >>= λ values. pi.provider values

  -- the body of the loop of `extractProviders`
  abbrev pub extract_provider :
      Dict (Initializer P) → Dict Json → String → ProviderConfig → Result (Option P)
  extract_provider initializers variables name config =
      initialized variables name config (lookup config.name initializers)

  -- `extractProviders`
  unfoldable pub extract_providers :
      Dict (Initializer P) → Dict Json → Dict ProviderConfig → Result (Dict P)
  unfolding collect evaluate_provider_config_expressions
  extract_providers initializers variables configs =
      collect (extract_provider initializers variables) [] configs >>= some_providers

-- `validateProviders`; `none` is the nil error
unfoldable pub validate_providers : {D P : Type 0} → List (ResourceQuery D) → Dict P → Option Error
validate_providers [] providers = some no_known_provider
validate_providers (q ∷ queries) providers =
    let rest = validate_providers queries providers in
    if is_some (lookup q.provider providers) then none else rest
