-- ===== src/Terraform/Providers/Values.antt =====
-- `evaluateProviderConfigExpressions`: which expressions have a value, and which.
use terracost.Prelude.{
  String, ◌≡◌, refl, ap, false≢true, ◌≢◌, ◌↔◌, inl, inr, true, false, Option, none, some, List, [],
  ◌∷◌, ◌==◌, eq_iff, Bool-cases, All, List-cases, subst,
}
use terracost.Errors.{ok}
use terracost.Dict.{Dict, lookup, IsMap, All-of_lookup}
use terracost.Aws.Text.{split}
use terracost.Terraform.Json.{Json, null, text, boolean, number, array, object, is_empty}
use terracost.Terraform.Providers.{
  Expression, ProviderConfig, evaluate_expression, reference_value, variable_value,
  evaluate_provider_config_expressions,
}
use terracost.Terraform.Providers.Chosen.{outcome_at, collect_all, collect-total}

-- The value of an expression: its constant, or that of the variable whose name is the second part of
-- its first reference. A variable without a value, or with the empty text, gives none.
pub data HasValue (variables : Dict Json) (e : Expression) : Json → Type 0 where
  constant : e.constant_value ≢ "" → HasValue variables e (text e.constant_value)
  variable :
      {r first name : String} {rs rest : List String} {v : Json}
      → e.constant_value ≡ ""
      → e.references ≡ r ∷ rs
      → split b'.' r ≡ first ∷ name ∷ rest
      → lookup name variables ≡ some v
      → v ≢ text ""
      → HasValue variables e v

-- The value of a name: that of its expression, and none without an expression.
pub data Evaluated (variables : Dict Json) : Option Expression → Option Json → Type 0 where
  absent : Evaluated variables none none
  present :
      {e : Expression} {v : Json} → HasValue variables e v → Evaluated variables (some e) (some v)

empty_text : (v : Json) → is_empty v ≡ true → v ≡ text ""
empty_text null h = absurd (false≢true h)
empty_text (text s) h = ap text ((eq_iff s "").0 h)
empty_text (boolean b) h = absurd (false≢true h)
empty_text (number n) h = absurd (false≢true h)
empty_text (array xs) h = absurd (false≢true h)
empty_text (object fs) h = absurd (false≢true h)

module _ (variables : Dict Json) where
  not_empty : (v : Json) → is_empty v ≡ false → v ≢ text ""
  not_empty v h p = cc (rw p at h)

  is_empty-not : (v : Json) → v ≢ text "" → is_empty v ≡ false
  is_empty-not v h = elim (Bool-cases (is_empty v)) [
    | inl e ↦ absurd (h (empty_text v e))
    | inr e ↦ e
  ]

  variable_value-Evaluated :
      (e : Expression) (name : String) (found : Option Json) (w : Option Json)
      → ((v : Json) → found ≡ some v → v ≢ text "" → HasValue variables e v)
      → variable_value name found ≡ ok w
      → Evaluated variables (some e) w
  variable_value-Evaluated e name none w h p = cc
  variable_value-Evaluated e name (some v) w h p = elim (Bool-cases (is_empty v)) [
    | inl q ↦ cc (rw q at p)
    | inr q ↦
        subst (Evaluated variables (some e)) {x = some v} {y = w} (cc (rw q at p))
          (present (h v refl (not_empty v q)))
  ]

  reference_value-Evaluated :
      (e : Expression) (r : String) (rs parts : List String) (w : Option Json)
      → e.constant_value ≡ ""
      → e.references ≡ r ∷ rs
      → split b'.' r ≡ parts
      → reference_value variables parts ≡ ok w
      → Evaluated variables (some e) w
  reference_value-Evaluated e r rs [] w c p q h = cc
  reference_value-Evaluated e r rs (first ∷ []) w c p q h = cc
  reference_value-Evaluated e r rs (first ∷ name ∷ rest) w c p q h =
      variable_value-Evaluated e name (lookup name variables) w (λ v k n. variable c p q k n) h

  evaluate_expression-Evaluated :
      (name : String) (e : Expression) (w : Option Json)
      → evaluate_expression variables name e ≡ ok w
      → Evaluated variables (some e) w
  evaluate_expression-Evaluated name e w h = elim (Bool-cases (e.constant_value == "")) [
    | inl c ↦ elim (List-cases e.references) [
      | inl p ↦ cc (rw (c, p) at h)
      | inr (r, rs, p) ↦
          reference_value-Evaluated e r rs (split b'.' r) w ((eq_iff e.constant_value "").0 c) p
            refl (rw (c, p) at h)
    ]
    | inr c ↦
        subst (Evaluated variables (some e)) {x = some (text e.constant_value)} {y = w}
          (cc (rw c at h)) (present (constant (λ p. cc (c, (eq_iff e.constant_value "").1 p))))
  ]

  HasValue-evaluate_expression :
      (name : String) (e : Expression) (v : Json)
      → HasValue variables e v
      → evaluate_expression variables name e ≡ ok (some v)
  HasValue-evaluate_expression name e v (constant c) = elim (Bool-cases (e.constant_value == "")) [
    | inl p ↦ absurd (c ((eq_iff e.constant_value "").0 p))
    | inr p ↦ rw p refl
  ]
  HasValue-evaluate_expression name e v (variable c p q k n) =
      rw ((eq_iff e.constant_value "").1 c, p, q, k, is_empty-not v n) refl

  Evaluated-HasValue :
      {e : Expression} {w : Option Json}
      → Evaluated variables (some e) w
      → (v : Json) × HasValue variables e v
  Evaluated-HasValue (present h) = (_, h)

  outcome_at-Evaluated :
      (name : String) (e : Option Expression) (w : Option Json)
      → outcome_at (evaluate_expression variables) name e ≡ ok w
      → Evaluated variables e w
  outcome_at-Evaluated name none w h =
      subst (Evaluated variables none) {x = none} {y = w} (cc h) absent
  outcome_at-Evaluated name (some e) w h = evaluate_expression-Evaluated name e w h

  evaluate_each :
      (m : Dict Expression)
      → All (λ e. (v : Json) × HasValue variables e.1 v) m
      → All (λ e. (w : Option Json) × (evaluate_expression variables e.0 e.1 ≡ ok w)) m
  evaluate_each [] h = tt
  evaluate_each ((k, e) ∷ m) ((v, p), h) =
      ((some v, HasValue-evaluate_expression k e v p), evaluate_each m h)

  -- For expressions with distinct names evaluateProviderConfigExpressions returns values exactly where
  -- every expression has one, and then every name has the value of its expression, and a name
  -- without an expression has none. An expression has its constant as its value if that is not
  -- empty, and else the value of the variable that the second part of its first reference names, if
  -- there is one and it is not the empty text.
  pub evaluate_provider_config_expressions_iff :
      (config : ProviderConfig)
      → IsMap config.expressions
      → All (λ e. (v : Json) × HasValue variables e.1 v) config.expressions ↔ (
          (values : Dict Json) × (evaluate_provider_config_expressions variables config ≡ ok values)
          × ((name : String)
              → Evaluated variables (lookup name config.expressions) (lookup name values)))
  unfolding evaluate_provider_config_expressions
  evaluate_provider_config_expressions_iff config m = (
    λ h.
        let (values, e) =
          collect-total (evaluate_expression variables) [] config.expressions
            (evaluate_each config.expressions h) in
        (
          values,
          e,
          λ name.
              outcome_at-Evaluated name (lookup name config.expressions) (lookup name values)
                (collect_all (evaluate_expression variables) config.expressions values name m e),
        ),
    λ (values, e, each).
        All-of_lookup (λ name e. (v : Json) × HasValue variables e v) config.expressions m
          (λ name e p. Evaluated-HasValue (
            subst (λ (o : Option Expression). Evaluated variables o (lookup name values)) p
              (each name))),
  )
