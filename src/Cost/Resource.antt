-- ===== src/Cost/Resource.antt =====
-- cost/resource.go: the costs of a resource, and the difference between two of its states.
pub mod Totals
pub mod Validity
use terracost.Prelude.{
  ℕ, zero, suc, ◌+◌, ◌-◌, ◌*◌, ◌/◌, ◌%◌, ◌≤◌, ◌<◌, String, ◌≡◌, refl, sym, ap, ◌∙◌, subst, ◌≢◌, ◌↔◌,
  ◌⊎◌, inl, inr, Bool, true, false, not, ◌&&◌, ◌||◌, false≢true, Option, none, some, List, [], ◌∷◌,
  ◌++◌, map, arith, ◌==◌, eq_iff, eq_refl, ltb, leb, eqb, if◌then◌else◌, Bool-cases, Option-cases,
  is_some, length, length-append, All, All-append, List-cases,
}
use terracost.Errors.{Error, Result, ok, wrap, ◌>>=◌}
use terracost.Decimal.{Decimal}
use terracost.Dict.{Dict, insert}
use terracost.Cost.Money.{Cost, zero_cost, add}
use terracost.Cost.Component.{
  Component, ComponentDiff, has_error, component_cost, prior_component_cost, planned_component_cost,
}

pub record Resource (D : Type 0) : Type 0 where
  pub provider : String
  pub typ : String
  -- `none` is the nil map, which a skipped resource keeps
  pub components : Option (Dict (Component D))
  pub skipped : Bool

pub record ResourceDiff (D : Type 0) : Type 0 where
  pub address : String
  pub provider : String
  pub typ : String
  pub component_diffs : Dict (ComponentDiff D)

-- A map that may be nil, as `range` reads it.
abbrev pub entries {ℓ} : {V : Type ℓ} → Option (Dict V) → Dict V
entries none = []
entries (some m) = m

-- `for k, v := range m { total, err = step(k, v, total); if err != nil { return Zero, … } }`
unfoldable pub accumulate {ℓ κ} :
    {V : Type ℓ} {T : Type κ} → (String → V → T → Result T) → T → Dict V → Result T
accumulate step total [] = ok total
accumulate step total ((k, v) ∷ m) = step k v total >>= λ t. accumulate step t m

module _ {D : Type 0} ⦃d : Decimal D⦄ where
  abbrev pub add_component_cost : String → Component D → Cost D → Result (Cost D)
  add_component_cost name comp total =
      wrap "failed to add cost of component %s: %w" (name ∷ []) (add total (component_cost comp))

  -- `Resource.Cost`
  unfoldable pub resource_cost : Resource D → Result (Cost D)
  unfolding accumulate
  resource_cost re = accumulate add_component_cost zero_cost (entries re.components)

  abbrev pub add_prior_cost : String → ComponentDiff D → Cost D → Result (Cost D)
  add_prior_cost _ cd total =
      wrap "failed calculating prior cost: %w" [] (add total (prior_component_cost cd))

  abbrev pub add_planned_cost : String → ComponentDiff D → Cost D → Result (Cost D)
  add_planned_cost _ cd total =
      wrap "failed calculating planned cost: %w" [] (add total (planned_component_cost cd))

  -- `ResourceDiff.PriorCost` and `PlannedCost`
  unfoldable pub prior_resource_cost : ResourceDiff D → Result (Cost D)
  unfolding accumulate
  prior_resource_cost rd = accumulate add_prior_cost zero_cost rd.component_diffs

  unfoldable pub planned_resource_cost : ResourceDiff D → Result (Cost D)
  unfolding accumulate
  planned_resource_cost rd = accumulate add_planned_cost zero_cost rd.component_diffs

-- `c.Error` of a component that may be nil
abbrev error_of : {D : Type 0} → Option (Component D) → Option Error
error_of none = none
error_of (some c) = c.error

-- the error that the loop of `Errors` records for a label
abbrev pub diff_error : {D : Type 0} → ComponentDiff D → Option Error
diff_error cd = elim (error_of cd.prior) [ some e ↦ some e | none ↦ error_of cd.planned ]

abbrev pub record_error : String → Option Error → Dict Error → Dict Error
record_error label none errs = errs
record_error label (some e) errs = insert label e errs

pub collect_errors : {D : Type 0} → Dict Error → Dict (ComponentDiff D) → Dict Error
collect_errors errs [] = errs
collect_errors errs ((label, cd) ∷ m) = collect_errors (record_error label (diff_error cd) errs) m

-- `ResourceDiff.Errors`
unfoldable pub resource_errors : {D : Type 0} → ResourceDiff D → Dict Error
unfolding collect_errors
resource_errors rd = collect_errors [] rd.component_diffs

pub all_valid : {D : Type 0} → Dict (ComponentDiff D) → Bool
all_valid [] = true
all_valid ((label, cd) ∷ m) =
    let rest = all_valid m in if has_error cd.prior || has_error cd.planned then false else rest

-- `ResourceDiff.Valid`
unfoldable pub resource_valid : {D : Type 0} → ResourceDiff D → Bool
unfolding all_valid
resource_valid rd = all_valid rd.component_diffs
