-- ===== src/Cost/Plan/Conservation.antt =====
-- The costs of a plan's states, and those of its `ResourceDifferences`.
use terracost.Prelude.{
  String, ◌≡◌, refl, sym, ap, ◌∙◌, subst, ◌↔◌, inl, inr, true, false, Option, none, some, [], ◌∷◌,
  Bool-cases,
}
use mathlib.Core.Path.{ap₂}
use terracost.Errors.{Result, ok, wrap}
use terracost.Decimal.{Decimal, Numbers, IsExact}
use terracost.Decimal.Sums.{sum_by, summand}
use terracost.Dict.{IsMap, Dict, AllValues}
use terracost.Cost.Money.{Cost, zero_cost, add}
use terracost.Cost.Component.{
  Component, ComponentDiff, side_cost, prior_component_cost, planned_component_cost,
}
use terracost.Cost.Resource.{
  Resource, ResourceDiff, accumulate, prior_resource_cost, planned_resource_cost, entries,
}
use terracost.Cost.Resource.Totals.{amount-component_cost}
use terracost.Cost.State.{State}
use terracost.Cost.State.Invariant.{IsWellFormed, AllWellFormed}
use terracost.Cost.State.Totals.{worth, state_cost-sum}
use terracost.Cost.Totals.{amount, wrap-eq-ok, accumulate-amount}
use terracost.Cost.Plan.{
  Plan, prior_cost, planned_cost, optional_cost, difference_map, resources_of,
}
use terracost.Cost.Plan.Differences.{IsState}
use terracost.Cost.Plan.Sums.{
  component_worth, side_worth, shown_worth, diff_worth, sum_by-difference_map,
}

module _ {D : Type 0} where
  -- A skipped resource has no components.
  abbrev pub SkippedEmpty : Option (State D) → Type 0
  SkippedEmpty s =
      AllValues (λ (r : Resource D). r.skipped ≡ true → entries r.components ≡ []) (resources_of s)

  -- A state that is there has what every state of `NewState` has.
  abbrev pub Sound : Option (State D) → Type 0
  Sound none = Unit
  Sound (some s) = AllWellFormed s

  distinct_labels :
      (m : Dict (Resource D))
      → AllValues IsWellFormed m
      → AllValues (λ (r : Resource D). IsMap (entries r.components)) m
  distinct_labels [] h = tt
  distinct_labels ((a, r) ∷ m) (p, h) = (p.0, distinct_labels m h)

  nothing_skipped :
      (m : Dict (Resource D))
      → AllValues IsWellFormed m
      → AllValues (λ (r : Resource D). r.skipped ≡ true → entries r.components ≡ []) m
  nothing_skipped [] h = tt
  nothing_skipped ((a, r) ∷ m) (p, h) = (λ e. ap entries (p.1 e), nothing_skipped m h)

  Sound-IsState : (s : Option (State D)) → Sound s → IsState s × SkippedEmpty s
  Sound-IsState none h = ((tt, tt), tt)
  Sound-IsState (some s) (h, each) =
      ((h, distinct_labels s.resources each), nothing_skipped s.resources each)

module _ {D : Type 0} ⦃d : Decimal D⦄ (format : String) (cost_of : ComponentDiff D → Cost D) where
  -- a round of the loop of `PriorCost` and `PlannedCost`
  abbrev add_side : String → ComponentDiff D → Cost D → Result (Cost D)
  add_side _ cd total = wrap format [] (add total (cost_of cd))

  step_iff :
      (k : String) (cd : ComponentDiff D) (s t : Cost D)
      → (add_side k cd s ≡ ok t) ↔ ((a : Cost D) × (ok (cost_of cd) ≡ ok a) × (add s a ≡ ok t))
  step_iff k cd s t = (
    λ h. (cost_of cd, refl, (wrap-eq-ok format [] (add s (cost_of cd)) {a = t}).0 h),
    λ (a, e, h). (wrap-eq-ok format [] (add s (cost_of cd)) {a = t}).1 (ap (add s) (cc e) ∙ h),
  )

module _ {D Q : Type 0} ⦃d : Decimal D⦄ ⦃n : Numbers Q⦄ (laws : IsExact D Q) where
  open laws use {num-blank}
  open n use {nought, plus, nought-plus}

  amount-side_cost :
      (o : Option (Component D)) → amount laws (side_cost o) ≡ summand (component_worth laws) o
  amount-side_cost none = num-blank
  amount-side_cost (some c) = amount-component_cost laws c

  amount-total :
      (format : String) (cost_of : ComponentDiff D → Cost D) (value : ComponentDiff D → Q)
      → ((cd : ComponentDiff D) → amount laws (cost_of cd) ≡ value cd)
      → (m : Dict (ComponentDiff D)) (t : Cost D)
      → accumulate (add_side format cost_of) zero_cost m ≡ ok t
      → amount laws t ≡ sum_by value m
  amount-total format cost_of value h m t e =
      accumulate-amount laws (λ cd. ok (cost_of cd)) (add_side format cost_of)
        (step_iff format cost_of) value
        (λ cd a q. cc (ap (amount laws) {x = a} {y = cost_of cd} (cc q), h cd)) m zero_cost t e
      ∙ rw num-blank (nought-plus _)

  prior_resource_cost-sum :
      (rd : ResourceDiff D) (t : Cost D)
      → prior_resource_cost rd ≡ ok t
      → amount laws t ≡ diff_worth laws false rd
  unfolding prior_resource_cost prior_component_cost
  prior_resource_cost-sum rd t e =
      amount-total "failed calculating prior cost: %w" prior_component_cost (side_worth laws false)
        (λ cd. amount-side_cost cd.prior) rd.component_diffs t e

  planned_resource_cost-sum :
      (rd : ResourceDiff D) (t : Cost D)
      → planned_resource_cost rd ≡ ok t
      → amount laws t ≡ diff_worth laws true rd
  unfolding planned_resource_cost planned_component_cost
  planned_resource_cost-sum rd t e =
      amount-total "failed calculating planned cost: %w" planned_component_cost
        (side_worth laws true) (λ cd. amount-side_cost cd.planned) rd.component_diffs t e

  sum_by-shown :
      (m : Dict (Resource D))
      → AllValues (λ (r : Resource D). r.skipped ≡ true → entries r.components ≡ []) m
      → sum_by (shown_worth laws) m ≡ sum_by (worth laws) m
  sum_by-shown [] h = refl
  sum_by-shown ((k, r) ∷ m) (p, h) =
      ap₂ plus (elim (Bool-cases r.skipped) [ inl e ↦ rw (e, p e) | inr e ↦ rw e ])
        (sum_by-shown m h)

  sum_by-costs :
      (cost_of : ResourceDiff D → Result (Cost D)) (value : ResourceDiff D → Q)
      (shown : ResourceDiff D → Cost D)
      → ((rd : ResourceDiff D) (t : Cost D) → cost_of rd ≡ ok t → amount laws t ≡ value rd)
      → (m : Dict (ResourceDiff D)) → AllValues (λ rd. cost_of rd ≡ ok (shown rd)) m
      → sum_by value m ≡ sum_by (λ rd. amount laws (shown rd)) m
  sum_by-costs cost_of value shown h [] all = refl
  sum_by-costs cost_of value shown h ((k, rd) ∷ m) (p, all) =
      cc (h rd (shown rd) p, sum_by-costs cost_of value shown h m all)

  optional_cost-sum :
      (s : Option (State D)) (t : Cost D)
      → optional_cost s ≡ ok t
      → amount laws t ≡ sum_by (worth laws) (resources_of s)
  optional_cost-sum none t e =
      subst (λ (c : Cost D). amount laws c ≡ nought) {x = zero_cost} {y = t} (cc e) num-blank
  optional_cost-sum (some s) t e = state_cost-sum laws s t e

  planned_cost-differences :
      (p : Plan D) (t : Cost D) (shown : ResourceDiff D → Cost D)
      → IsState p.prior
      → IsState p.planned
      → SkippedEmpty p.planned
      → planned_cost p ≡ ok t
      → AllValues (λ rd. planned_resource_cost rd ≡ ok (shown rd)) (difference_map p)
      → amount laws t ≡ sum_by (λ rd. amount laws (shown rd)) (difference_map p)
  unfolding planned_cost
  planned_cost-differences p t shown h h' empty e all =
      optional_cost-sum p.planned t e
      ∙ sym (sum_by-shown (resources_of p.planned) empty)
      ∙ sym (sum_by-difference_map laws p h h').1
      ∙ sum_by-costs planned_resource_cost (diff_worth laws true) shown planned_resource_cost-sum
          (difference_map p) all

  prior_cost-differences :
      (p : Plan D) (t : Cost D) (shown : ResourceDiff D → Cost D)
      → IsState p.prior
      → IsState p.planned
      → SkippedEmpty p.prior
      → prior_cost p ≡ ok t
      → AllValues (λ rd. prior_resource_cost rd ≡ ok (shown rd)) (difference_map p)
      → amount laws t ≡ sum_by (λ rd. amount laws (shown rd)) (difference_map p)
  unfolding prior_cost
  prior_cost-differences p t shown h h' empty e all =
      optional_cost-sum p.prior t e
      ∙ sym (sum_by-shown (resources_of p.prior) empty)
      ∙ sym (sum_by-difference_map laws p h h').0
      ∙ sum_by-costs prior_resource_cost (diff_worth laws false) shown prior_resource_cost-sum
          (difference_map p) all

  -- Take a plan whose states are missing or have distinct addresses, distinct labels in each
  -- resource, and the nil map in every skipped one. If PriorCost and PlannedCost return costs, and
  -- so do those of every resource of ResourceDifferences, then, for a decimal whose addition and
  -- multiplication are exact, the prior cost of the plan is the sum of the prior costs of the
  -- differences and the planned cost the sum of their planned costs.
  pub plan_costs-differences :
      (p : Plan D) (prior planned : Cost D) (shown_prior shown_planned : ResourceDiff D → Cost D)
      → Sound p.prior
      → Sound p.planned
      → prior_cost p ≡ ok prior
      → planned_cost p ≡ ok planned
      → AllValues (λ rd. prior_resource_cost rd ≡ ok (shown_prior rd)) (difference_map p)
      → AllValues (λ rd. planned_resource_cost rd ≡ ok (shown_planned rd)) (difference_map p)
      → (amount laws prior ≡ sum_by (λ rd. amount laws (shown_prior rd)) (difference_map p))
        × (amount laws planned ≡ sum_by (λ rd. amount laws (shown_planned rd)) (difference_map p))
  plan_costs-differences p prior planned shown shown' h h' e e' all all' =
      let (g, empty) = Sound-IsState p.prior h in
      let (g', empty') = Sound-IsState p.planned h' in
      (
        prior_cost-differences p prior shown g g' empty e all,
        planned_cost-differences p planned shown' g g' empty' e' all',
      )
