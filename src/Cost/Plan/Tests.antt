-- ===== src/Cost/Plan/Tests.antt =====
-- The differences of a plan that grows from a disk to a site.
use terracost.Prelude.{◌≡◌, refl, [], ◌∷◌, ◌==◌, if◌then◌else◌}
use terracost.Errors.{ok, done}
use terracost.Decimal.{Whole, whole_decimal, ℕ_numbers, Whole-IsExact}
use terracost.Decimal.Sums.{sum_by}
use terracost.Dict.{AllValues, lookup, insert}
use terracost.Cost.Money.{Cost, zero_cost, add, mul_decimal, monthly}
use terracost.Cost.Component.{component_cost, prior_component_cost, planned_component_cost}
use terracost.Cost.Resource.{
  ResourceDiff, resource_cost, accumulate, prior_resource_cost, planned_resource_cost,
}
use terracost.Cost.State.{
  state_cost, new_state, add_resources, add_components, add_component, ensure_resource,
}
use terracost.Cost.State.Invariant.{AllWellFormed, new_state-AllWellFormed}
use terracost.Cost.Plan.{
  prior_cost, planned_cost, difference_map, merge_resource_diffs, merge_components,
}
use terracost.Cost.Plan.Conservation.{Sound, plan_costs-differences}
use terracost.Cost.Tests.{usd, growth, small_catalog, volume_query, role_query}
use terracost.Cost.State.Build.{priced_resources}
use terracost.Cost.Totals.{amount}

new_state_runs :
    new_state small_catalog (volume_query ∷ role_query ∷ [])
    ≡ done (record { resources = priced_resources small_catalog (volume_query ∷ role_query ∷ []) })
unfolding new_state add_resources add_components add_component ensure_resource lookup insert
new_state_runs = refl

new_state-AllWellFormed_example :
    AllWellFormed
      (record { resources = priced_resources small_catalog (volume_query ∷ role_query ∷ []) })
new_state-AllWellFormed_example =
    new_state-AllWellFormed small_catalog (volume_query ∷ role_query ∷ [])
      (record { resources = priced_resources small_catalog (volume_query ∷ role_query ∷ []) })
      new_state_runs

abbrev shown_prior : ResourceDiff Whole → Cost Whole
shown_prior rd = if rd.address == "disk" then usd 20 else zero_cost

abbrev shown_planned : ResourceDiff Whole → Cost Whole
shown_planned rd = if rd.address == "disk" then usd 20 else usd 89

growth-Sound : Sound growth.prior × Sound growth.planned
unfolding lookup
growth-Sound = (
  ((refl, tt), (((refl, (refl, tt)), λ e. cc e), tt)),
  ((refl, (refl, tt)), (((refl, (refl, tt)), λ e. cc e), (((refl, (refl, tt)), λ e. cc e), tt))),
)

prior_runs : prior_cost growth ≡ ok (usd 20)
unfolding prior_cost state_cost resource_cost accumulate add component_cost mul_decimal monthly
prior_runs = refl

planned_runs : planned_cost growth ≡ ok (usd 109)
unfolding planned_cost state_cost resource_cost accumulate add component_cost mul_decimal monthly
planned_runs = refl

prior_diffs_run :
    AllValues (λ rd. prior_resource_cost rd ≡ ok (shown_prior rd)) (difference_map growth)
unfolding difference_map merge_resource_diffs merge_components prior_resource_cost
    prior_component_cost accumulate add component_cost mul_decimal monthly lookup insert
prior_diffs_run = (refl, (refl, tt))

planned_diffs_run :
    AllValues (λ rd. planned_resource_cost rd ≡ ok (shown_planned rd)) (difference_map growth)
unfolding difference_map merge_resource_diffs merge_components planned_resource_cost
    planned_component_cost accumulate add component_cost mul_decimal monthly lookup insert
planned_diffs_run = (refl, (refl, tt))

plan_costs-differences_example :
    (amount Whole-IsExact (usd 20)
      ≡ sum_by (λ rd. amount Whole-IsExact (shown_prior rd)) (difference_map growth))
    × (amount Whole-IsExact (usd 109)
        ≡ sum_by (λ rd. amount Whole-IsExact (shown_planned rd)) (difference_map growth))
plan_costs-differences_example =
    plan_costs-differences Whole-IsExact growth (usd 20) (usd 109) shown_prior shown_planned
      growth-Sound.0 growth-Sound.1 prior_runs planned_runs prior_diffs_run planned_diffs_run
