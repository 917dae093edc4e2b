-- ===== src/Cost/Plan.antt =====
-- cost/plan.go: the difference between a prior and a planned state.
pub mod Conservation
pub mod Tests
pub mod Differences
pub mod Reported
pub mod Sums
use terracost.Prelude.{
  ℕ, zero, suc, ◌+◌, ◌-◌, ◌*◌, ◌/◌, ◌%◌, ◌≤◌, ◌<◌, String, ◌≡◌, refl, sym, ap, ◌∙◌, subst, ◌≢◌, ◌↔◌,
  ◌⊎◌, inl, inr, Bool, true, false, not, ◌&&◌, ◌||◌, false≢true, Option, none, some, List, [], ◌∷◌,
  ◌++◌, map, arith, ◌==◌, eq_iff, eq_refl, ltb, leb, eqb, if◌then◌else◌, Bool-cases, Option-cases,
  is_some, length, length-append, All, All-append, List-cases, mem, mem-append,
}
use Prim.Native.String.{compare}
use text.Mathlib.Text.{is_le}
use terracost.Errors.{Result, ok}
use terracost.Decimal.{Decimal}
use terracost.Dict.{Dict, lookup, insert, keys, values}
use terracost.Cost.Money.{Cost, zero_cost}
use terracost.Cost.Component.{Component, ComponentDiff}
use terracost.Cost.Resource.{Resource, ResourceDiff, entries}
use terracost.Cost.State.{State, state_cost}

pub record Plan (D : Type 0) : Type 0 where
  pub name : String
  pub prior : Option (State D)
  pub planned : Option (State D)

-- `NewPlan`
unfoldable pub new_plan : {D : Type 0} → String → Option (State D) → Option (State D) → Plan D
new_plan name prior planned = record { name = name; prior = prior; planned = planned }

module _ {D : Type 0} ⦃d : Decimal D⦄ where
  abbrev pub optional_cost : Option (State D) → Result (Cost D)
  optional_cost none = ok zero_cost
  optional_cost (some s) = state_cost s

  -- `PriorCost` and `PlannedCost`
  unfoldable pub prior_cost : Plan D → Result (Cost D)
  prior_cost p = optional_cost p.prior

  unfoldable pub planned_cost : Plan D → Result (Cost D)
  planned_cost p = optional_cost p.planned

module _ {D : Type 0} where
  abbrev pub blank_diff : ComponentDiff D
  blank_diff = record { prior = none; planned = none }

  abbrev pub diff_or_blank : Option (ComponentDiff D) → ComponentDiff D
  diff_or_blank none = blank_diff
  diff_or_blank (some cd) = cd

  abbrev pub place : Bool → Component D → ComponentDiff D → ComponentDiff D
  place planned comp cd =
      if planned then record cd { planned = some comp } else record cd { prior = some comp }

  -- the inner loop of `mergeResourceDiffsFromState`
  unfoldable pub merge_components :
      Bool → Dict (ComponentDiff D) → Dict (Component D) → Dict (ComponentDiff D)
  merge_components planned diffs [] = diffs
  merge_components planned diffs ((label, comp) ∷ m) =
      merge_components planned
        (insert label (place planned comp (diff_or_blank (lookup label diffs))) diffs) m

  abbrev pub diff_or_new : String → Resource D → Option (ResourceDiff D) → ResourceDiff D
  diff_or_new address res none = record {
    address = address;
    provider = res.provider;
    typ = res.typ;
    component_diffs = [];
  }
  diff_or_new address res (some rd) = rd

  abbrev pub merge_into : Bool → Resource D → ResourceDiff D → ResourceDiff D
  merge_into planned res rd = record rd {
    component_diffs = merge_components planned rd.component_diffs (entries res.components);
  }

  -- `mergeResourceDiffsFromState`
  unfoldable pub merge_resource_diffs :
      Bool → Dict (ResourceDiff D) → Dict (Resource D) → Dict (ResourceDiff D)
  merge_resource_diffs planned rdmap [] = rdmap
  merge_resource_diffs planned rdmap ((address, res) ∷ m) =
      merge_resource_diffs planned
        (if res.skipped
          then rdmap
          else insert address
              (merge_into planned res (diff_or_new address res (lookup address rdmap))) rdmap)
        m

  abbrev pub resources_of : Option (State D) → Dict (Resource D)
  resources_of none = []
  resources_of (some s) = s.resources

  -- the map that `ResourceDifferences` builds
  unfoldable pub difference_map : Plan D → Dict (ResourceDiff D)
  difference_map p =
      merge_resource_diffs true (merge_resource_diffs false [] (resources_of p.prior))
        (resources_of p.planned)

  -- `ResourceDifferences`
  unfoldable pub resource_differences : Plan D → List (ResourceDiff D)
  unfolding difference_map
  resource_differences p = values (difference_map p)

  unfoldable pub collect_skipped : Dict (Unit {0}) → Dict (Resource D) → Dict (Unit {0})
  collect_skipped skipped_map [] = skipped_map
  collect_skipped skipped_map ((addr, res) ∷ m) =
      collect_skipped (if res.skipped then insert addr tt skipped_map else skipped_map) m

-- `sort.Strings`
insert_sorted : String → List String → List String
insert_sorted s [] = s ∷ []
insert_sorted s (t ∷ ts) = if is_le (compare s t) then s ∷ t ∷ ts else t ∷ insert_sorted s ts

unfoldable pub sort_strings : List String → List String
unfolding insert_sorted
sort_strings [] = []
sort_strings (s ∷ ss) = insert_sorted s (sort_strings ss)

-- `SkippedAddresses`
unfoldable pub skipped_addresses : {D : Type 0} → Plan D → List String
unfolding sort_strings collect_skipped
skipped_addresses p =
    sort_strings
      (keys (collect_skipped (collect_skipped [] (resources_of p.prior)) (resources_of p.planned)))
