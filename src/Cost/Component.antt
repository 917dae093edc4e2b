-- ===== src/Cost/Component.antt =====
-- cost/component.go: a rate times a quantity, and the two sides of a difference.
use terracost.Prelude.{
  String, Bool, false, not, ◌||◌, Option, none, some, List, if◌then◌else◌, is_some,
}
use terracost.Errors.{Error}
use terracost.Decimal.{Decimal}
use terracost.Cost.Money.{Cost, zero_cost, mul_decimal}

pub record Component (D : Type 0) : Type 0 where
  pub quantity : D
  pub unit : String
  pub rate : Cost D
  pub details : List String
  pub usage : Bool
  pub error : Option Error

pub record ComponentDiff (D : Type 0) : Type 0 where
  pub prior : Option (Component D)
  pub planned : Option (Component D)

-- `c != nil && c.Error != nil`
abbrev pub has_error : {D : Type 0} → Option (Component D) → Bool
has_error none = false
has_error (some c) = is_some c.error

-- `Valid`
unfoldable pub component_valid : {D : Type 0} → ComponentDiff D → Bool
component_valid cd = not (has_error cd.prior || has_error cd.planned)

module _ {D : Type 0} ⦃d : Decimal D⦄ where
  -- `Component.Cost`
  unfoldable pub component_cost : Component D → Cost D
  unfolding mul_decimal
  component_cost c =
      if d.is_zero c.rate.decimal || d.is_zero c.quantity
      then zero_cost
      else mul_decimal c.rate c.quantity

  abbrev pub side_cost : Option (Component D) → Cost D
  side_cost none = zero_cost
  side_cost (some c) = component_cost c

  -- `ComponentDiff.PriorCost` and `PlannedCost`
  unfoldable pub prior_component_cost : ComponentDiff D → Cost D
  prior_component_cost cd = side_cost cd.prior

  unfoldable pub planned_component_cost : ComponentDiff D → Cost D
  planned_component_cost cd = side_cost cd.planned
