-- ===== src/Cost/Money.antt =====
-- cost/cost.go: monthly and hourly costs with a currency.
pub mod Rates
use terracost.Prelude.{
  ℕ, zero, suc, ◌+◌, ◌-◌, ◌*◌, ◌/◌, ◌%◌, ◌≤◌, ◌<◌, String, ◌≡◌, refl, sym, ap, ◌∙◌, subst, ◌≢◌, ◌↔◌,
  ◌⊎◌, inl, inr, Bool, true, false, not, ◌&&◌, ◌||◌, false≢true, Option, none, some, List, [], ◌∷◌,
  ◌++◌, map, arith, ◌==◌, eq_iff, eq_refl, ltb, leb, eqb, if◌then◌else◌, Bool-cases, Option-cases,
  is_some, length, length-append, All, All-append, List-cases,
}
use terracost.Errors.{Result, ok, err, errorf}
use terracost.Decimal.{Decimal}

pub record Cost (D : Type 0) : Type 0 where
  pub decimal : D
  pub currency : String

module _ {D : Type 0} ⦃d : Decimal D⦄ where
  abbrev pub hours_per_month : D
  hours_per_month = d.of_int 730

  -- `Zero`
  abbrev pub zero_cost : Cost D
  zero_cost = record { decimal = d.blank; currency = "" }

  unfoldable pub new_monthly : D → String → Cost D
  new_monthly monthly currency = record { decimal = monthly; currency = currency }

  unfoldable pub new_hourly : D → String → Cost D
  new_hourly hourly currency = record {
    decimal = d.mul hourly hours_per_month;
    currency = currency;
  }

  unfoldable pub monthly : Cost D → D
  monthly c = c.decimal

  unfoldable pub hourly : Cost D → D
  hourly c = d.div_round c.decimal hours_per_month 6

  -- Go's `c2 == Zero`, a comparison of structs
  abbrev pub is_zero_cost : Cost D → Bool
  is_zero_cost c = d.same c.decimal d.blank && c.currency == ""

  -- `Add`
  unfoldable pub add : Cost D → Cost D → Result (Cost D)
  unfolding monthly
  add c c2 =
      if is_zero_cost c2
      then ok c
      else let currency = if c.currency == "" then c2.currency else c.currency in
        if not (currency == c2.currency)
        then err (errorf "currency mismatch: expected %s, got %s" (currency ∷ c2.currency ∷ []))
        else ok (record { decimal = d.add c.decimal (monthly c2); currency = currency })

  unfoldable pub mul_decimal : Cost D → D → Cost D
  mul_decimal c x = record { decimal = d.mul c.decimal x; currency = c.currency }
