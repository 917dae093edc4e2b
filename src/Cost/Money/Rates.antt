-- ===== src/Cost/Money/Rates.antt =====
-- Rates by the hour.
use terracost.Prelude.{String, ◌≡◌, arith}
use terracost.Decimal.{Decimal, Numbers, IsExact}
use terracost.Cost.Money.{new_hourly, hourly, hours_per_month}

module _ {D Q : Type 0} ⦃d : Decimal D⦄ ⦃n : Numbers Q⦄ (laws : IsExact D Q) where
  open laws use {num, num-mul, of_int_ne_zero, div_round_exact, Fits}

  -- `Hourly` gives back the rate that `NewHourly` was given, if that has at most six places.
  pub hourly-new_hourly :
      (rate : D) (currency : String)
      → Fits 6 (num rate)
      → num (hourly (new_hourly rate currency)) ≡ num rate
  unfolding hourly new_hourly
  hourly-new_hourly rate currency fits =
      div_round_exact (d.mul rate hours_per_month) hours_per_month (num rate) 6
        (of_int_ne_zero 730 (omega arith)) (num-mul rate hours_per_month) fits
