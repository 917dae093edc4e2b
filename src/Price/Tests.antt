-- ===== src/Price/Tests.antt =====
-- Two prices added.
use terracost.Prelude.{String, ◌≡◌, refl, some, [], ◌∷◌}
use terracost.Errors.{done}
use terracost.Decimal.{Whole, whole_decimal, ℕ_numbers, Whole-IsExact}
use terracost.Dict.{lookup, insert}
use terracost.Query.{Price}
use terracost.Cost.Resource.{entries}
use terracost.Price.{add_price, overwrite}
use terracost.Price.Addition.{newer, add_price-done}

abbrev first : Price Whole
first = record {
  id = 1;
  unit = "Hrs";
  currency = "USD";
  value = some 3;
  attributes = some (("TermType", "OnDemand") ∷ ("Tier", "1") ∷ []);
}

abbrev second : Price Whole
second = record {
  id = 2;
  unit = "Hrs";
  currency = "USD";
  value = some 4;
  attributes = some (("Tier", "2") ∷ ("Extra", "x") ∷ []);
}

abbrev sum : Price Whole
sum = record {
  id = 1;
  unit = "Hrs";
  currency = "USD";
  value = some 7;
  attributes = some (("TermType", "OnDemand") ∷ ("Tier", "2") ∷ ("Extra", "x") ∷ []);
}

sum_runs : add_price first second ≡ done sum
unfolding add_price overwrite insert
sum_runs = refl

add_price-done_example :
    (sum.id ≡ first.id)
    × (first.unit ≡ second.unit)
    × (sum.unit ≡ first.unit)
    × (first.currency ≡ second.currency)
    × (sum.currency ≡ first.currency)
    × (Whole-IsExact.num sum.value
        ≡ ℕ_numbers.plus (Whole-IsExact.num first.value) (Whole-IsExact.num second.value))
    × ((k : String)
        → lookup k (entries sum.attributes)
          ≡ newer (lookup k (entries second.attributes)) (lookup k (entries first.attributes)))
unfolding lookup
add_price-done_example = add_price-done Whole-IsExact first second sum (refl, (refl, tt)) sum_runs
