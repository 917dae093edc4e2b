-- ===== src/Price.antt =====
-- price/price.go: `Price.Add`.
pub mod Addition
pub mod Hash
pub mod Tests
use terracost.Prelude.{
  ℕ, zero, suc, ◌+◌, ◌-◌, ◌*◌, ◌/◌, ◌%◌, ◌≤◌, ◌<◌, String, ◌≡◌, refl, sym, ap, ◌∙◌, subst, ◌≢◌, ◌↔◌,
  ◌⊎◌, inl, inr, Bool, true, false, not, ◌&&◌, ◌||◌, false≢true, Option, none, some, List, [], ◌∷◌,
  ◌++◌, map, arith, ◌==◌, eq_iff, eq_refl, ltb, leb, eqb, if◌then◌else◌, Bool-cases, Option-cases,
  is_some, length, length-append, All, All-append, List-cases,
}
use terracost.Errors.{Run, done, failed, panic, mismatching_unit, mismatching_currency}
use terracost.Decimal.{Decimal}
use terracost.Dict.{Dict, insert}
use terracost.Query.{Price}

-- `for k, v := range pr.Attributes { p.Attributes[k] = v }` on a map that is there
unfoldable pub overwrite {ℓ} : {V : Type ℓ} → Dict V → Dict V → Dict V
overwrite m [] = m
overwrite m ((k, v) ∷ new) = overwrite (insert k v m) new

-- The same where either map may be nil: `none` is the panic at the first write to a nil map.
abbrev pub overwrite_nil {ℓ} :
    {V : Type ℓ} → Option (Dict V) → Option (Dict V) → Option (Option (Dict V))
overwrite_nil old none = some old
overwrite_nil old (some []) = some old
overwrite_nil none (some (_ ∷ _)) = none
overwrite_nil (some m) (some (e ∷ new)) = some (some (overwrite m (e ∷ new)))

module _ {D : Type 0} ⦃d : Decimal D⦄ where
  abbrev with_attributes : Price D → D → Option (Option (Dict String)) → Run (Price D)
  with_attributes p value none = panic "assignment to entry in nil map"
  with_attributes p value (some attributes) =
      done (record p { value = value; attributes = attributes })

  -- `Add`: the receiver after the call
  unfoldable pub add_price : Price D → Price D → Run (Price D)
  unfolding overwrite
  add_price p pr =
      if not (p.unit == pr.unit)
      then failed mismatching_unit
      else if not (p.currency == pr.currency)
      then failed mismatching_currency
      else with_attributes p (d.add p.value pr.value) (overwrite_nil p.attributes pr.attributes)
