-- ===== src/Cost/Totals/Order.antt =====
-- The sum that a loop returns, and that it is the same in every order.
use terracost.Prelude.{String, ◌≡◌, refl, subst, ◌↔◌, inl, [], ◌∷◌, arith}
use terracost.Errors.{Result, ok, >>=-eq-ok}
use terracost.Decimal.{Decimal, Numbers, IsExact}
use terracost.Decimal.Sums.{sum_by, Ranges-sum_by}
use terracost.Dict.{Dict, AllValues, Ranges, Ranges-AllValues, Ranges-symm}
use terracost.Cost.Money.{Cost, zero_cost, add}
use terracost.Cost.Resource.{accumulate}
use terracost.Cost.Totals.Addition.{
  zero_cost-Labelled, Joins, Labelled, add-Labelled, Labelled-is_zero_cost, amount, amount-add,
  SameCost,
}
use terracost.Cost.Totals.Loop.{Agrees, IsLabelled, accumulate-Agrees, accumulate-ok}

module _ {ℓ} {D Q : Type 0} ⦃d : Decimal D⦄ ⦃n : Numbers Q⦄ (laws : IsExact D Q) {V : Type ℓ}
    (f : V → Result (Cost D)) (step : String → V → Cost D → Result (Cost D))
    (step_iff : (k : String) (v : V) (c t : Cost D)
      → (step k v c ≡ ok t) ↔ ((a : Cost D) × (f v ≡ ok a) × (add c a ≡ ok t)))
    (value : V → Q) (value_of : (v : V) (a : Cost D) → f v ≡ ok a → amount laws a ≡ value v) where
  open n use {plus, plus_assoc, plus_comm, nought-plus, nought}

  pub accumulate-amount :
      (m : Dict V) (c t : Cost D)
      → accumulate step c m ≡ ok t
      → amount laws t ≡ plus (amount laws c) (sum_by value m)
  unfolding accumulate
  accumulate-amount [] c t e = cc (e, nought-plus (amount laws c), plus_comm nought (amount laws c))
  accumulate-amount ((k, v) ∷ m) c t e =
      let (c', e₁, e₂) = >>=-eq-ok (step k v c) (λ t. accumulate step t m) e in
      let (a, ea, ec) = (step_iff k v c c').0 e₁ in
      cc (
        accumulate-amount m c' t e₂,
        amount-add laws c a c' ec,
        value_of v a ea,
        plus_assoc (amount laws c) (value v) (sum_by value m),
      )

  pub accumulate-Labelled :
      (m : Dict V) (c t : Cost D)
      → AllValues (IsLabelled f) m
      → Labelled c
      → accumulate step c m ≡ ok t
      → Labelled t
  unfolding accumulate
  accumulate-Labelled [] c t l lc e = subst (Labelled {D = D}) (cc e) lc
  accumulate-Labelled ((k, v) ∷ m) c t (lv, l) lc e =
      let (c', e₁, e₂) = >>=-eq-ok (step k v c) (λ t. accumulate step t m) e in
      let (a, ea, ec) = (step_iff k v c c').0 e₁ in
      accumulate-Labelled m c' t l (add-Labelled c a c' lc (lv a ea) ec) e₂

  module _ {κ} {R : V → V → Type κ}
      (carry : (v w : V)
        → R v w
        → (a : Cost D) → f v ≡ ok a
        → (b : Cost D) × (f w ≡ ok b) × SameCost laws a b) where
    carry-Agrees : (cur : String) (v w : V) → R v w → Agrees f cur v → Agrees f cur w
    carry-Agrees cur v w r (a, ea, fits) =
        let (b, eb, same) = carry v w r a ea in (b, eb, ground (arith, same))

    -- The loop returns for the second order too, and finds no other currency there.
    accumulate_transfer :
        (m m' : Dict V) (t : Cost D)
        → Ranges R m m'
        → AllValues (IsLabelled f) m
        → accumulate step zero_cost m ≡ ok t
        → (t' : Cost D) × (accumulate step zero_cost m' ≡ ok t') × Joins t'.currency t.currency
    accumulate_transfer m m' t r l e =
        let (j, all) = accumulate-Agrees f step step_iff m zero_cost t l e in
        accumulate-ok f step step_iff m' zero_cost t.currency (inl refl)
          (Ranges-AllValues (Agrees f t.currency) (carry-Agrees t.currency) r all)

  module _ {κ} {R : V → V → Type κ} (flip : (v w : V) → R v w → R w v)
      (same_value : (v w : V) → R v w → value v ≡ value w)
      (carry : (v w : V)
        → R v w
        → (a : Cost D) → f v ≡ ok a
        → (b : Cost D) × (f w ≡ ok b) × SameCost laws a b) where
    pub accumulate_order :
        (m m' : Dict V) (t : Cost D)
        → Ranges R m m'
        → AllValues (IsLabelled f) m
        → AllValues (IsLabelled f) m'
        → accumulate step zero_cost m ≡ ok t
        → (t' : Cost D) × (accumulate step zero_cost m' ≡ ok t') × SameCost laws t t'
    accumulate_order m m' t r l l' e =
        let (t', e', j) = accumulate_transfer carry m m' t r l e in
        let (t₂, e₂, k) = accumulate_transfer carry m' m t' (Ranges-symm flip r) l' e' in
        let one : t₂ ≡ t = cc (e, e₂) in
        let currency : t.currency ≡ t'.currency = ground (arith, one, j, k) in
        (
          t',
          e',
          (
            cc (
              accumulate-amount m zero_cost t e,
              accumulate-amount m' zero_cost t' e',
              Ranges-sum_by value same_value r,
            ),
            currency,
            Labelled-is_zero_cost t t'
                (accumulate-Labelled m zero_cost t l (zero_cost-Labelled laws) e)
                (accumulate-Labelled m' zero_cost t' l' (zero_cost-Labelled laws) e') currency,
          ),
        )
