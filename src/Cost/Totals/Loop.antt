-- ===== src/Cost/Totals/Loop.antt =====
-- The loop `accumulate` where each step adds the cost `f v` of an entry, if that exists.
use terracost.Prelude.{String, ◌≡◌, refl, ◌↔◌, inr, [], ◌∷◌}
use terracost.Errors.{Result, ok, >>=-eq-ok}
use terracost.Decimal.{Decimal}
use terracost.Dict.{Dict, AllValues}
use terracost.Cost.Money.{Cost, add}
use terracost.Cost.Resource.{accumulate}
use terracost.Cost.Totals.Addition.{Labelled, FitsIn, Joins, add-Joins, add-ok}

-- A value whose cost exists, and can be added to a total in `cur`.
abbrev pub Agrees {ℓ} :
    {D : Type 0} ⦃d : Decimal D⦄ {V : Type ℓ} → (V → Result (Cost D)) → String → V → Type 0
Agrees {D} f cur v = (a : Cost D) × (f v ≡ ok a) × FitsIn cur a

abbrev pub IsLabelled {ℓ} :
    {D : Type 0} ⦃d : Decimal D⦄ {V : Type ℓ} → (V → Result (Cost D)) → V → Type 0
IsLabelled {D} f v = (a : Cost D) → f v ≡ ok a → Labelled a

module _ {ℓ} {D : Type 0} ⦃d : Decimal D⦄ {V : Type ℓ} (f : V → Result (Cost D))
    (step : String → V → Cost D → Result (Cost D))
    (step_iff : (k : String) (v : V) (c t : Cost D)
      → (step k v c ≡ ok t) ↔ ((a : Cost D) × (f v ≡ ok a) × (add c a ≡ ok t))) where
  pub accumulate-Agrees :
      (m : Dict V) (c t : Cost D)
      → AllValues (IsLabelled f) m
      → accumulate step c m ≡ ok t
      → Joins c.currency t.currency × AllValues (Agrees f t.currency) m
  unfolding accumulate
  accumulate-Agrees [] c t l e = (inr (cc e), tt)
  accumulate-Agrees ((k, v) ∷ m) c t (lv, l) e =
      let (c', e₁, e₂) = >>=-eq-ok (step k v c) (λ t. accumulate step t m) e in
      let (a, ea, ec) = (step_iff k v c c').0 e₁ in
      let (j, all) = accumulate-Agrees m c' t l e₂ in
      let (j', fits) = add-Joins c a c' t.currency (lv a ea) ec j in (j', ((a, ea, fits), all))

  pub accumulate-ok :
      (m : Dict V) (c : Cost D) (cur : String)
      → Joins c.currency cur
      → AllValues (Agrees f cur) m
      → (t : Cost D) × (accumulate step c m ≡ ok t) × Joins t.currency cur
  unfolding accumulate
  accumulate-ok [] c cur j all = (c, refl, j)
  accumulate-ok ((k, v) ∷ m) c cur j ((a, ea, fits), all) =
      let (c', ec, j') = add-ok c a cur j fits in
      let (t, et, jt) = accumulate-ok m c' cur j' all in
      (t, rw ((step_iff k v c c').1 (a, ea, ec)) et, jt)
