-- ===== src/Cost/Totals/Addition.antt =====
-- One addition of costs.
use terracost.Prelude.{
  String, ◌≡◌, refl, ◌≢◌, ◌↔◌, ◌⊎◌, inl, inr, true, List, arith, eq_iff, Bool-cases,
}
use terracost.Errors.{Result, ok, err, wrap}
use terracost.Decimal.{Decimal, Numbers, IsExact}
use terracost.Cost.Money.{Cost, is_zero_cost, zero_cost, add}

-- A cost that `Zero` equals, or that names its currency.
abbrev pub Labelled : {D : Type 0} ⦃d : Decimal D⦄ → Cost D → Type 0
Labelled c = (is_zero_cost c ≡ true) ⊎ (c.currency ≢ "")

-- A cost that can be added to a total in the currency `cur`.
abbrev pub FitsIn : {D : Type 0} ⦃d : Decimal D⦄ → String → Cost D → Type 0
FitsIn cur c = (is_zero_cost c ≡ true) ⊎ ((c.currency ≢ "") × (c.currency ≡ cur))

-- A total with no currency yet, or with this one.
abbrev pub Joins : String → String → Type 0
Joins s t = (s ≡ "") ⊎ (s ≡ t)

module _ {ℓ} {A : Type ℓ} where
  pub wrap-eq-ok :
      (format : String) (args : List String) (r : Result A) {a : A}
      → (wrap format args r ≡ ok a) ↔ (r ≡ ok a)
  wrap-eq-ok format args (ok a) = (λ h. h, λ h. h)
  wrap-eq-ok format args (err e) = (λ h. cc, λ h. cc)

module _ {D : Type 0} ⦃d : Decimal D⦄ where
  pub add-zero_cost : (c a : Cost D) → is_zero_cost a ≡ true → add c a ≡ ok c
  unfolding add
  add-zero_cost c a h = rw h

  pub add-Joins :
      (c a t : Cost D) (cur : String)
      → Labelled a
      → add c a ≡ ok t
      → Joins t.currency cur
      → Joins c.currency cur × FitsIn cur a
  unfolding add
  add-Joins c a t cur l e j =
      ground
        (arith, eq_iff c.currency "", eq_iff c.currency a.currency, eq_iff a.currency a.currency)

  pub add-Labelled : (c a t : Cost D) → Labelled c → Labelled a → add c a ≡ ok t → Labelled t
  unfolding add
  add-Labelled c a t lc la e =
      ground (arith, eq_iff c.currency "", eq_iff a.currency "", eq_iff c.currency a.currency)

  pub Labelled-is_zero_cost :
      (a b : Cost D)
      → Labelled a
      → Labelled b
      → a.currency ≡ b.currency
      → is_zero_cost a ≡ is_zero_cost b
  Labelled-is_zero_cost a b la lb e = ground (arith, eq_iff a.currency "", eq_iff b.currency "")

  pub add-ok :
      (c a : Cost D) (cur : String)
      → Joins c.currency cur
      → FitsIn cur a
      → (t : Cost D) × (add c a ≡ ok t) × Joins t.currency cur
  unfolding add
  add-ok c a cur j (inl z) = (c, rw z, j)
  add-ok c a cur j (inr (ne, e)) = (
    record { decimal = d.add c.decimal a.decimal; currency = cur },
    ground (
      arith,
      eq_iff a.currency "",
      eq_iff c.currency "",
      eq_iff c.currency a.currency,
      eq_iff a.currency a.currency,
    ),
    inr refl,
  )

module _ {D Q : Type 0} ⦃d : Decimal D⦄ ⦃n : Numbers Q⦄ (laws : IsExact D Q) where
  open laws use {num, num-blank, num-add, same_iff}
  open n use {nought, plus, plus_comm, nought-plus}

  abbrev pub amount : Cost D → Q
  amount c = num c.decimal

  pub zero_cost-Labelled : Labelled (zero_cost {D = D})
  zero_cost-Labelled = inl (rw ((same_iff d.blank d.blank).1 refl))

  pub amount-zero_cost : (c : Cost D) → is_zero_cost c ≡ true → amount c ≡ nought
  amount-zero_cost c h = ground (arith, same_iff c.decimal d.blank, num-blank)

  -- A sum that is returned is the sum of the numbers.
  pub amount-add : (c a t : Cost D) → add c a ≡ ok t → amount t ≡ plus (amount c) (amount a)
  unfolding add
  amount-add c a t e = elim (Bool-cases (is_zero_cost a)) [
    | inl z ↦
        cc (rw z at e, amount-zero_cost a z, plus_comm (amount c) nought, nought-plus (amount c))
    | inr p ↦ ground (arith, rw p at e, num-add c.decimal a.decimal)
  ]

  -- Costs that no caller can tell apart by their number, their currency or a comparison with `Zero`.
  abbrev pub SameCost : Cost D → Cost D → Type 0
  SameCost a b =
      (amount a ≡ amount b) × (a.currency ≡ b.currency) × (is_zero_cost a ≡ is_zero_cost b)

module _ {D : Type 0} ⦃d : Decimal D⦄ where
  pub Joins-FitsIn : (t : Cost D) (cur : String) → Labelled t → Joins t.currency cur → FitsIn cur t
  Joins-FitsIn t cur l j = ground arith

  pub FitsIn-trans :
      (a t : Cost D) (cur : String) → FitsIn t.currency a → FitsIn cur t → FitsIn cur a
  FitsIn-trans a t cur f g = ground (arith, eq_iff t.currency "")
