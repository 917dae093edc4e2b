-- ===== src/Cost/Resource/Totals.antt =====
-- What `Resource.Cost` returns, when it fails, and that it is the same for every order of the map.
use terracost.Prelude.{
  String, ◌≡◌, refl, sym, ap, ◌∙◌, subst, ◌≢◌, ◌↔◌, ◌⊎◌, inl, inr, Bool, true, false, ◌||◌, [], ◌∷◌,
  arith, Bool-cases,
}
use terracost.Errors.{Result, ok}
use terracost.Decimal.{Decimal, Numbers, IsExact}
use terracost.Decimal.Sums.{sum_by}
use terracost.Dict.{Dict, AllValues, Ranges, Ranges-AllValues}
use terracost.Cost.Money.{Cost, zero_cost, add}
use terracost.Cost.Component.{Component, component_cost}
use terracost.Cost.Resource.{Resource, resource_cost, add_component_cost, entries}
use terracost.Cost.Totals.{
  Joins-FitsIn, FitsIn-trans, Labelled, FitsIn, Agrees, IsLabelled, SameCost, amount, wrap-eq-ok,
  accumulate-Agrees, accumulate-ok, accumulate-amount, accumulate-Labelled, accumulate_order,
  zero_cost-Labelled,
}

right_of_or : (x y : Bool) {P : Type 0} → (x || y) ≡ false → (x ≡ true) ⊎ P → P
right_of_or x y p (inl z) = cc (rw z at p)
right_of_or x y p (inr q) = q

module _ {D : Type 0} ⦃d : Decimal D⦄ where
  -- A component whose rate is zero, or names its currency.
  abbrev pub IsNamed : Component D → Type 0
  IsNamed c = (d.is_zero c.rate.decimal ≡ true) ⊎ (c.rate.currency ≢ "")

  -- Components that can be summed in the currency `cur`.
  abbrev pub AllFit : String → Dict (Component D) → Type 0
  AllFit cur = AllValues λ c. FitsIn cur (component_cost c)

  -- Two resources with the same components, visited in any order.
  abbrev pub Reordered : Resource D → Resource D → Type 0
  Reordered re re' =
      Ranges (λ (c c' : Component D). c ≡ c') (entries re.components) (entries re'.components)

  abbrev some_cost : Component D → Result (Cost D)
  some_cost c = ok (component_cost c)

  step_iff :
      (k : String) (c : Component D) (s t : Cost D)
      → (add_component_cost k c s ≡ ok t) ↔ ((a : Cost D) × (some_cost c ≡ ok a) × (add s a ≡ ok t))
  step_iff k c s t =
      let unwrapped =
        wrap-eq-ok "failed to add cost of component %s: %w" (k ∷ []) (add s (component_cost c))
          {a = t} in
      (
        λ h. (component_cost c, refl, unwrapped.0 h),
        λ (a, e, h). unwrapped.1 (ap (add s) (cc e) ∙ h),
      )

module _ {D Q : Type 0} ⦃d : Decimal D⦄ ⦃n : Numbers Q⦄ (laws : IsExact D Q) where
  open laws use {num, num-mul, same_iff, is_zero_iff, num-blank}
  open n use {times, nought, plus, nought-plus, times_comm, nought-times}

  -- A component costs its rate times its quantity.
  pub amount-component_cost :
      (c : Component D)
      → amount laws (component_cost c) ≡ times (num c.rate.decimal) (num c.quantity)
  unfolding component_cost
  amount-component_cost c = ground (
    arith,
    is_zero_iff c.rate.decimal,
    is_zero_iff c.quantity,
    num-blank,
    num-mul c.rate.decimal c.quantity,
    nought-times (num c.quantity),
    nought-times (num c.rate.decimal),
    times_comm (num c.rate.decimal) nought,
  )

  pub component_cost-Labelled : (c : Component D) → IsNamed c → Labelled (component_cost c)
  unfolding component_cost
  component_cost-Labelled c h =
      elim (Bool-cases (d.is_zero c.rate.decimal || d.is_zero c.quantity)) [
        | inl z ↦ rw z (zero_cost-Labelled laws)
        | inr p ↦ rw p (inr (right_of_or _ _ p h))
      ]

  all-IsLabelled :
      (m : Dict (Component D)) → AllValues IsNamed m → AllValues (IsLabelled some_cost) m
  all-IsLabelled [] h = tt
  all-IsLabelled ((k, c) ∷ m) (p, h) =
      (λ a e. subst (Labelled {D = D}) (cc e) (component_cost-Labelled c p), all-IsLabelled m h)

  to_Agrees :
      (cur : String) (m : Dict (Component D)) → AllFit cur m → AllValues (Agrees some_cost cur) m
  to_Agrees cur [] h = tt
  to_Agrees cur ((k, c) ∷ m) (p, h) = ((component_cost c, refl, p), to_Agrees cur m h)

  of_Agrees :
      (cur : String) (m : Dict (Component D)) → AllValues (Agrees some_cost cur) m → AllFit cur m
  of_Agrees cur [] h = tt
  of_Agrees cur ((k, c) ∷ m) ((a, e, p), h) =
      (subst (FitsIn {D = D} cur) (cc e) p, of_Agrees cur m h)

  pub resource_cost-Labelled :
      (re : Resource D) (t : Cost D)
      → AllValues IsNamed (entries re.components)
      → resource_cost re ≡ ok t
      → Labelled t
  unfolding resource_cost
  resource_cost-Labelled re t h e =
      accumulate-Labelled laws some_cost add_component_cost step_iff
        (λ c. times (num c.rate.decimal) (num c.quantity))
        (λ c a h. cc (amount-component_cost c, h)) (entries re.components) zero_cost t
        (all-IsLabelled (entries re.components) h) (zero_cost-Labelled laws) e

  -- A cost that `Resource.Cost` returns is the sum of its components' rates times quantities.
  pub resource_cost-sum :
      (re : Resource D) (t : Cost D)
      → resource_cost re ≡ ok t
      → amount laws t
        ≡ sum_by
            (λ (c : Component D). times (num c.rate.decimal) (num c.quantity))
            (entries re.components)
  unfolding resource_cost
  resource_cost-sum re t e =
      accumulate-amount laws some_cost add_component_cost step_iff
        (λ c. times (num c.rate.decimal) (num c.quantity))
        (λ c a h. cc (amount-component_cost c, h)) (entries re.components) zero_cost t e
      ∙ rw num-blank (nought-plus _)

  -- The cost of a resource whose rates are zero or name their currency exists exactly when one
  -- currency fits every component.
  pub resource_cost_iff :
      (re : Resource D)
      → AllValues IsNamed (entries re.components)
      → ((t : Cost D) × (resource_cost re ≡ ok t))
        ↔ ((cur : String) × AllFit cur (entries re.components))
  unfolding resource_cost
  resource_cost_iff re h = (
    λ (t, e). (
      t.currency,
      of_Agrees t.currency (entries re.components)
          (accumulate-Agrees some_cost add_component_cost step_iff (entries re.components) zero_cost
            t (all-IsLabelled (entries re.components) h) e).1,
    ),
    λ (cur, all).
        let (t, e, j) =
          accumulate-ok some_cost add_component_cost step_iff (entries re.components) zero_cost cur
            (inl refl) (to_Agrees cur (entries re.components) all) in
        (t, e),
  )

  -- If a resource's rates are zero or name their currency and `Resource.Cost` returns a cost, then it
  -- returns one of the same amount and currency for every order of the components.
  pub resource_cost_order :
      (re re' : Resource D) (t : Cost D)
      → AllValues IsNamed (entries re.components)
      → Reordered re re'
      → resource_cost re ≡ ok t
      → (t' : Cost D) × (resource_cost re' ≡ ok t') × SameCost laws t t'
  unfolding resource_cost
  resource_cost_order re re' t h r e =
      accumulate_order laws some_cost add_component_cost step_iff
        (λ c. times (num c.rate.decimal) (num c.quantity))
        (λ c a h. cc (amount-component_cost c, h)) {R = λ (c c' : Component D). c ≡ c'}
        (λ v w e. sym e) (λ v w e. cc e)
        (λ v w e a h. (a, sym (ap some_cost e) ∙ h, (refl, refl, refl))) (entries re.components)
        (entries re'.components) t r (all-IsLabelled (entries re.components) h)
        (all-IsLabelled (entries re'.components)
          (Ranges-AllValues IsNamed (λ v w e. subst IsNamed e) r h))
        e

  pub resource_cost-FitsIn :
      (re : Resource D) (cur : String)
      → AllValues IsNamed (entries re.components)
      → AllFit cur (entries re.components)
      → Agrees resource_cost cur re
  unfolding resource_cost
  resource_cost-FitsIn re cur h f =
      let (t, e, j) =
        accumulate-ok some_cost add_component_cost step_iff (entries re.components) zero_cost cur
          (inl refl) (to_Agrees cur (entries re.components) f) in
      (t, e, Joins-FitsIn t cur (resource_cost-Labelled re t h e) j)

  AllFit-trans :
      (m : Dict (Component D)) (t : Cost D) (cur : String)
      → FitsIn cur t
      → AllFit t.currency m
      → AllFit cur m
  AllFit-trans [] t cur g f = tt
  AllFit-trans ((k, c) ∷ m) t cur g (p, f) =
      (FitsIn-trans (component_cost c) t cur p g, AllFit-trans m t cur g f)

  pub resource_cost-AllFit :
      (re : Resource D) (t : Cost D) (cur : String)
      → AllValues IsNamed (entries re.components)
      → resource_cost re ≡ ok t
      → FitsIn cur t
      → AllFit cur (entries re.components)
  unfolding resource_cost
  resource_cost-AllFit re t cur h e g =
      let (j, all) =
        accumulate-Agrees some_cost add_component_cost step_iff (entries re.components) zero_cost t
          (all-IsLabelled (entries re.components) h) e in
      AllFit-trans (entries re.components) t cur g
        (of_Agrees t.currency (entries re.components) all)
