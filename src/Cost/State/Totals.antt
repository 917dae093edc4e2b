-- ===== src/Cost/State/Totals.antt =====
-- What `State.Cost` returns, when it fails, and that it is the same for every order of the maps.
use terracost.Prelude.{String, ◌≡◌, refl, sym, ap, ◌∙◌, subst, ◌↔◌, inl, [], ◌∷◌}
use terracost.Errors.{ok, wrap, >>=-eq-ok}
use terracost.Decimal.{Decimal, Numbers, IsExact}
use terracost.Decimal.Sums.{sum_by, Ranges-sum_by}
use terracost.Dict.{Ranges-with, Dict, AllValues, Ranges, Ranges-AllValues, Ranges-symm}
use terracost.Cost.Money.{Cost, zero_cost, add}
use terracost.Cost.Component.{Component}
use terracost.Cost.Resource.{Resource, resource_cost, entries}
use terracost.Cost.Resource.Totals.{
  IsNamed, AllFit, Reordered, resource_cost-Labelled, resource_cost-sum, resource_cost-FitsIn,
  resource_cost-AllFit, resource_cost_order,
}
use terracost.Cost.State.{State, state_cost, add_resource_cost}
use terracost.Cost.Totals.{
  Agrees, IsLabelled, SameCost, amount, wrap-eq-ok, accumulate-Agrees, accumulate-ok,
  accumulate-amount, accumulate_order,
}

module _ {D : Type 0} ⦃d : Decimal D⦄ where
  -- Every rate of the resource is zero or names its currency.
  abbrev pub Named : Resource D → Type 0
  Named re = AllValues IsNamed (entries re.components)

  abbrev pub AllNamed : State D → Type 0
  AllNamed s = AllValues Named s.resources

  keep : (v w : Resource D) → Reordered v w → Named v → Named w
  keep v w r h = Ranges-AllValues IsNamed (λ a b e. subst IsNamed e) r h

  -- Two states with the same components, where every map may be visited in another order.
  abbrev pub SameEntries : State D → State D → Type 0
  SameEntries s s' = Ranges Reordered s.resources s'.resources

  step_iff :
      (k : String) (re : Resource D) (s t : Cost D)
      → (add_resource_cost k re s ≡ ok t)
        ↔ ((a : Cost D) × (resource_cost re ≡ ok a) × (add s a ≡ ok t))
  step_iff k re s t = (
    λ h.
        let (a, e, h') =
          >>=-eq-ok (wrap "failed to get cost of resource %s: %w" (k ∷ []) (resource_cost re))
            (λ r_cost. wrap "failed to add cost of resource %s: %w" (k ∷ []) (add s r_cost)) h in
        (a, (wrap-eq-ok _ _ (resource_cost re)).0 e, (wrap-eq-ok _ _ (add s a)).0 h'),
    λ (a, e, h). rw e (rw h),
  )

module _ {D Q : Type 0} ⦃d : Decimal D⦄ ⦃n : Numbers Q⦄ (laws : IsExact D Q) where
  open laws use {num, num-blank}
  open n use {times, nought-plus}

  -- What the components of a resource come to, whether or not their currencies agree.
  abbrev pub worth : Resource D → Q
  worth re =
      sum_by (λ (c : Component D). times (num c.rate.decimal) (num c.quantity))
        (entries re.components)

  -- A cost that `State.Cost` returns is the sum, over the resources and their components, of the rates
  -- times the quantities.
  pub state_cost-sum :
      (s : State D) (t : Cost D) → state_cost s ≡ ok t → amount laws t ≡ sum_by worth s.resources
  unfolding state_cost
  state_cost-sum s t e =
      accumulate-amount laws resource_cost add_resource_cost step_iff worth (resource_cost-sum laws)
        s.resources zero_cost t e
      ∙ rw num-blank (nought-plus _)

  all-IsLabelled :
      (m : Dict (Resource D)) → AllValues Named m → AllValues (IsLabelled resource_cost) m
  all-IsLabelled [] h = tt
  all-IsLabelled ((k, re) ∷ m) (p, h) =
      (λ a e. resource_cost-Labelled laws re a p e, all-IsLabelled m h)

  -- If a state's rates are zero or name their currency and `State.Cost` returns a cost, then it returns
  -- one of the same amount and currency for every order of the resources and of their components.
  pub state_cost_order :
      (s s' : State D) (t : Cost D)
      → AllNamed s
      → SameEntries s s'
      → state_cost s ≡ ok t
      → (t' : Cost D) × (state_cost s' ≡ ok t') × SameCost laws t t'
  unfolding state_cost
  state_cost_order s s' t h r e =
      accumulate_order laws resource_cost add_resource_cost step_iff worth (resource_cost-sum laws)
        {R = λ v w. Reordered v w × Named v × Named w}
        (λ v w (x, p, q). (Ranges-symm (λ a b. sym) x, q, p))
        (λ v w (x, p, q).
          Ranges-sum_by _
            (λ a b e. ap (λ (c : Component D). times (num c.rate.decimal) (num c.quantity)) e) x)
        (λ v w (x, p, q) a. resource_cost_order laws v w a p x) s.resources s'.resources t
        (Ranges-with Named keep r h) (all-IsLabelled s.resources h)
        (all-IsLabelled s'.resources (Ranges-AllValues Named keep r h)) e

  agree_of_fit :
      (cur : String) (m : Dict (Resource D))
      → AllValues Named m
      → AllValues (λ re. AllFit cur (entries re.components)) m
      → AllValues (Agrees resource_cost cur) m
  agree_of_fit cur [] h f = tt
  agree_of_fit cur ((k, re) ∷ m) (p, h) (q, f) =
      (resource_cost-FitsIn laws re cur p q, agree_of_fit cur m h f)

  fit_of_agree :
      (cur : String) (m : Dict (Resource D))
      → AllValues Named m
      → AllValues (Agrees resource_cost cur) m
      → AllValues (λ re. AllFit cur (entries re.components)) m
  fit_of_agree cur [] h f = tt
  fit_of_agree cur ((k, re) ∷ m) (p, h) ((a, e, q), f) =
      (resource_cost-AllFit laws re a cur p e q, fit_of_agree cur m h f)

  -- The cost of a state whose rates are zero or name their currency exists exactly when one currency
  -- fits every component of every resource.
  pub state_cost_iff :
      (s : State D)
      → AllNamed s
      → ((t : Cost D) × (state_cost s ≡ ok t)) ↔ (
          (cur : String) × AllValues
            (λ (re : Resource D). AllFit cur (entries re.components))
            s.resources)
  unfolding state_cost
  state_cost_iff s h = (
    λ (t, e). (
      t.currency,
      fit_of_agree t.currency s.resources h
          (accumulate-Agrees resource_cost add_resource_cost step_iff s.resources zero_cost t
            (all-IsLabelled s.resources h) e).1,
    ),
    λ (cur, all).
        let (t, e, j) =
          accumulate-ok resource_cost add_resource_cost step_iff s.resources zero_cost cur
            (inl refl) (agree_of_fit cur s.resources h all) in
        (t, e),
  )
