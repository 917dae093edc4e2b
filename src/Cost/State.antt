-- ===== src/Cost/State.antt =====
-- cost/state.go: the state of costs that the queries and the backend give.
pub mod Addresses
pub mod Invariant
pub mod Totals
pub mod Build
pub mod Pricing
use terracost.Prelude.{
  ℕ, zero, suc, ◌+◌, ◌-◌, ◌*◌, ◌/◌, ◌%◌, ◌≤◌, ◌<◌, String, ◌≡◌, refl, sym, ap, ◌∙◌, subst, ◌≢◌, ◌↔◌,
  ◌⊎◌, inl, inr, Bool, true, false, not, ◌&&◌, ◌||◌, false≢true, Option, none, some, List, [], ◌∷◌,
  ◌++◌, map, arith, ◌==◌, eq_iff, eq_refl, ltb, leb, eqb, if◌then◌else◌, Bool-cases, Option-cases,
  is_some, length, length-append, All, All-append, List-cases, mem, mem-append,
}
use terracost.Errors.{
  Error, Result, ok, err, wrap, ◌>>=◌, Run, done, failed, panic, no_queries, product_not_found,
  price_not_found,
}
use terracost.Decimal.{Decimal}
use terracost.Dict.{Dict, lookup, insert}
use terracost.Query.{ProductFilter, PriceFilter, Product, Price, ComponentQuery, ResourceQuery}
use terracost.Cost.Money.{Cost, zero_cost, add, new_monthly, new_hourly}
use terracost.Cost.Component.{Component}
use terracost.Cost.Resource.{Resource, resource_cost, accumulate}

-- What `NewState` asks of a `backend.Backend`: the two queries, which read and change nothing.
pub record Catalog (D : Type 0) : Type 0 where
  pub products : Option ProductFilter → Result (List Product)
  pub prices : ℕ → Option PriceFilter → Result (List (Price D))

pub record State (D : Type 0) : Type 0 where
  pub resources : Dict (Resource D)

-- `len(l) == 0`
abbrev pub is_nil {ℓ} : {A : Type ℓ} → List A → Bool
is_nil [] = true
is_nil (_ ∷ _) = false

module _ {D : Type 0} where
  -- `ensureResource`
  unfoldable pub ensure_resource : String → String → String → Bool → State D → State D
  ensure_resource address provider typ skipped s =
      if is_some (lookup address s.resources) then s else record {
        resources =
            insert address
              (record {
                provider = provider;
                typ = typ;
                components = if skipped then none else some [];
                skipped = skipped;
              })
              s.resources;
      }

  abbrev pub put_component : String → Component D → Resource D → Option (Resource D)
  put_component label comp r = elim r.components [
    | none ↦ none
    | some m ↦ some (record r { components = some (insert label comp m) })
  ]

  -- `addComponent`: `none` is the panic at a write to the nil map
  unfoldable pub add_component : String → String → Component D → State D → Option (State D)
  add_component address label comp s = elim (lookup address s.resources) [
    | none ↦ none
    | some r ↦ elim (put_component label comp r) [
      | none ↦ none
      | some r' ↦ some (record { resources = insert address r' s.resources })
    ]
  ]

module _ {D : Type 0} ⦃d : Decimal D⦄ (be : Catalog D) where
  -- `Component{Error: err}`
  abbrev pub error_component : Error → Component D
  error_component e = record {
    quantity = d.blank;
    unit = "";
    rate = zero_cost;
    details = [];
    usage = false;
    error = some e;
  }

  abbrev pub rated_component : ComponentQuery D → Price D → Component D
  rated_component comp price =
      let hourly = d.is_zero comp.monthly_quantity in
      record {
        quantity = if hourly then comp.hourly_quantity else comp.monthly_quantity;
        unit = comp.unit;
        rate =
            if hourly
            then new_hourly price.value price.currency
            else new_monthly price.value price.currency;
        details = comp.details;
        usage = comp.usage;
        error = none;
      }

  abbrev first_price : ComponentQuery D → Result (List (Price D)) → Component D
  first_price comp (err e) = error_component e
  first_price comp (ok []) = error_component price_not_found
  first_price comp (ok (price ∷ _)) = rated_component comp price

  abbrev first_product : ComponentQuery D → Result (List Product) → Component D
  first_product comp (err e) = error_component e
  first_product comp (ok []) = error_component product_not_found
  first_product comp (ok (prod ∷ _)) = first_price comp (be.prices prod.id comp.price_filter)

  -- the component that the body of the inner loop of `NewState` adds
  unfoldable pub price_component : ComponentQuery D → Component D
  price_component comp = first_product comp (be.products comp.product_filter)

  -- the inner loop; `none` is the panic
  unfoldable pub add_components : String → List (ComponentQuery D) → State D → Option (State D)
  add_components address [] s = some s
  add_components address (comp ∷ comps) s =
      elim (add_component address comp.name (price_component comp) s) [
        | none ↦ none
        | some s' ↦ add_components address comps s'
      ]

  abbrev pub ensured : ResourceQuery D → State D → State D
  ensured res = ensure_resource res.address res.provider res.typ (is_nil res.components)

  -- the outer loop
  unfoldable pub add_resources : List (ResourceQuery D) → State D → Option (State D)
  add_resources [] s = some s
  add_resources (res ∷ queries) s =
      elim (add_components res.address res.components (ensured res s)) [
        | none ↦ none
        | some s' ↦ add_resources queries s'
      ]

  abbrev run_of : Option (State D) → Run (State D)
  run_of none = panic "assignment to entry in nil map"
  run_of (some s) = done s

  -- `NewState`
  unfoldable pub new_state : List (ResourceQuery D) → Run (State D)
  new_state [] = failed no_queries
  new_state (res ∷ queries) = run_of (add_resources (res ∷ queries) (record { resources = [] }))

module _ {D : Type 0} ⦃d : Decimal D⦄ where
  abbrev pub add_resource_cost : String → Resource D → Cost D → Result (Cost D)
  add_resource_cost name re total =
      wrap "failed to get cost of resource %s: %w" (name ∷ []) (resource_cost re) >>= λ r_cost.
      wrap "failed to add cost of resource %s: %w" (name ∷ []) (add total r_cost)

  -- `State.Cost`
  unfoldable pub state_cost : State D → Result (Cost D)
  unfolding accumulate
  state_cost s = accumulate add_resource_cost zero_cost s.resources
