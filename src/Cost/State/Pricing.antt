-- ===== src/Cost/State/Pricing.antt =====
-- The component that `NewState` makes of a query, and the queries on which it panics.
use terracost.Prelude.{
  String, ◌≡◌, refl, ◌≢◌, ◌↔◌, ◌⊎◌, inl, inr, none, some, List, [], ◌∷◌, arith, eq_refl,
  if◌then◌else◌,
}
use terracost.Errors.{Error, Result, ok, err, panic, product_not_found, price_not_found}
use terracost.Decimal.{Decimal, Numbers, IsExact}
use terracost.Dict.{Dict, lookup}
use terracost.Query.{Product, Price, ComponentQuery, ResourceQuery}
use terracost.Cost.Money.{zero_cost, new_monthly, new_hourly, hours_per_month}
use terracost.Cost.Component.{Component, component_cost}
use terracost.Cost.Resource.{Resource}
use terracost.Cost.Resource.Totals.{amount-component_cost}
use terracost.Cost.Totals.{amount}
use terracost.Cost.State.Build.{add_resource-fresh, priced_resource}
use terracost.Cost.State.{
  Catalog, new_state, add_resources, add_components, add_component, ensure_resource, ensured,
  price_component, rated_component, error_component,
}

some_not_none : {e : Error} → some e ≢ none
some_not_none p = cc p

module _ {D : Type 0} ⦃d : Decimal D⦄ (be : Catalog D) where
  -- The first price of the first product that match a query.
  abbrev pub IsPriced : ComponentQuery D → Price D → Type 0
  IsPriced q price =
      (prod : Product) × (prods : List Product) × (prices : List (Price D)) × (be.products
          q.product_filter
        ≡ ok (prod ∷ prods))
      × (be.prices prod.id q.price_filter ≡ ok (price ∷ prices))

  price_component-rated :
      (q : ComponentQuery D) (price : Price D)
      → IsPriced q price
      → price_component be q ≡ rated_component be q price
  unfolding price_component
  price_component-rated q price (prod, prods, prices, e, h) = rw (e, price_component) (rw h)

  abbrev IsDecided : ComponentQuery D → Type 0
  IsDecided q =
      ((price : Price D) × IsPriced q price)
      ⊎ ((e : Error) × (price_component be q ≡ error_component be e))

  IsDecided-by_prices :
      (q : ComponentQuery D) (prod : Product) (prods : List Product) (r : Result (List (Price D)))
      → be.products q.product_filter ≡ ok (prod ∷ prods)
      → be.prices prod.id q.price_filter ≡ r
      → IsDecided q
  unfolding price_component
  IsDecided-by_prices q prod prods (err e) p h = inr (e, rw (p, price_component) (rw h))
  IsDecided-by_prices q prod prods (ok []) p h =
      inr (price_not_found, rw (p, price_component) (rw h))
  IsDecided-by_prices q prod prods (ok (price ∷ prices)) p h =
      inl (price, (prod, prods, prices, p, h))

  IsDecided-by_products :
      (q : ComponentQuery D) (r : Result (List Product))
      → be.products q.product_filter ≡ r
      → IsDecided q
  unfolding price_component
  IsDecided-by_products q (err e) p = inr (e, rw (p, price_component))
  IsDecided-by_products q (ok []) p = inr (product_not_found, rw (p, price_component))
  IsDecided-by_products q (ok (prod ∷ prods)) p =
      IsDecided-by_prices q prod prods (be.prices prod.id q.price_filter) p refl

  pub price_component_cases : (q : ComponentQuery D) → IsDecided q
  price_component_cases q = IsDecided-by_products q (be.products q.product_filter) refl

  -- A component of `NewState` has no error exactly when the backend gives a first product and a first
  -- price for its query.
  pub price_component_error_iff :
      (q : ComponentQuery D)
      → ((price_component be q).error ≡ none) ↔ ((price : Price D) × IsPriced q price)
  price_component_error_iff q = (
    λ h. elim (price_component_cases q) [
      | inl found ↦ found
      | inr (e, p) ↦ absurd (some_not_none {e = e} (rw p at h))
    ],
    λ (price, h). rw (price_component-rated q price h),
  )

module _ {D Q : Type 0} ⦃d : Decimal D⦄ ⦃n : Numbers Q⦄ (laws : IsExact D Q) (be : Catalog D) where
  open laws use {num, num-mul, is_zero_iff, num-blank}
  open n use {times, nought, nought-times, times_comm, times_assoc}

  -- The quantity in a month: the monthly one, or else the hourly one in every hour of the month.
  abbrev pub monthly_use : ComponentQuery D → Q
  monthly_use q =
      if d.is_zero q.monthly_quantity
      then times (num q.hourly_quantity) (num hours_per_month)
      else num q.monthly_quantity

  -- A component whose price is found costs the price times the quantity in a month.
  pub price_component-amount :
      (q : ComponentQuery D) (price : Price D)
      → IsPriced be q price
      → amount laws (component_cost (price_component be q))
        ≡ times (num price.value) (monthly_use q)
  unfolding new_monthly new_hourly
  price_component-amount q price h =
      rw (price_component-rated be q price h, amount-component_cost laws)
        (ground (
          arith,
          is_zero_iff q.monthly_quantity,
          num-mul price.value hours_per_month,
          times_assoc (num price.value) (num hours_per_month) (num q.hourly_quantity),
          times_comm (num hours_per_month) (num q.hourly_quantity),
        ))

  -- A component of `NewState` that carries an error costs `Zero`.
  pub price_component-zero_cost :
      (q : ComponentQuery D) (e : Error)
      → (price_component be q).error ≡ some e
      → component_cost (price_component be q) ≡ zero_cost
  unfolding component_cost
  price_component-zero_cost q e h = elim (price_component_cases be q) [
    | inl (price, found) ↦
        absurd (some_not_none {e = e} (cc (h, price_component-rated be q price found)))
    | inr (e', p) ↦ rw p (rw ((is_zero_iff d.blank).1 num-blank))
  ]

module _ {D : Type 0} ⦃d : Decimal D⦄ (be : Catalog D) where
  add_component-nil_map :
      (m : Dict (Resource D)) (address label : String) (c : Component D) (r : Resource D)
      → lookup address m ≡ some r
      → r.components ≡ none
      → add_component address label c (record { resources = m }) ≡ none
  unfolding add_component
  add_component-nil_map m address label c r found nil = rw (found, add_component) (rw nil)

  -- An address that is there already keeps its resource, and one with the nil map takes no component.
  add_components-nil_map :
      (m : Dict (Resource D)) (b : ResourceQuery D) (r : Resource D)
      → lookup b.address m ≡ some r
      → r.components ≡ none
      → b.components ≢ []
      → add_components be b.address b.components (ensured be b (record { resources = m })) ≡ none
  unfolding ensure_resource
  add_components-nil_map m b r found nil some_query = rw found (go b.components some_query)
    where
      go :
          (comps : List (ComponentQuery D))
          → comps ≢ []
          → add_components be b.address comps (record { resources = m }) ≡ none
      go [] h = absurd (h refl)
      go (comp ∷ comps) h =
          unfold add_components in
          rw (
            add_component-nil_map m b.address comp.name (price_component be comp) r found nil,
            add_components,
          )

  -- A query without components gives its resource the nil map, and a second query at the same address
  -- that has components then panics.
  pub new_state-panic :
      (a b : ResourceQuery D) (queries : List (ResourceQuery D))
      → a.components ≡ []
      → b.components ≢ []
      → a.address ≡ b.address
      → new_state be (a ∷ b ∷ queries) ≡ panic "assignment to entry in nil map"
  unfolding new_state add_resources
  new_state-panic a b queries p q r =
      rw (add_resource-fresh be [] a (unfold lookup in refl), add_resources)
        (rw (
          add_components-nil_map ((a.address, priced_resource be a) ∷ []) b (priced_resource be a)
              (rw r (unfold lookup in rw (eq_refl b.address))) (rw p) q,
          add_resources,
        ))
