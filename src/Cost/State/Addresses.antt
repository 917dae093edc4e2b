-- ===== src/Cost/State/Addresses.antt =====
-- The addresses of the state that `NewState` builds.
use terracost.Prelude.{
  String, ◌≡◌, refl, ap, ◌∙◌, subst, ◌⊎◌, inl, inr, Bool, true, false, ◌||◌, some, List, [], ◌∷◌,
  arith, ◌==◌, eq_iff, eq_refl, Bool-cases, Option-cases, is_some, mem,
}
use terracost.Errors.{no_queries, failed, panic, done, along_done}
use terracost.Decimal.{Decimal}
use terracost.Dict.{Dict, lookup, insert, is_some-lookup-insert}
use terracost.Query.{addresses, ComponentQuery, ResourceQuery}
use terracost.Cost.Component.{Component}
use terracost.Cost.Resource.{Resource}
use terracost.Cost.State.{
  put_component, is_nil, Catalog, State, new_state, add_resources, add_components, add_component,
  ensure_resource, ensured, price_component,
}

module _ {D : Type 0} where
  -- The resource is in the state.
  abbrev pub has : String → State D → Bool
  has a s = is_some (lookup a s.resources)

  has-ensure_resource :
      (a address provider typ : String) (skipped : Bool) (s : State D)
      → has a (ensure_resource address provider typ skipped s) ≡ (address == a || has a s)
  unfolding ensure_resource
  has-ensure_resource a address provider typ skipped s = elim (Bool-cases (has address s)) [
    | inl e ↦ rw e (elim (Bool-cases (address == a)) [
      | inl q ↦ rw q (rw (← (eq_iff address a).0 q, e))
      | inr q ↦ rw q
    ])
    | inr e ↦ rw e (rw is_some-lookup-insert)
  ]

  has-insert_present :
      (a address : String) (r : Resource D) (m : Dict (Resource D))
      → is_some (lookup address m) ≡ true
      → is_some (lookup a (insert address r m)) ≡ is_some (lookup a m)
  has-insert_present a address r m e = rw is_some-lookup-insert (elim (Bool-cases (address == a)) [
    | inl q ↦ rw (← (eq_iff address a).0 q, e, eq_refl address)
    | inr q ↦ rw q
  ])

  has-add_component :
      (a address label : String) (comp : Component D) (s s' : State D)
      → add_component address label comp s ≡ some s'
      → has a s' ≡ has a s
  unfolding add_component
  has-add_component a address label comp s s' e = elim (Option-cases (lookup address s.resources)) [
    | inl n ↦ cc (rw (n, add_component) at e)
    | inr (r, p) ↦ elim (Option-cases (put_component label comp r)) [
      | inl n ↦ cc (rw (p, n, add_component) at e)
      | inr (r', q) ↦
          subst (λ (t : State D). has a t ≡ has a s)
            {x = record { resources = insert address r' s.resources }}
            (cc (rw (p, q, add_component) at e))
            (has-insert_present a address r' s.resources (rw p))
    ]
  ]

module _ {D : Type 0} ⦃d : Decimal D⦄ (be : Catalog D) where
  has-add_components :
      (a address : String) (comps : List (ComponentQuery D)) (s s' : State D)
      → add_components be address comps s ≡ some s'
      → has a s' ≡ has a s
  unfolding add_components
  has-add_components a address [] s s' e = ap (has a) (cc e)
  has-add_components a address (comp ∷ comps) s s' e =
      elim (Option-cases (add_component address comp.name (price_component be comp) s)) [
        | inl n ↦ cc (rw (n, add_components) at e)
        | inr (t, p) ↦
            has-add_components a address comps t s' (rw (p, add_components) at e)
            ∙ has-add_component a address comp.name (price_component be comp) s t p
      ]

  has-add_resources :
      (a : String) (qs : List (ResourceQuery D)) (s s' : State D)
      → add_resources be qs s ≡ some s'
      → has a s' ≡ (has a s || mem a (addresses qs))
  unfolding add_resources
  has-add_resources a [] s s' e =
      subst (λ (t : State D). has a t ≡ (has a s || false)) {x = s} (cc e) (ground arith)
  has-add_resources a (res ∷ qs) s s' e =
      elim (Option-cases (add_components be res.address res.components (ensured be res s))) [
        | inl n ↦ cc (rw (n, add_resources) at e)
        | inr (t, p) ↦
            rw
              (
                has-add_resources a qs t s' (rw (p, add_resources) at e),
                has-add_components a res.address res.components (ensured be res s) t p,
                has-ensure_resource a res.address res.provider res.typ (is_nil res.components) s,
              )
              (ground arith)
      ]

  -- If `NewState` returns, its state has a resource at exactly the addresses of the queries.
  pub has-new_state :
      (qs : List (ResourceQuery D)) (s : State D)
      → new_state be qs ≡ done s
      → (a : String) → has a s ≡ mem a (addresses qs)
  unfolding new_state lookup
  has-new_state [] s e a = cc
  has-new_state (res ∷ qs) s e a =
      elim (Option-cases (add_resources be (res ∷ qs) (record { resources = [] }))) [
        | inl n ↦ cc (rw n at e)
        | inr (t, p) ↦
            along_done (λ (t : State D). has a t ≡ mem a (addresses (res ∷ qs))) (rw p at e)
              (has-add_resources a (res ∷ qs) (record { resources = [] }) t p)
      ]

  -- `NewState` fails for the want of queries alone; otherwise it returns or panics.
  pub new_state-cases :
      (qs : List (ResourceQuery D))
      → ((qs ≡ []) × (new_state be qs ≡ failed no_queries))
        ⊎ (((s : State D) × (new_state be qs ≡ done s))
            ⊎ ((why : String) × (new_state be qs ≡ panic why)))
  unfolding new_state
  new_state-cases [] = inl (refl, refl)
  new_state-cases (res ∷ qs) =
      inr (elim (Option-cases (add_resources be (res ∷ qs) (record { resources = [] }))) [
        | inl n ↦ inr ("assignment to entry in nil map", rw n)
        | inr (t, p) ↦ inl (t, rw p)
      ])
