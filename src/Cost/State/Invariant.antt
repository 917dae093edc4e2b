-- ===== src/Cost/State/Invariant.antt =====
-- What holds of every state that `NewState` returns.
use terracost.Prelude.{
  String, ◌≡◌, refl, subst, inl, inr, Bool, true, false, Option, none, some, List, [], ◌∷◌,
  if◌then◌else◌, Bool-cases, Option-cases, is_some,
}
use terracost.Errors.{done, along_done}
use terracost.Decimal.{Decimal}
use terracost.Dict.{
  Dict, lookup, insert, IsMap, AllValues, insert-IsMap, insert-AllValues, lookup-AllValues,
}
use terracost.Query.{ComponentQuery, ResourceQuery}
use terracost.Cost.Component.{Component}
use terracost.Cost.Resource.{Resource, entries}
use terracost.Cost.State.{
  is_nil, Catalog, State, new_state, add_resources, add_components, add_component, put_component,
  ensure_resource, ensured, price_component,
}

module _ {D : Type 0} where
  -- The labels of a resource are distinct, and a skipped one has the nil map.
  abbrev pub IsWellFormed : Resource D → Type 0
  IsWellFormed r = IsMap (entries r.components) × (r.skipped ≡ true → r.components ≡ none)

  abbrev pub AllWellFormed : State D → Type 0
  AllWellFormed s = IsMap s.resources × AllValues IsWellFormed s.resources

  ensure_resource-AllWellFormed :
      (address provider typ : String) (skipped : Bool) (s : State D)
      → AllWellFormed s
      → AllWellFormed (ensure_resource address provider typ skipped s)
  unfolding ensure_resource
  ensure_resource-AllWellFormed address provider typ skipped s (h, each) =
      elim (Bool-cases (is_some (lookup address s.resources))) [
        | inl e ↦ rw e (h, each)
        | inr e ↦ rw e (
          insert-IsMap address _ s.resources h,
          insert-AllValues IsWellFormed address _ s.resources (blank skipped) each,
        )
      ]
    where
      blank :
          (skipped : Bool)
          → IsWellFormed (record {
            provider = provider;
            typ = typ;
            components = if skipped then none else some [];
            skipped = skipped;
          })
      blank true = (tt, λ e. refl)
      blank false = (tt, λ e. cc)

  put_component-IsWellFormed :
      (label : String) (comp : Component D) (provider typ : String)
      (cs : Option (Dict (Component D))) (skipped : Bool) (r' : Resource D)
      → IsWellFormed (record { provider = provider; typ = typ; components = cs; skipped = skipped })
      → put_component label comp
          (record { provider = provider; typ = typ; components = cs; skipped = skipped })
        ≡ some r'
      → IsWellFormed r'
  put_component-IsWellFormed label comp provider typ none skipped r' h e = cc
  put_component-IsWellFormed label comp provider typ (some m) skipped r' (h, g) e =
      subst IsWellFormed
        {x = record {
          provider = provider;
          typ = typ;
          components = some (insert label comp m);
          skipped = skipped;
        }}
        {y = r'} (cc e) (insert-IsMap label comp m h, λ q. cc (g q))

  add_component-AllWellFormed :
      (address label : String) (comp : Component D) (s s' : State D)
      → AllWellFormed s
      → add_component address label comp s ≡ some s'
      → AllWellFormed s'
  unfolding add_component
  add_component-AllWellFormed address label comp s s' (h, each) e =
      elim (Option-cases (lookup address s.resources)) [
        | inl n ↦ cc (rw (n, add_component) at e)
        | inr (r, p) ↦ elim (Option-cases (put_component label comp r)) [
          | inl n ↦ cc (rw (p, n, add_component) at e)
          | inr (r', q) ↦
              subst AllWellFormed {x = record { resources = insert address r' s.resources }}
                {y = s'} (cc (rw (p, q, add_component) at e))
                (
                  insert-IsMap address r' s.resources h,
                  insert-AllValues IsWellFormed address r' s.resources
                      (put_component-IsWellFormed label comp r.provider r.typ r.components r.skipped
                        r' (lookup-AllValues IsWellFormed address r s.resources each p) q)
                      each,
                )
        ]
      ]

module _ {D : Type 0} ⦃d : Decimal D⦄ (be : Catalog D) where
  add_components-AllWellFormed :
      (address : String) (comps : List (ComponentQuery D)) (s s' : State D)
      → AllWellFormed s
      → add_components be address comps s ≡ some s'
      → AllWellFormed s'
  unfolding add_components
  add_components-AllWellFormed address [] s s' h e = subst AllWellFormed {x = s} {y = s'} (cc e) h
  add_components-AllWellFormed address (comp ∷ comps) s s' h e =
      elim (Option-cases (add_component address comp.name (price_component be comp) s)) [
        | inl n ↦ cc (rw (n, add_components) at e)
        | inr (t, p) ↦
            add_components-AllWellFormed address comps t s'
              (add_component-AllWellFormed address comp.name (price_component be comp) s t h p)
              (rw (p, add_components) at e)
      ]

  add_resources-AllWellFormed :
      (qs : List (ResourceQuery D)) (s s' : State D)
      → AllWellFormed s
      → add_resources be qs s ≡ some s'
      → AllWellFormed s'
  unfolding add_resources
  add_resources-AllWellFormed [] s s' h e = subst AllWellFormed {x = s} {y = s'} (cc e) h
  add_resources-AllWellFormed (res ∷ qs) s s' h e =
      elim (Option-cases (add_components be res.address res.components (ensured be res s))) [
        | inl n ↦ cc (rw (n, add_resources) at e)
        | inr (t, p) ↦
            add_resources-AllWellFormed qs t s'
              (add_components-AllWellFormed res.address res.components (ensured be res s) t
                (ensure_resource-AllWellFormed res.address res.provider res.typ
                  (is_nil res.components) s h)
                p)
              (rw (p, add_resources) at e)
      ]

  -- In a state that NewState returns the addresses are distinct, the labels of each resource's
  -- components are distinct, and a skipped resource has the nil map.
  pub new_state-AllWellFormed :
      (qs : List (ResourceQuery D)) (s : State D) → new_state be qs ≡ done s → AllWellFormed s
  unfolding new_state
  new_state-AllWellFormed [] s e = cc
  new_state-AllWellFormed (res ∷ qs) s e =
      elim (Option-cases (add_resources be (res ∷ qs) (record { resources = [] }))) [
        | inl n ↦ cc (rw n at e)
        | inr (t, p) ↦
            along_done AllWellFormed {x = t} {y = s} (rw p at e)
              (add_resources-AllWellFormed (res ∷ qs) (record { resources = [] }) t (tt, tt) p)
      ]
