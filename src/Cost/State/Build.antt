-- ===== src/Cost/State/Build.antt =====
-- The state that `NewState` builds.
use terracost.Prelude.{
  String, ◌≡◌, refl, Bool, false, Option, none, some, List, [], ◌∷◌, ◌++◌, if◌then◌else◌,
}
use terracost.Decimal.{Decimal}
use terracost.Dict.{Dict, lookup, insert, insert-eq-append, lookup-append_last, insert-append_last}
use terracost.Query.{ComponentQuery, ResourceQuery}
use terracost.Cost.Component.{Component}
use terracost.Cost.Resource.{Resource}
use terracost.Cost.State.{
  is_nil, Catalog, State, add_components, add_component, ensure_resource, ensured, price_component,
}

-- What `NewState` is to build for a resource, read off its query alone.
module _ {D : Type 0} ⦃d : Decimal D⦄ (be : Catalog D) where
  -- Every component under its name; of two with one name the later.
  abbrev pub priced : Dict (Component D) → List (ComponentQuery D) → Dict (Component D)
  priced m [] = m
  priced m (comp ∷ comps) = priced (insert comp.name (price_component be comp) m) comps

  abbrev pub priced_or_nil : List (ComponentQuery D) → Option (Dict (Component D))
  priced_or_nil [] = none
  priced_or_nil (comp ∷ comps) = some (priced [] (comp ∷ comps))

  abbrev pub priced_resource : ResourceQuery D → Resource D
  priced_resource res = record {
    provider = res.provider;
    typ = res.typ;
    components = priced_or_nil res.components;
    skipped = is_nil res.components;
  }

  abbrev pub priced_resources : List (ResourceQuery D) → Dict (Resource D)
  priced_resources [] = []
  priced_resources (res ∷ queries) = (res.address, priced_resource res) ∷ priced_resources queries

  -- No two queries have one address, and none has an address of `m`.
  abbrev pub Distinct : Dict (Resource D) → List (ResourceQuery D) → Type 0
  Distinct m [] = Unit
  Distinct m (res ∷ queries) =
      (lookup res.address m ≡ none)
      × Distinct (m ++ (res.address, priced_resource res) ∷ []) queries

  -- A resource with components, at the end of the map.
  abbrev ending : Dict (Resource D) → ResourceQuery D → Dict (Component D) → State D
  ending m res cs = record {
    resources =
        m
        ++ (
          res.address,
          record { provider = res.provider; typ = res.typ; components = some cs; skipped = false },
        )
          ∷ [];
  }

  add_component-ending :
      (m : Dict (Resource D)) (res : ResourceQuery D) (cs : Dict (Component D)) (label : String)
      (c : Component D)
      → lookup res.address m ≡ none
      → add_component res.address label c (ending m res cs)
        ≡ some (ending m res (insert label c cs))
  unfolding add_component
  add_component-ending m res cs label c h =
      rw (lookup-append_last res.address _ m h, add_component)
        (rw (insert-append_last res.address _ _ m h))

  add_components-ending :
      (m : Dict (Resource D)) (res : ResourceQuery D) (comps : List (ComponentQuery D))
      (cs : Dict (Component D))
      → lookup res.address m ≡ none
      → add_components be res.address comps (ending m res cs)
        ≡ some (ending m res (priced cs comps))
  unfolding add_components
  add_components-ending m res [] cs h = refl
  add_components-ending m res (comp ∷ comps) cs h =
      rw (add_component-ending m res cs comp.name (price_component be comp) h, add_components)
        (add_components-ending m res comps (insert comp.name (price_component be comp) cs) h)

  ensure_resource-fresh :
      (m : Dict (Resource D)) (address provider typ : String) (skipped : Bool)
      → lookup address m ≡ none
      → ensure_resource address provider typ skipped (record { resources = m }) ≡ record {
        resources =
            m
            ++ (
              address,
              record {
                provider = provider;
                typ = typ;
                components = if skipped then none else some [];
                skipped = skipped;
              },
            )
              ∷ [];
      }
  unfolding ensure_resource
  ensure_resource-fresh m address provider typ skipped h =
      rw (h, ensure_resource) (rw (insert-eq-append address _ m h))

  pub add_resource-fresh :
      (m : Dict (Resource D)) (res : ResourceQuery D)
      → lookup res.address m ≡ none
      → add_components be res.address res.components (ensured be res (record { resources = m }))
        ≡ some (record { resources = m ++ (res.address, priced_resource res) ∷ [] })
  add_resource-fresh m res h =
      rw (ensure_resource-fresh m res.address res.provider res.typ _ h) (go res.components)
    where
      go :
          (comps : List (ComponentQuery D))
          → add_components be res.address comps (record {
            resources =
                m
                ++ (
                  res.address,
                  record {
                    provider = res.provider;
                    typ = res.typ;
                    components = if is_nil comps then none else some [];
                    skipped = is_nil comps;
                  },
                )
                  ∷ [];
          })
            ≡ some (record {
              resources =
                  m
                  ++ (
                    res.address,
                    record {
                      provider = res.provider;
                      typ = res.typ;
                      components = priced_or_nil comps;
                      skipped = is_nil comps;
                    },
                  )
                    ∷ [];
            })
      go [] = unfold add_components in refl
      go (comp ∷ comps) = add_components-ending m res (comp ∷ comps) [] h
