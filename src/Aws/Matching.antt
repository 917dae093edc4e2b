-- ===== src/Aws/Matching.antt =====
-- What a product holds that a filter matches, and the product of one of several components.
use terracost.Prelude.{
  String, ◌≡◌, ◌⊎◌, inl, inr, Bool, true, false, ◌||◌, false≢true, some, List, [], ◌∷◌, ◌++◌, arith,
  eq_iff, if◌then◌else◌, Option-cases,
}
use terracost.Dict.{lookup}
use terracost.Query.{Product, ProductFilter, AttributeFilter, ComponentQuery}
use terracost.Catalog.{matches_product, matches_query, matches_any, matches_attributes}
use terracost.Cost.Resource.{entries}
use terracost.Aws.Filter.{attribute}
use terracost.Aws.Resources.{by_value}

or_true : (x y : Bool) → (x || y) ≡ true → (x ≡ true) ⊎ (y ≡ true)
or_true x y h = ground arith

module _ (regex_match : String → String → Bool) where
  -- A product that a filter matches has the filter's service and family.
  pub matches_product-service :
      (f : ProductFilter) (p : Product) (service family : String)
      → f.service ≡ some service
      → f.family ≡ some family
      → matches_product regex_match f p ≡ true
      → (p.service ≡ service) × (p.family ≡ family)
  matches_product-service f p service family s t h =
      ground (arith, eq_iff p.service service, eq_iff p.family family)

  module _ {D : Type 0} where
    -- A component that asks for products of the service and the family.
    abbrev pub AsksFor : String → String → ComponentQuery D → Type 0
    AsksFor service family q =
        (f : ProductFilter) × (q.product_filter ≡ some f)
        × (f.service ≡ some service)
        × (f.family ≡ some family)

    pub matches_query-AsksFor :
        (q : ComponentQuery D) (p : Product) (service family : String)
        → AsksFor service family q
        → matches_query regex_match q.product_filter p ≡ true
        → (p.service ≡ service) × (p.family ≡ family)
    matches_query-AsksFor q p service family (f, e, s, t) h =
        matches_product-service f p service family s t (rw e at h)

    pub matches_any_cons :
        (q : ComponentQuery D) (comps : List (ComponentQuery D)) (p : Product)
        → matches_any regex_match (q ∷ comps) p ≡ true
        → (matches_query regex_match q.product_filter p ≡ true)
          ⊎ (matches_any regex_match comps p ≡ true)
    matches_any_cons q comps p h =
        or_true (matches_query regex_match q.product_filter p) (matches_any regex_match comps p) h

    pub matches_any-when :
        (b : Bool) (q : ComponentQuery D) (p : Product)
        → matches_any regex_match (if b then q ∷ [] else []) p ≡ true
        → matches_query regex_match q.product_filter p ≡ true
    matches_any-when true q p h = elim (matches_any_cons q [] p h) [
      | inl e ↦ e
      | inr e ↦ absurd (false≢true e)
    ]
    matches_any-when false q p h = absurd (false≢true h)

    pub matches_any-append :
        (comps comps' : List (ComponentQuery D)) (p : Product)
        → matches_any regex_match (comps ++ comps') p ≡ true
        → (matches_any regex_match comps p ≡ true) ⊎ (matches_any regex_match comps' p ≡ true)
    matches_any-append [] comps' p h = inr h
    matches_any-append (q ∷ comps) comps' p h = elim (matches_any_cons q (comps ++ comps') p h) [
      | inl e ↦ inl (rw e)
      | inr e ↦ elim (matches_any-append comps comps' p e) [
        | inl e' ↦ inl (ground (arith, e'))
        | inr e' ↦ inr e'
      ]
    ]

  pub attribute-by_value :
      (k v : String) (fs : List AttributeFilter) (p : Product)
      → matches_attributes regex_match (by_value k v ∷ fs) p ≡ true
      → (attribute p k ≡ v) × (matches_attributes regex_match fs p ≡ true)
  attribute-by_value k v fs p h = elim (Option-cases (lookup k (entries p.attributes))) [
    | inl e ↦ ground arith
    | inr (s, e) ↦ ground (arith, eq_iff s v)
  ]

  pub matches_product-attributes :
      (f : ProductFilter) (p : Product)
      → matches_product regex_match f p ≡ true
      → matches_attributes regex_match f.attribute_filters p ≡ true
  matches_product-attributes f p h = ground arith
