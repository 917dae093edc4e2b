-- ===== src/Catalog.antt =====
-- What `Filter` of the two repositories promises, as the comments on product.Repository, product.Filter
-- and the clauses of mysql/filters.go have it: the products whose columns equal the filter's texts and
-- whose attributes equal its values, or match its regular expressions.
use terracost.Prelude.{
  String, Bool, true, false, ◌&&◌, ◌||◌, Option, none, some, List, [], ◌∷◌, ◌==◌,
}
use terracost.Dict.{lookup}
use terracost.Query.{AttributeFilter, ProductFilter, Product, ComponentQuery}
use terracost.Cost.Resource.{entries}

abbrev equals : Option String → String → Bool
equals none s = true
equals (some t) s = s == t

module _ (regex_match : String → String → Bool) where
  abbrev matches_attribute : Option String → Option String → Option String → Bool
  matches_attribute (some value) regex none = false
  matches_attribute (some value) regex (some s) = s == value
  matches_attribute none (some regex) none = false
  matches_attribute none (some regex) (some s) = regex_match regex s
  matches_attribute none none s = true

  abbrev pub matches_attributes : List AttributeFilter → Product → Bool
  matches_attributes [] p = true
  matches_attributes (f ∷ fs) p =
      matches_attribute f.value f.value_regex (lookup f.key (entries p.attributes))
      && matches_attributes fs p

  abbrev pub matches_product : ProductFilter → Product → Bool
  matches_product f p =
      equals f.provider p.provider
      && equals f.sku p.sku
      && equals f.service p.service
      && equals f.family p.family
      && equals f.location p.location
      && matches_attributes f.attribute_filters p

  abbrev pub matches_query : Option ProductFilter → Product → Bool
  matches_query none p = true
  matches_query (some f) p = matches_product f p

  -- The filter of one of the components matches the product.
  abbrev pub matches_any : {D : Type 0} → List (ComponentQuery D) → Product → Bool
  matches_any [] p = false
  matches_any (q ∷ comps) p = matches_query q.product_filter p || matches_any comps p
