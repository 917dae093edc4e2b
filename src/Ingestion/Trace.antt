-- ===== src/Ingestion/Trace.antt =====
-- What the calls of a run amount to.
use terracost.Prelude.{ℕ, String, ◌≡◌, refl, ap, Option, none, some, List, [], ◌∷◌, ◌++◌}
use terracost.Dict.{Dict, lookup, keys}
use terracost.Query.{WithProduct}
use terracost.Ingestion.{Call, upsert_product, upsert_price, with_id}

module _ {D : Type 0} where
  -- The prices and the products that were stored, the latest first.
  abbrev pub prices_of : List (Call D) → List (WithProduct D)
  prices_of [] = []
  prices_of (upsert_price pp ∷ calls) = pp ∷ prices_of calls
  prices_of (upsert_product _ ∷ calls) = prices_of calls

  abbrev pub skus_of : List (Call D) → List String
  skus_of [] = []
  skus_of (upsert_price _ ∷ calls) = skus_of calls
  skus_of (upsert_product p ∷ calls) = p.sku ∷ skus_of calls

  abbrev pub item_skus : List (WithProduct D) → List String
  item_skus [] = []
  item_skus (pp ∷ items) = pp.product.sku ∷ item_skus items

  -- The items with the product IDs that `ids` has for their SKUs, the latest first, before what was
  -- stored already; none if `ids` lacks one of them.
  abbrev pub stored :
      Dict ℕ → List (WithProduct D) → List (WithProduct D) → Option (List (WithProduct D))
  stored ids [] acc = some acc
  stored ids (pp ∷ items) acc = elim (lookup pp.product.sku ids) [
    | some id ↦ stored ids items (with_id id pp ∷ acc)
    | none ↦ none
  ]

-- The later map has every entry of the earlier.
abbrev pub Extends : Dict ℕ → Dict ℕ → Type 0
Extends old new = (k : String) (id : ℕ) → lookup k old ≡ some id → lookup k new ≡ some id

pub keys-append {ℓ} :
    {V : Type ℓ} (m : Dict V) (k : String) (v : V) → keys (m ++ (k, v) ∷ []) ≡ keys m ++ k ∷ []
keys-append [] k v = refl
keys-append ((j, w) ∷ m) k v = rw (keys-append m k v)

pub stored_round :
    {D : Type 0} (ids : Dict ℕ) (items : List (WithProduct D)) (pp : WithProduct D) (id : ℕ)
    {new old : List (WithProduct D)}
    → lookup pp.product.sku ids ≡ some id
    → new ≡ old
    → stored ids items (with_id id pp ∷ new) ≡ stored ids (pp ∷ items) old
stored_round ids items pp id h e =
    rw (h, stored) (ap (λ (l : List _). stored ids items (with_id id pp ∷ l)) e)
