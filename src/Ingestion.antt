-- ===== src/Ingestion.antt =====
-- ingestion.go: `IngestPricing`. The channel of the ingester is the list of what it sends; the backend
-- answers each call by what was called before it, which covers every deterministic store.
pub mod Trace
pub mod Rounds
pub mod Stored
pub mod Tests
use terracost.Prelude.{
  ℕ, zero, suc, ◌+◌, ◌-◌, ◌*◌, ◌/◌, ◌%◌, ◌≤◌, ◌<◌, String, ◌≡◌, refl, sym, ap, ◌∙◌, subst, ◌≢◌, ◌↔◌,
  ◌⊎◌, inl, inr, Bool, true, false, not, ◌&&◌, ◌||◌, false≢true, Option, none, some, List, [], ◌∷◌,
  ◌++◌, map, arith, ◌==◌, eq_iff, eq_refl, ltb, leb, eqb, if◌then◌else◌, Bool-cases, Option-cases,
  is_some, length, length-append, All, All-append, List-cases,
}
use terracost.Errors.{Error, Result, ok, err, wrapf}
use terracost.Dict.{Dict, lookup, insert}
use terracost.Query.{Product, WithProduct}

-- A call of the backend.
pub data Call (D : Type 0) : Type 0 where
  upsert_product : Product → Call D
  upsert_price : WithProduct D → Call D

-- `Products().Upsert` and `Prices().Upsert`, given the calls made so far, the latest first.
pub record Store (D : Type 0) : Type 0 where
  pub product_id : List (Call D) → Product → Result ℕ
  pub price_id : List (Call D) → WithProduct D → Result ℕ

-- What a run leaves: the error that is returned, the calls made (latest first) and `skuProductID`.
pub record Outcome (D : Type 0) : Type 0 where
  pub error : Option Error
  pub calls : List (Call D)
  pub ids : Dict ℕ

module _ {D : Type 0} where
  abbrev pub with_id : ℕ → WithProduct D → WithProduct D
  with_id id pp = record pp { product = record pp.product { id = id } }

  abbrev pub outcome : Option Error → List (Call D) → Dict ℕ → Outcome D
  outcome e calls ids = record { error = e; calls = calls; ids = ids }

module _ {D : Type 0} (be : Store D) where
  -- `if _, err := be.Prices().Upsert(ctx, pp); err != nil` and the calls after it
  abbrev pub put_price :
      WithProduct D → List (Call D) → Dict ℕ → (List (Call D) → Outcome D) → Outcome D
  put_price pp calls ids rest = elim (be.price_id calls pp) [
    | ok _ ↦ rest (upsert_price pp ∷ calls)
    | err e ↦
        outcome (some (wrapf "failed to upsert price (SKU=%q): %w" (pp.product.sku ∷ []) e))
          (upsert_price pp ∷ calls) ids
  ]

  -- the loop over the channel
  unfoldable pub ingest_loop :
      List (WithProduct D) → Option Error → List (Call D) → Dict ℕ → Outcome D
  ingest_loop [] ingester_error calls ids = outcome ingester_error calls ids
  ingest_loop (pp ∷ items) ingester_error calls ids = elim (lookup pp.product.sku ids) [
    | some id ↦
        put_price (with_id id pp) calls ids λ calls. ingest_loop items ingester_error calls ids
    | none ↦ elim (be.product_id calls pp.product) [
      | err e ↦
          outcome (some (wrapf "failed to upsert product (SKU=%q): %w" (pp.product.sku ∷ []) e))
            (upsert_product pp.product ∷ calls) ids
      | ok id ↦
          let ids' = insert pp.product.sku id ids in
          put_price (with_id id pp) (upsert_product pp.product ∷ calls) ids'
            λ calls. ingest_loop items ingester_error calls ids'
    ]
  ]

  -- `IngestPricing`, for the items that the ingester sends and the error that its `Err` then returns
  unfoldable pub ingest_pricing : List (WithProduct D) → Option Error → Outcome D
  unfolding ingest_loop
  ingest_pricing items ingester_error =
      ingest_loop items
        (elim ingester_error [
          | none ↦ none
          | some e ↦ some (wrapf "unexpected ingester error: %w" [] e)
        ])
        [] []
