-- ===== src/Ingestion/Rounds.antt =====
-- One round of the ingestion loop that does not fail.
use terracost.Prelude.{ℕ, ◌≡◌, refl, ◌⊎◌, inl, inr, Option, none, some, List, [], ◌∷◌, Option-cases}
use terracost.Errors.{wrapf, Error, Result, ok, err}
use terracost.Dict.{Dict, lookup, insert}
use terracost.Query.{WithProduct}
use terracost.Ingestion.{put_price, Call, upsert_product, upsert_price, Store, with_id, ingest_loop}

not_none : {o : Option Error} (e : Error) → o ≡ some e → o ≡ none → ⊥
not_none e p q = cc (p, q)

module _ {D : Type 0} (be : Store D) where
  -- How an item that is stored without an error got its product ID: it was known, or the product was
  -- stored just now.
  abbrev pub IsIdentified :
      WithProduct D → List (Call D) → Dict ℕ → ℕ → List (Call D) → Dict ℕ → Type 0
  IsIdentified pp calls ids id calls' ids' =
      ((lookup pp.product.sku ids ≡ some id) × (calls' ≡ calls) × (ids' ≡ ids))
      ⊎ ((lookup pp.product.sku ids ≡ none)
          × (be.product_id calls pp.product ≡ ok id)
          × (calls' ≡ upsert_product pp.product ∷ calls)
          × (ids' ≡ insert pp.product.sku id ids))

  -- One round of the loop that does not fail.
  pub record Round (pp : WithProduct D) (items : List (WithProduct D)) (e : Option Error)
      (calls : List (Call D)) (ids : Dict ℕ) : Type 0 where
    pub id : ℕ
    pub calls' : List (Call D)
    pub ids' : Dict ℕ
    pub identified : IsIdentified pp calls ids id calls' ids'
    pub goes_on :
        ingest_loop be (pp ∷ items) e calls ids
        ≡ ingest_loop be items e (upsert_price (with_id id pp) ∷ calls') ids'

  module _ (pp : WithProduct D) (items : List (WithProduct D)) (e : Option Error)
      (calls : List (Call D)) (ids : Dict ℕ)
      (h : (ingest_loop be (pp ∷ items) e calls ids).error ≡ none) where
    known-Round :
        (id : ℕ) (r : Result ℕ)
        → lookup pp.product.sku ids ≡ some id
        → be.price_id calls (with_id id pp) ≡ r
        → Round pp items e calls ids
    unfolding ingest_loop
    known-Round id (ok _) p q = record {
      id = id;
      calls' = calls;
      ids' = ids;
      identified = inl (p, refl, refl);
      goes_on = rw (p, ingest_loop) (rw (q, put_price));
    }
    known-Round id (err x) p q = absurd (
        not_none (wrapf "failed to upsert price (SKU=%q): %w" (pp.product.sku ∷ []) x)
          (rw (p, ingest_loop) (rw (q, put_price))) h)

    new-Round :
        (id : ℕ) (r : Result ℕ)
        → lookup pp.product.sku ids ≡ none
        → be.product_id calls pp.product ≡ ok id
        → be.price_id (upsert_product pp.product ∷ calls) (with_id id pp) ≡ r
        → Round pp items e calls ids
    unfolding ingest_loop
    new-Round id (ok _) p q r = record {
      id = id;
      calls' = upsert_product pp.product ∷ calls;
      ids' = insert pp.product.sku id ids;
      identified = inr (p, q, refl, refl);
      goes_on = rw (p, ingest_loop) (rw q (rw (r, put_price)));
    }
    new-Round id (err x) p q r = absurd (
        not_none (wrapf "failed to upsert price (SKU=%q): %w" (pp.product.sku ∷ []) x)
          (rw (p, ingest_loop) (rw q (rw (r, put_price)))) h)

    unknown-Round :
        (r : Result ℕ)
        → lookup pp.product.sku ids ≡ none
        → be.product_id calls pp.product ≡ r
        → Round pp items e calls ids
    unfolding ingest_loop
    unknown-Round (ok id) p q =
        new-Round id (be.price_id (upsert_product pp.product ∷ calls) (with_id id pp)) p q refl
    unknown-Round (err x) p q = absurd (
        not_none (wrapf "failed to upsert product (SKU=%q): %w" (pp.product.sku ∷ []) x)
          (rw (p, ingest_loop) (rw q)) h)

    pub round : Round pp items e calls ids
    round = elim (Option-cases (lookup pp.product.sku ids)) [
      | inl p ↦ unknown-Round (be.product_id calls pp.product) p refl
      | inr (id, p) ↦ known-Round id (be.price_id calls (with_id id pp)) p refl
    ]
