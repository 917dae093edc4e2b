-- ===== src/Ingestion/Stored.antt =====
-- What a run of `IngestPricing` without an error has stored.
use terracost.Prelude.{
  ℕ, String, ◌≡◌, refl, sym, ap, ◌∙◌, subst, ◌⊎◌, inl, inr, Option, none, some, List, [], ◌∷◌,
  arith, ◌==◌, ◌||◌, true, eq_iff, Bool-cases, All, mem, is_some,
}
use mathlib.Core.List.{reverse, reverse-append}
use terracost.Errors.{wrapf, Error, ok}
use terracost.Dict.{
  All-of_lookup, mem-keys-insert, is_some-lookup, Dict, lookup, insert, lookup-insert,
  lookup-insert_self, keys, IsMap, insert-IsMap, insert-eq-append,
}
use terracost.Query.{Product, WithProduct}
use terracost.Ingestion.{Call, upsert_price, Store, Outcome, with_id, ingest_loop, ingest_pricing}
use terracost.Ingestion.Trace.{
  prices_of, skus_of, item_skus, stored, Extends, keys-append, stored_round,
}
use terracost.Ingestion.Rounds.{IsIdentified, Round, round}

module _ {D : Type 0} (be : Store D) where
  -- The ID is an answer of the backend to a product with this SKU.
  abbrev pub IsAnswer : String → ℕ → Type 0
  IsAnswer sku id =
      (before : List (Call D)) × (p : Product) × (p.sku ≡ sku) × (be.product_id before p ≡ ok id)

  -- What a run without an error has stored.
  record Ran (items : List (WithProduct D)) (e : Option Error) (calls : List (Call D))
      (ids : Dict ℕ) : Type 0 where
    extends : Extends ids (ingest_loop be items e calls ids).ids
    prices :
        stored (ingest_loop be items e calls ids).ids items (prices_of calls)
        ≡ some (prices_of (ingest_loop be items e calls ids).calls)
    products :
        skus_of (ingest_loop be items e calls ids).calls
        ≡ reverse (keys (ingest_loop be items e calls ids).ids)
    is_map : IsMap (ingest_loop be items e calls ids).ids
    known :
        (k : String)
        → mem k (keys (ingest_loop be items e calls ids).ids)
          ≡ (mem k (item_skus items) || mem k (keys ids))
    answered :
        (k : String) (id : ℕ)
        → lookup k (ingest_loop be items e calls ids).ids ≡ some id
        → (lookup k ids ≡ some id) ⊎ IsAnswer k id

  Ran-Round :
      (pp : WithProduct D) (items : List (WithProduct D)) (e : Option Error) (calls : List (Call D))
      (ids : Dict ℕ) (r : Round be pp items e calls ids)
      → Extends ids r.ids'
      → lookup pp.product.sku r.ids' ≡ some r.id
      → prices_of r.calls' ≡ prices_of calls
      → ((k : String) → mem k (keys r.ids') ≡ (pp.product.sku == k || mem k (keys ids)))
      → ((k : String) (v : ℕ) → lookup k r.ids' ≡ some v → (lookup k ids ≡ some v) ⊎ IsAnswer k v)
      → Ran items e (upsert_price (with_id r.id pp) ∷ r.calls') r.ids'
      → Ran (pp ∷ items) e calls ids
  Ran-Round pp items e calls ids r ext known same all_keys answers rest = record {
    extends = λ k id p. rw r.goes_on (rest.extends k id (ext k id p));
    prices =
        subst
          (λ (o : Outcome D).
            stored o.ids (pp ∷ items) (prices_of calls) ≡ some (prices_of o.calls))
          (sym r.goes_on)
          (sym (
              stored_round
                (ingest_loop be items e (upsert_price (with_id r.id pp) ∷ r.calls') r.ids').ids
                items pp r.id (rest.extends pp.product.sku r.id known) same)
            ∙ rest.prices);
    products = rw r.goes_on rest.products;
    is_map = rw r.goes_on rest.is_map;
    known = λ k. rw r.goes_on (ground (arith, rest.known k, all_keys k));
    answered = λ k id p. elim (rest.answered k id (rw r.goes_on at p)) [
      | inl q ↦ answers k id q
      | inr a ↦ inr a
    ];
  }

  -- What the loop may rely on after a round.
  abbrev IsReady : WithProduct D → List (Call D) → Dict ℕ → ℕ → List (Call D) → Dict ℕ → Type 0
  IsReady pp calls ids id calls' ids' =
      IsMap ids'
      × (skus_of calls' ≡ reverse (keys ids'))
      × Extends ids ids'
      × (lookup pp.product.sku ids' ≡ some id)
      × (prices_of calls' ≡ prices_of calls)
      × ((k : String) → mem k (keys ids') ≡ (pp.product.sku == k || mem k (keys ids)))
      × ((k : String) (v : ℕ) → lookup k ids' ≡ some v → (lookup k ids ≡ some v) ⊎ IsAnswer k v)

  new_keys :
      (sku : String) (id : ℕ) (ids : Dict ℕ)
      → lookup sku ids ≡ none
      → sku ∷ reverse (keys ids) ≡ reverse (keys (insert sku id ids))
  new_keys sku id ids p = rw (insert-eq-append sku id ids p, keys-append ids sku id, reverse-append)

  new-Extends :
      (sku : String) (id : ℕ) (ids : Dict ℕ)
      → lookup sku ids ≡ none
      → Extends ids (insert sku id ids)
  new-Extends sku id ids p k v q = rw lookup-insert (ground (arith, eq_iff sku k))

  new-IsAnswer :
      (sku k : String) (id v : ℕ) (ids : Dict ℕ)
      → IsAnswer sku id
      → lookup k (insert sku id ids) ≡ some v
      → (lookup k ids ≡ some v) ⊎ IsAnswer k v
  new-IsAnswer sku k id v ids (before, p, e, a) h = elim (Bool-cases (sku == k)) [
    | inl q ↦ inr (before, p, e ∙ (eq_iff sku k).0 q, ground (arith, lookup-insert sku k id ids))
    | inr q ↦ inl (ground (arith, lookup-insert sku k id ids))
  ]

  known_key :
      (sku k : String) (id : ℕ) (ids : Dict ℕ)
      → lookup sku ids ≡ some id
      → mem k (keys ids) ≡ (sku == k || mem k (keys ids))
  known_key sku k id ids p = elim (Bool-cases (sku == k)) [
    | inl q ↦
        let known : is_some (lookup k ids) ≡ true = rw (← (eq_iff sku k).0 q, p) in
        ground (arith, q, known, is_some-lookup k ids)
    | inr q ↦ rw q
  ]

  IsIdentified-IsReady :
      (pp : WithProduct D) (calls calls' : List (Call D)) (ids ids' : Dict ℕ) (id : ℕ)
      → IsMap ids
      → skus_of calls ≡ reverse (keys ids)
      → IsIdentified be pp calls ids id calls' ids'
      → IsReady pp calls ids id calls' ids'
  IsIdentified-IsReady pp calls calls' ids ids' id m s (inl (p, q, r)) =
      rw (q, r)
        (m, s, λ k v e. e, p, refl, λ k. known_key pp.product.sku k id ids p, λ k v e. inl e)
  IsIdentified-IsReady pp calls calls' ids ids' id m s (inr (p, a, q, r)) =
      rw (q, r)
        (
          insert-IsMap pp.product.sku id ids m,
          ap (◌∷◌ pp.product.sku) s ∙ new_keys pp.product.sku id ids p,
          new-Extends pp.product.sku id ids p,
          lookup-insert_self pp.product.sku id ids,
          refl,
          λ k. mem-keys-insert k pp.product.sku id ids,
          λ k v e. new-IsAnswer pp.product.sku k id v ids (calls, pp.product, refl, a) e,
        )

  ingest_loop-Ran :
      (items : List (WithProduct D)) (e : Option Error) (calls : List (Call D)) (ids : Dict ℕ)
      → IsMap ids
      → skus_of calls ≡ reverse (keys ids)
      → (ingest_loop be items e calls ids).error ≡ none
      → Ran items e calls ids
  unfolding ingest_loop
  ingest_loop-Ran [] e calls ids m s h = record {
    extends = λ k id p. p;
    prices = refl;
    products = s;
    is_map = m;
    known = λ k. refl;
    answered = λ k id p. inl p;
  }
  ingest_loop-Ran (pp ∷ items) e calls ids m s h =
      let r = round be pp items e calls ids h in
      let (m', s', ext, known, same, all_keys, answers) =
        IsIdentified-IsReady pp calls r.calls' ids r.ids' r.id m s r.identified in
      Ran-Round pp items e calls ids r ext known same all_keys answers (
        ingest_loop-Ran items e (upsert_price (with_id r.id pp) ∷ r.calls') r.ids' m' s'
          (rw r.goes_on at h))

  empty_answer : {A : Type 0} (sku : String) (id : ℕ) → (lookup sku [] ≡ some id) ⊎ A → A
  unfolding lookup
  empty_answer sku id (inl p) = cc p
  empty_answer sku id (inr a) = a

  -- If `IngestPricing` returns no error, then `skuProductID` ends with an ID for the SKU of every item
  -- and for no other SKU, and one for each; the prices stored are the items in their order, each with
  -- the product ID that it has for the item's SKU; that ID is what the backend answered to a product
  -- with this SKU; and the products stored are one for each SKU, in the order of `skuProductID`.
  pub ingest_pricing-stores :
      (items : List (WithProduct D)) (e : Option Error)
      → (ingest_pricing be items e).error ≡ none
      → let out = ingest_pricing be items e in
        (stored out.ids items [] ≡ some (prices_of out.calls))
        × (skus_of out.calls ≡ reverse (keys out.ids))
        × IsMap out.ids
        × ((sku : String) → mem sku (keys out.ids) ≡ mem sku (item_skus items))
        × All (λ e. IsAnswer e.0 e.1) out.ids
  unfolding ingest_pricing
  ingest_pricing-stores items none h =
      let r = ingest_loop-Ran items none [] [] tt refl h in
      (
        r.prices,
        r.products,
        r.is_map,
        λ sku. ground (arith, r.known sku),
        All-of_lookup IsAnswer _ r.is_map λ sku id p. empty_answer sku id (r.answered sku id p),
      )
  ingest_pricing-stores items (some x) h =
      let r =
        ingest_loop-Ran items (some (wrapf "unexpected ingester error: %w" [] x)) [] [] tt refl h in
      (
        r.prices,
        r.products,
        r.is_map,
        λ sku. ground (arith, r.known sku),
        All-of_lookup IsAnswer _ r.is_map λ sku id p. empty_answer sku id (r.answered sku id p),
      )
