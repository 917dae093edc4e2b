-- ===== src/Aws/Ingester/Attributes.antt =====
-- The attributes of the products and prices that are read from a row.
use terracost.Prelude.{
  String, ◌≡◌, refl, sym, ap, ◌∙◌, inl, inr, Bool, true, not, ◌&&◌, Option, none, some, [], ◌∷◌,
  arith, ◌==◌, eq_iff, if◌then◌else◌, Bool-cases,
}
use terracost.Errors.{Result, ok, err, wrap, ◌>>=◌}
use terracost.Dict.{Dict, lookup, lookup-insert}
use terracost.Query.{WithProduct}
use terracost.Cost.Resource.{entries}
use terracost.Aws.Region.{text_at}
use terracost.Aws.Region.Table.{every, every_sound}
use terracost.Aws.Ingester.{
  column_product_to_ingest, column_price_to_ingest, put_attribute, copy_columns, new_product,
  priced_row, new_price_with_product,
}

-- What a column gives: its text, if that is not empty.
abbrev pub given : String → Option String
given value = if value == "" then none else some value

abbrev is_not : String → String → String → Bool
is_not attr _ other = not (other == attr)

-- No two columns are stored under one attribute.
abbrev distinct : Dict String → Bool
distinct [] = true
distinct ((_, attr) ∷ cols) = every (is_not attr) cols && distinct cols

lookup-put_attribute :
    (k attr value : String) (m : Dict String)
    → lookup k (put_attribute attr value m)
      ≡ (if value == "" then lookup k m else if attr == k then some value else lookup k m)
lookup-put_attribute k attr value m = elim (Bool-cases (value == "")) [
  | inl e ↦ rw e
  | inr e ↦ rw e (lookup-insert attr k value m)
]

lookup-copy_columns_other :
    (k : String) (cols values m : Dict String)
    → every (is_not k) cols ≡ true
    → lookup k (copy_columns cols values m) ≡ lookup k m
unfolding copy_columns
lookup-copy_columns_other k [] values m h = refl
lookup-copy_columns_other k ((col, attr) ∷ cols) values m h =
    lookup-copy_columns_other k cols values (put_attribute attr (text_at col values) m)
      (ground arith)
    ∙ lookup-put_attribute k attr (text_at col values) m
    ∙ ground arith

lookup-copy_columns :
    (col k : String) (cols values m : Dict String)
    → distinct cols ≡ true
    → lookup col cols ≡ some k
    → lookup k m ≡ none
    → lookup k (copy_columns cols values m) ≡ given (text_at col values)
unfolding copy_columns lookup
lookup-copy_columns col k [] values m h e f = cc
lookup-copy_columns col k ((j, attr) ∷ cols) values m h e f = elim (Bool-cases (j == col)) [
  | inl q ↦
      lookup-copy_columns_other k cols values (put_attribute attr (text_at j values) m)
        (ground (arith, eq_iff attr k))
      ∙ lookup-put_attribute k attr (text_at j values) m
      ∙ rw ((eq_iff j col).0 q) (ground (arith, eq_iff attr k))
  | inr q ↦
      let rest : lookup col cols ≡ some k = rw q at e in
      let other = every_sound (is_not attr) cols col k (ground arith) rest in
      lookup-copy_columns col k cols values (put_attribute attr (text_at j values) m) (ground arith)
        rest
        (lookup-put_attribute k attr (text_at j values) m
          ∙ ground (arith, eq_iff attr k, eq_iff k attr))
]

-- Under the attribute of every column of `columnProductToIngest` the product has the column's text, or
-- nothing where the text is empty.
pub new_product-attribute :
    (values : Dict String) (col attr : String)
    → lookup col column_product_to_ingest ≡ some attr
    → lookup attr (entries (new_product values).attributes) ≡ given (text_at col values)
unfolding new_product
new_product-attribute values col attr e =
    lookup-copy_columns col attr column_product_to_ingest values [] refl e (unfold lookup in refl)

-- If a row becomes a price with a product, then the value is the number that is parsed from the row's
-- price, the product is the row's, and under the attribute of every column of `columnPriceToIngest` the
-- price has the column's text, or nothing where the text is empty.
pub new_price_with_product-ok :
    {D : Type 0} (parse : String → Result D) (values : Dict String) (pp : WithProduct D)
    (col attr : String)
    → new_price_with_product parse values ≡ ok pp
    → lookup col column_price_to_ingest ≡ some attr
    → (parse (text_at "PricePerUnit" values) ≡ ok pp.price.value)
      × (pp.product ≡ new_product values)
      × (lookup attr (entries pp.price.attributes) ≡ given (text_at col values))
unfolding new_price_with_product
new_price_with_product-ok {D = D} parse values pp col attr h e =
    go (parse (text_at "PricePerUnit" values)) h
  where
    go :
        (r : Result D)
        → (wrap "failed to parse PricePerUnit: %w" [] r >>= λ v. ok (priced_row values v)) ≡ ok pp
        → (r ≡ ok pp.price.value)
          × (pp.product ≡ new_product values)
          × (lookup attr (entries pp.price.attributes) ≡ given (text_at col values))
    go (ok v) h =
        let q : priced_row values v ≡ pp = cc h in
        (
          ap (λ (x : WithProduct D). ok x.price.value) q,
          ap (λ (x : WithProduct D). x.product) (sym q),
          ap (λ (x : WithProduct D). lookup attr (entries x.price.attributes)) (sym q)
              ∙ lookup-copy_columns col attr column_price_to_ingest values [] refl e
                  (unfold lookup in refl),
        )
    go (err e) h = cc
