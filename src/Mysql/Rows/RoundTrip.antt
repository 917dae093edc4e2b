-- ===== src/Mysql/Rows/RoundTrip.antt =====
-- A row that is inserted and then selected is read as it was written.
use terracost.Prelude.{ℕ, ◌-◌, String, ◌≡◌, refl, sym, ◌∙◌, Option, some, List, [], ◌∷◌, map}
use terracost.Errors.{Result, ok, >>=-eq-ok}
use terracost.Decimal.{Decimal, Numbers, IsExact}
use terracost.Dict.{Dict, lookup}
use terracost.Query.{Product, WithProduct}
use terracost.Mysql.Rows.{
  Cell, str, number, amount, DecimalType, price_type, DbProduct, DbPrice, product_entity,
  price_entity, db_product, db_price, product_insert_columns, price_insert_columns, product_columns,
  price_columns, product_params, price_params, scan_product, scan_price,
}

ok_value : {A : Type 0} (a b : A) → ok a ≡ ok b → a ≡ b
ok_value a b h = cc h

module _ {D : Type 0} (keep : DecimalType → D → D) where
  -- What a column holds of a parameter: `keep` is what one of a decimal type does of a decimal, and the
  -- only parameter of that kind is the price.
  abbrev pub kept : Cell D → Cell D
  kept (str s) = str s
  kept (number n) = number n
  kept (amount a) = amount (keep price_type a)

  -- The row that an INSERT stores under the ID that the database gives it.
  abbrev pub inserted : ℕ → List String → List (Cell D) → Dict (Cell D)
  inserted id (column ∷ columns) (param ∷ params) =
      (column, kept param) ∷ inserted id columns params
  inserted id _ _ = ("id", number id) ∷ []

module _ {D : Type 0} where
  -- What a SELECT of some columns gives of a row.
  abbrev pub selected : List String → Dict (Cell D) → List (Option (Cell D))
  selected columns row = map (λ c. lookup c row) columns

module _ {D : Type 0} (keep : DecimalType → D → D) (marshal : Option (Dict String) → Result String)
    (unmarshal : String → Option (Dict String)) where
  -- If the text of a product's attributes stands for them, the product that is selected from the row of
  -- a product is that product, with the row's ID.
  pub product_round_trip :
      (p : Product) (db : DbProduct) (id : ℕ)
      → unmarshal db.attributes ≡ p.attributes
      → db_product marshal p ≡ ok db
      → scan_product unmarshal
          (selected product_columns (inserted keep id product_insert_columns (product_params db)))
        ≡ some (record p { id = id })
  unfolding scan_product product_params product_entity db_product lookup
  product_round_trip p db id json h =
      let (t, e, q) = >>=-eq-ok (marshal p.attributes) _ h in rw json (rw (← ok_value _ _ q) refl)

-- `Below n q` says that `q` has at most `n` digits before the point.
module _ {D Q : Type 0} ⦃d : Decimal D⦄ ⦃n : Numbers Q⦄ (laws : IsExact D Q)
    (Below : ℕ → Q → Type 0) (keep : DecimalType → D → D)
    (num-keep : (t : DecimalType) (a : D)
      → laws.Fits t.places (laws.num a)
      → Below (t.digits - t.places) (laws.num a)
      → laws.num (keep t a) ≡ laws.num a)
    (marshal : Option (Dict String) → Result String)
    (unmarshal : String → Option (Dict String)) where
  -- If a column of the type DECIMAL keeps a number that has few enough digits before and after the
  -- point, the text of a price's attributes stands for them, its currency is written as it is read,
  -- and its value has at most 14 digits before the point and at most 10 after it, then the price that
  -- is selected from the row of a price is that price, with the row's ID and with a value that is the
  -- same number.
  pub price_round_trip :
      (parse_iso : String → Result String) (md5 : String → String) (pwp : WithProduct D)
      (db : DbPrice D) (id : ℕ)
      → unmarshal db.attributes ≡ pwp.price.attributes
      → parse_iso pwp.price.currency ≡ ok pwp.price.currency
      → laws.Fits 10 (laws.num pwp.price.value)
      → Below 14 (laws.num pwp.price.value)
      → db_price marshal parse_iso md5 pwp ≡ ok db
      → (value : D) × (scan_price unmarshal
            (selected price_columns (inserted keep id price_insert_columns (price_params db)))
          ≡ some (record pwp.price { id = id; value = value }))
        × (laws.num value ≡ laws.num pwp.price.value)
  unfolding scan_price price_params price_entity db_price lookup
  price_round_trip parse_iso md5 pwp db id json iso fits below h =
      let (t, e, q) = >>=-eq-ok (marshal pwp.price.attributes) _ h in
      let (c, e', q') = >>=-eq-ok (parse_iso pwp.price.currency) _ q in
      let currency : pwp.price.currency ≡ c = ok_value _ _ (sym iso ∙ e') in
      (
        keep price_type pwp.price.value,
        rw json (rw (← ok_value _ _ q') (rw (← currency) refl)),
        num-keep price_type pwp.price.value fits below,
      )
