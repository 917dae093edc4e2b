-- ===== src/Price/Hash.antt =====
-- price/price.go: `GenerateHash`. `md5` is the text of the MD5 sum of a text.
use terracost.Prelude.{String, ◌∷◌, map}
use terracost.Dict.{keys}
use terracost.Query.{Price}
use terracost.Cost.Resource.{entries}
use terracost.Cost.Plan.{sort_strings}
use terracost.Aws.Region.{text_at}
use terracost.Mysql.Filters.{join}

-- the text that is hashed: the unit, the currency and the attributes in the order of their keys
unfoldable pub hashed_text : {D : Type 0} → Price D → String
unfolding join sort_strings
hashed_text p =
    let attributes = entries p.attributes in
    join "-"
      (p.unit ∷ p.currency ∷ map (λ k. text_at k attributes) (sort_strings (keys attributes)))

-- `GenerateHash`
unfoldable pub generate_hash : {D : Type 0} → (String → String) → Price D → String
unfolding hashed_text
generate_hash md5 p = md5 (hashed_text p)
