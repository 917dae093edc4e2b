-- ===== src/Price/Addition.antt =====
-- When two prices can be added, and what the sum holds.
use terracost.Prelude.{
  String, ◌≡◌, refl, ap, ◌∙◌, inl, inr, Option, none, some, [], ◌∷◌, arith, ◌==◌, eq_iff,
  if◌then◌else◌, Bool-cases, Option-cases,
}
use terracost.Errors.{done}
use terracost.Decimal.{Decimal, Numbers, IsExact}
use terracost.Dict.{Dict, insert, lookup, lookup-insert, IsMap}
use terracost.Query.{Price}
use terracost.Cost.Resource.{entries}
use terracost.Price.{add_price, overwrite, overwrite_nil}

-- The new value of a key, or else the old one.
abbrev pub newer {ℓ} : {V : Type ℓ} → Option V → Option V → Option V
newer (some v) old = some v
newer none old = old

module _ {ℓ} {V : Type ℓ} where
  newer_step :
      (k j : String) (v : V) (m : Dict V) (later : Option V)
      → (k ≡ j → later ≡ none)
      → newer later (if k == j then some v else lookup j m)
        ≡ newer (if k == j then some v else later) (lookup j m)
  newer_step k j v m later fresh = elim (Bool-cases (k == j)) [
    | inl e ↦ rw e (rw (fresh ((eq_iff k j).0 e)))
    | inr e ↦ rw e
  ]

  pub lookup-overwrite :
      (j : String) (m new : Dict V)
      → IsMap new
      → lookup j (overwrite m new) ≡ newer (lookup j new) (lookup j m)
  unfolding overwrite lookup
  lookup-overwrite j m [] h = refl
  lookup-overwrite j m ((k, v) ∷ new) (fresh, h) =
      lookup-overwrite j (insert k v m) new h
      ∙ rw lookup-insert (newer_step k j v m (lookup j new) (λ e. rw (← e) fresh))

  lookup-overwrite_nil :
      (j : String) (old new res : Option (Dict V))
      → IsMap (entries new)
      → overwrite_nil old new ≡ some res
      → lookup j (entries res) ≡ newer (lookup j (entries new)) (lookup j (entries old))
  unfolding lookup
  lookup-overwrite_nil j old none res h e = let q : old ≡ res = cc e in rw (← q)
  lookup-overwrite_nil j old (some []) res h e = let q : old ≡ res = cc e in rw (← q)
  lookup-overwrite_nil j none (some (x ∷ new)) res h e = cc
  lookup-overwrite_nil j (some m) (some ((k, v) ∷ new)) res h e =
      let q : some (overwrite m ((k, v) ∷ new)) ≡ res = cc e in
      rw (← q) (lookup-overwrite j m ((k, v) ∷ new) h)

-- A sum that is returned.
add_price_parts :
    {D : Type 0} ⦃d : Decimal D⦄ (p pr r : Price D)
    → add_price p pr ≡ done r
    → (p.unit ≡ pr.unit)
      × (p.currency ≡ pr.currency)
      × (overwrite_nil p.attributes pr.attributes ≡ some r.attributes)
      × (r ≡ record p { value = d.add p.value pr.value; attributes = r.attributes })
unfolding add_price
add_price_parts p pr r e = elim (Option-cases (overwrite_nil p.attributes pr.attributes)) [
  | inl q ↦ ground (arith, eq_iff p.unit pr.unit, eq_iff p.currency pr.currency)
  | inr (m, q) ↦ ground (arith, eq_iff p.unit pr.unit, eq_iff p.currency pr.currency)
]

module _ {D Q : Type 0} ⦃d : Decimal D⦄ ⦃n : Numbers Q⦄ (laws : IsExact D Q) where
  open laws use {num, num-add}

  -- If the second price's attributes have distinct keys and `Add` returns no error, then the units and
  -- the currencies are the same, and the sum has the unit, the currency and the ID of the first, the
  -- sum of the values, and under every key the second price's attribute, or else the first's.
  pub add_price-done :
      (p pr r : Price D)
      → IsMap (entries pr.attributes)
      → add_price p pr ≡ done r
      → (r.id ≡ p.id)
        × (p.unit ≡ pr.unit)
        × (r.unit ≡ p.unit)
        × (p.currency ≡ pr.currency)
        × (r.currency ≡ p.currency)
        × (num r.value ≡ n.plus (num p.value) (num pr.value))
        × ((k : String)
            → lookup k (entries r.attributes)
              ≡ newer (lookup k (entries pr.attributes)) (lookup k (entries p.attributes)))
  unfolding add_price
  add_price-done p pr r h e =
      let (unit, currency, attributes, same) = add_price_parts p pr r e in
      (
        ap (λ (x : Price D). x.id) same,
        unit,
        ap (λ (x : Price D). x.unit) same,
        currency,
        ap (λ (x : Price D). x.currency) same,
        ap (λ (x : Price D). num x.value) same ∙ num-add p.value pr.value,
        λ k. lookup-overwrite_nil k p.attributes pr.attributes r.attributes h attributes,
      )
