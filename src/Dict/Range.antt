-- ===== src/Dict/Range.antt =====
-- The orders in which `range` may visit a map.
use terracost.Prelude.{String, [], ◌∷◌}
use terracost.Dict.Defs.{Dict, AllValues}

-- `Ranges R m m'`: the second lists the entries of the first in some order, with values related by `R`.
pub data Ranges {ℓ κ} {V : Type ℓ} (R : V → V → Type κ) : Dict V → Dict V → Type (ℓ ⊔ κ) where
  nil : Ranges R [] []
  cons :
      (k : String) {v w : V} {m m' : Dict V}
      → R v w
      → Ranges R m m'
      → Ranges R ((k, v) ∷ m) ((k, w) ∷ m')
  swap : (x y : String × V) (m : Dict V) → Ranges R (x ∷ y ∷ m) (y ∷ x ∷ m)
  trans : {m₁ m₂ m₃ : Dict V} → Ranges R m₁ m₂ → Ranges R m₂ m₃ → Ranges R m₁ m₃

module _ {ℓ κ} {V : Type ℓ} {R : V → V → Type κ} where
  pub Ranges-refl : ((v : V) → R v v) → (m : Dict V) → Ranges R m m
  Ranges-refl r [] = nil
  Ranges-refl r ((k, v) ∷ m) = cons k (r v) (Ranges-refl r m)

  pub Ranges-AllValues {μ} :
      (P : V → Type μ)
      → ((v w : V) → R v w → P v → P w)
      → {m m' : Dict V} → Ranges R m m'
      → AllValues P m
      → AllValues P m'
  Ranges-AllValues P keep nil h = h
  Ranges-AllValues P keep (cons k {v} {w} r rs) (p, h) =
      (keep v w r p, Ranges-AllValues P keep rs h)
  Ranges-AllValues P keep (swap x y m) (p, (q, h)) = (q, (p, h))
  Ranges-AllValues P keep (trans r s) h = Ranges-AllValues P keep s (Ranges-AllValues P keep r h)

  pub Ranges-symm : ((v w : V) → R v w → R w v) → {m m' : Dict V} → Ranges R m m' → Ranges R m' m
  Ranges-symm flip nil = nil
  Ranges-symm flip (cons k {v} {w} r rs) = cons k (flip v w r) (Ranges-symm flip rs)
  Ranges-symm flip (swap x y m) = swap y x m
  Ranges-symm flip (trans r s) = trans (Ranges-symm flip s) (Ranges-symm flip r)

  -- What holds of all values may be used at each pair.
  pub Ranges-with {μ} :
      (P : V → Type μ)
      → ((v w : V) → R v w → P v → P w)
      → {m m' : Dict V} → Ranges R m m'
      → AllValues P m
      → Ranges (λ v w. R v w × P v × P w) m m'
  Ranges-with P keep nil h = nil
  Ranges-with P keep (cons k {v} {w} r rs) (p, h) =
      cons k (r, p, keep v w r p) (Ranges-with P keep rs h)
  Ranges-with P keep (swap x y m) h = swap x y m
  Ranges-with P keep (trans r s) h =
      trans (Ranges-with P keep r h) (Ranges-with P keep s (Ranges-AllValues P keep r h))
