-- ===== src/Decimal/Sums.antt =====
-- Sums over the values of a map, in any order.
use terracost.Prelude.{
  String, ◌≡◌, refl, sym, ap, ◌∙◌, inl, inr, Option, none, some, [], ◌∷◌, ◌==◌, Bool-cases,
}
use terracost.Dict.{lookup, insert, Dict, Ranges, nil, cons, swap, trans}
use terracost.Decimal.Defs.{Numbers}

module _ {Q : Type 0} ⦃n : Numbers Q⦄ where
  open n use {plus, plus_comm, plus_assoc}

  pub plus_left_comm : (a b c : Q) → plus a (plus b c) ≡ plus b (plus a c)
  plus_left_comm a b c = cc (plus_assoc a b c, plus_assoc b a c, plus_comm a b)

module _ {ℓ} {V : Type ℓ} {Q : Type 0} ⦃n : Numbers Q⦄ where
  open n use {nought, plus}

  abbrev pub sum_by : (V → Q) → Dict V → Q
  sum_by f [] = nought
  sum_by f ((_, v) ∷ m) = plus (f v) (sum_by f m)

  pub Ranges-sum_by {κ} :
      {R : V → V → Type κ} (f : V → Q)
      → ((v w : V) → R v w → f v ≡ f w)
      → {m m' : Dict V} → Ranges R m m'
      → sum_by f m ≡ sum_by f m'
  Ranges-sum_by f same nil = refl
  Ranges-sum_by f same (cons k {v} {w} r rs) = cc (same v w r, Ranges-sum_by f same rs)
  Ranges-sum_by f same (swap x y m) = plus_left_comm (f x.1) (f y.1) (sum_by f m)
  Ranges-sum_by f same (trans r s) = Ranges-sum_by f same r ∙ Ranges-sum_by f same s

module _ {ℓ} {V : Type ℓ} {Q : Type 0} ⦃n : Numbers Q⦄ where
  open n use {nought, plus, plus_comm, plus_assoc, nought-plus}

  -- the summand at a key, if there is one
  abbrev pub summand : (V → Q) → Option V → Q
  summand f none = nought
  summand f (some v) = f v

  -- What a write adds to a sum.
  pub sum_by-insert :
      (f : V → Q) (k : String) (v : V) (x : Q) (m : Dict V)
      → f v ≡ plus (summand f (lookup k m)) x
      → sum_by f (insert k v m) ≡ plus (sum_by f m) x
  unfolding lookup insert
  sum_by-insert f k v x [] h = cc (h, nought-plus x, plus_comm x nought)
  sum_by-insert f k v x ((j, w) ∷ m) h = elim (Bool-cases (j == k)) [
    | inl e ↦ rw e (
        cc (
          rw e at h,
          plus_assoc (f w) x (sum_by f m),
          plus_assoc (f w) (sum_by f m) x,
          plus_comm x (sum_by f m),
        ))
    | inr e ↦ rw e (
        ap (plus (f w)) (sum_by-insert f k v x m (rw e at h))
        ∙ sym (plus_assoc (f w) (sum_by f m) x))
  ]
