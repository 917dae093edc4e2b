-- ===== src/Aws/S3/Tiers.antt =====
-- What the tiers of a bucket's storage and of its outbound data come to.
use terracost.Prelude.{
  ℕ, ◌+◌, ◌≡◌, refl, sym, ap, ◌∙◌, inl, inr, Bool, true, ◌||◌, List, [], ◌∷◌, if◌then◌else◌,
  Bool-cases,
}
use terracost.Decimal.{Decimal, Numbers, IsExact}
use terracost.Query.{ComponentQuery}
use terracost.Aws.S3.{
  S3Bucket, s3_bucket_component, s3_bucket_outbound_data_transfer_component, storage_tiers,
  outbound_tiers,
}

module _ {Q : Type 0} ⦃n : Numbers Q⦄ where
  open n use {nought, plus, plus_comm, plus_assoc, nought-plus}

  sum_of_two : (a x : Q) → plus a (plus x nought) ≡ plus x a
  sum_of_two a x = cc (plus_comm x nought, nought-plus x, plus_comm a x)

  sum_of_three : (a b x : Q) → plus a (plus b (plus x nought)) ≡ plus x (plus a b)
  sum_of_three a b x =
      cc (plus_comm x nought, nought-plus x, plus_assoc a b x, plus_comm (plus a b) x)

  sum_of_four :
      (a b c x : Q) → plus a (plus b (plus c (plus x nought))) ≡ plus x (plus (plus a b) c)
  sum_of_four a b c x = cc (
    plus_comm x nought,
    nought-plus x,
    plus_assoc a b (plus c x),
    plus_assoc (plus a b) c x,
    plus_comm (plus (plus a b) c) x,
  )

module _ {D Q : Type 0} ⦃d : Decimal D⦄ ⦃n : Numbers Q⦄ (laws : IsExact D Q) where
  -- the sum of the monthly quantities
  abbrev pub total_quantity : List (ComponentQuery D) → Q
  total_quantity [] = n.nought
  total_quantity (comp ∷ comps) = n.plus (laws.num comp.monthly_quantity) (total_quantity comps)

module _ {D Q : Type 0} ⦃d : Decimal D⦄ ⦃n : Numbers Q⦄ (int : ℕ → Q) (greater : D → D → Bool) where
  -- what the tiers of the outbound data count too often
  abbrev pub counted_twice : D → Q
  counted_twice gb =
      if greater gb (d.of_int 153600)
      then n.nought
      else if greater gb (d.of_int 51200) || greater gb (d.of_int 10240)
      then int 40960
      else n.nought

-- `int k` is the number that `NewFromInt` makes of `k`, and a subtraction of what is smaller is exact.
module _ {D Q : Type 0} ⦃d : Decimal D⦄ ⦃n : Numbers Q⦄ (laws : IsExact D Q) (int : ℕ → Q)
    (num-of_int : (k : ℕ) → IsExact.num laws (d.of_int k) ≡ int k)
    (plus-int : (j k : ℕ) → n.plus (int j) (int k) ≡ int (j + k)) (greater : D → D → Bool)
    (sub : D → D → D)
    (num-sub : (a b : D)
      → greater a b ≡ true
      → n.plus (IsExact.num laws (sub a b)) (IsExact.num laws b) ≡ IsExact.num laws a) where
  open n use {nought, plus, plus_comm, plus_assoc, nought-plus}
  open laws use {num}

  -- what is over a bound, and the bound
  with_bound :
      (gb : D) (k : ℕ)
      → greater gb (d.of_int k) ≡ true
      → plus (num (sub gb (d.of_int k))) (int k) ≡ num gb
  with_bound gb k e =
      ap (plus (num (sub gb (d.of_int k)))) (sym (num-of_int k)) ∙ num-sub gb (d.of_int k) e

  two_bounds : (j k : ℕ) → plus (num (d.of_int j)) (num (d.of_int k)) ≡ int (j + k)
  two_bounds j k = cc (num-of_int j, num-of_int k, plus-int j k)

  -- what is over a bound, and the bound with `more`
  with_more :
      (gb : D) (k more : ℕ)
      → greater gb (d.of_int k) ≡ true
      → plus (num (sub gb (d.of_int k))) (int (k + more)) ≡ plus (num gb) (int more)
  with_more gb k more e = cc (
    with_bound gb k e,
    plus-int k more,
    plus_assoc (num (sub gb (d.of_int k))) (int k) (int more),
  )

  total-storage_tiers :
      (v : S3Bucket D) → total_quantity laws (storage_tiers greater sub v) ≡ num v.storage_gb
  unfolding storage_tiers s3_bucket_component
  total-storage_tiers v =
      let gb = v.storage_gb in
      elim (Bool-cases (greater gb (d.of_int 512000))) [
        | inl e ↦ rw e (
            sum_of_three (num (d.of_int 51200)) (num (d.of_int 460800))
              (num (sub gb (d.of_int 512000)))
            ∙ ap (plus (num (sub gb (d.of_int 512000)))) (two_bounds 51200 460800)
            ∙ with_bound gb 512000 e)
        | inr e ↦ rw e (elim (Bool-cases (greater gb (d.of_int 51200))) [
          | inl e' ↦ rw e' (
              sum_of_two (num (d.of_int 51200)) (num (sub gb (d.of_int 51200)))
              ∙ ap (plus (num (sub gb (d.of_int 51200)))) (num-of_int 51200)
              ∙ with_bound gb 51200 e')
          | inr e' ↦ rw e' (plus_comm (num gb) nought ∙ nought-plus (num gb))
        ])
      ]

  total-outbound_tiers :
      (v : S3Bucket D)
      → total_quantity laws (outbound_tiers greater sub v)
        ≡ plus
            (num v.monthly_outbound_data_gb)
            (counted_twice int greater v.monthly_outbound_data_gb)
  unfolding outbound_tiers s3_bucket_outbound_data_transfer_component
  total-outbound_tiers v =
      let gb = v.monthly_outbound_data_gb in
      elim (Bool-cases (greater gb (d.of_int 153600))) [
        | inl e ↦ rw e (
            let x = num (sub gb (d.of_int 153600)) in
            sum_of_four (num (d.of_int 10240)) (num (d.of_int 40960)) (num (d.of_int 102400)) x
            ∙ cc (
              two_bounds 10240 40960,
              num-of_int 102400,
              plus-int 51200 102400,
              with_bound gb 153600 e,
              plus_comm (num gb) nought,
              nought-plus (num gb),
            ))
        | inr e ↦ rw e (elim (Bool-cases (greater gb (d.of_int 51200))) [
          | inl e' ↦ rw e' (
              sum_of_three (num (d.of_int 51200)) (num (d.of_int 40960))
                (num (sub gb (d.of_int 51200)))
              ∙ ap (plus (num (sub gb (d.of_int 51200)))) (two_bounds 51200 40960)
              ∙ with_more gb 51200 40960 e')
          | inr e' ↦ rw e' (elim (Bool-cases (greater gb (d.of_int 10240))) [
            | inl e'' ↦ rw e'' (
                sum_of_two (num (d.of_int 51200)) (num (sub gb (d.of_int 10240)))
                ∙ ap (plus (num (sub gb (d.of_int 10240)))) (num-of_int 51200)
                ∙ with_more gb 10240 40960 e'')
            | inr e'' ↦ rw e'' refl
          ])
        ])
      ]

  -- If NewFromInt is exact, and the subtraction of a smaller decimal, the tiers of a bucket's
  -- storage have its storage as their total quantity, and those of its outbound data have its
  -- outbound data and, where that is over 10,240 GB but not over 153,600 GB (as decimals compare),
  -- another 40,960 GB.
  pub tiers-total_quantity :
      (v : S3Bucket D)
      → (total_quantity laws (storage_tiers greater sub v) ≡ num v.storage_gb)
        × (total_quantity laws (outbound_tiers greater sub v)
            ≡ plus
                (num v.monthly_outbound_data_gb)
                (counted_twice int greater v.monthly_outbound_data_gb))
  tiers-total_quantity v = (total-storage_tiers v, total-outbound_tiers v)
