-- ===== src/Cost/Plan/Sums.antt =====
-- `ResourceDifferences` neither loses nor adds a cost.
use terracost.Prelude.{
  String, ◌≡◌, refl, sym, ap, ◌∙◌, subst, inl, inr, Bool, true, false, not, Option, none, some, [],
  ◌∷◌, eq_refl, if◌then◌else◌, Bool-cases, is_some,
}
use terracost.Decimal.{Decimal, Numbers, IsExact}
use terracost.Decimal.Sums.{sum_by, summand, sum_by-insert}
use terracost.Dict.{Dict, lookup, insert, IsMap, AllValues, lookup-insert_fresh, fresh_ne}
use terracost.Cost.Component.{Component, ComponentDiff}
use terracost.Cost.Resource.{Resource, ResourceDiff, entries}
use terracost.Cost.State.{State}
use terracost.Cost.Plan.{
  Plan, merge_components, merge_resource_diffs, merge_into, diff_or_new, diff_or_blank, place,
  difference_map, resources_of,
}
use terracost.Cost.Plan.Differences.{IsState, diff_of, merged, component_at, diff_of-merge}

else_case {ℓ} : {A : Type ℓ} (c : Bool) (x y : A) → c ≡ false → (if c then x else y) ≡ y
else_case c x y e = rw e

module _ {D : Type 0} where
  abbrev pub side : Bool → ComponentDiff D → Option (Component D)
  side planned cd = if planned then cd.planned else cd.prior

module _ {D Q : Type 0} ⦃d : Decimal D⦄ ⦃n : Numbers Q⦄ (laws : IsExact D Q) where
  open n use {nought, plus, times, nought-plus, plus_comm, plus_assoc}
  open laws use {num}

  abbrev pub component_worth : Component D → Q
  component_worth c = times (num c.rate.decimal) (num c.quantity)

  abbrev pub side_worth : Bool → ComponentDiff D → Q
  side_worth b cd = summand component_worth (side b cd)

  place_other :
      (b : Bool) (c : Component D) (o : Option (ComponentDiff D))
      → side_worth b (place (not b) c (diff_or_blank o)) ≡ plus (summand (side_worth b) o) nought
  place_other true c none = sym (nought-plus _)
  place_other false c none = sym (nought-plus _)
  place_other true c (some cd) = sym (plus_comm _ nought ∙ nought-plus _)
  place_other false c (some cd) = sym (plus_comm _ nought ∙ nought-plus _)

  place_same :
      (b : Bool) (c : Component D) (o : Option (ComponentDiff D))
      → summand (side_worth b) o ≡ nought
      → side_worth b (place b c (diff_or_blank o))
        ≡ plus (summand (side_worth b) o) (component_worth c)
  place_same true c o e = rw e (sym (nought-plus _))
  place_same false c o e = rw e (sym (nought-plus _))

  merge_components_other :
      (b : Bool) (diffs : Dict (ComponentDiff D)) (m : Dict (Component D))
      → sum_by (side_worth b) (merge_components (not b) diffs m) ≡ sum_by (side_worth b) diffs
  unfolding merge_components
  merge_components_other b diffs [] = refl
  merge_components_other b diffs ((k, c) ∷ m) =
      merge_components_other b (insert k (place (not b) c (diff_or_blank (lookup k diffs))) diffs) m
      ∙ sum_by-insert (side_worth b) k (place (not b) c (diff_or_blank (lookup k diffs))) nought
          diffs (place_other b c (lookup k diffs))
      ∙ plus_comm _ nought
      ∙ nought-plus _

  -- No component of `m` has a cost in the difference yet.
  abbrev Fresh : Bool → Dict (Component D) → Dict (ComponentDiff D) → Type 0
  Fresh b m diffs =
      (l : String) → is_some (lookup l m) ≡ true → summand (side_worth b) (lookup l diffs) ≡ nought

  merge_components_same :
      (b : Bool) (diffs : Dict (ComponentDiff D)) (m : Dict (Component D))
      → IsMap m
      → Fresh b m diffs
      → sum_by (side_worth b) (merge_components b diffs m)
        ≡ plus (sum_by (side_worth b) diffs) (sum_by component_worth m)
  unfolding merge_components lookup
  merge_components_same b diffs [] h f = sym (plus_comm _ nought ∙ nought-plus _)
  merge_components_same b diffs ((k, c) ∷ m) (fresh, h) f =
      let new = place b c (diff_or_blank (lookup k diffs)) in
      merge_components_same b (insert k new diffs) m h (λ l e.
        rw (lookup-insert_fresh k l new m diffs fresh e) (f l (rw (fresh_ne k l m fresh e) e)))
      ∙ cc (
        sum_by-insert (side_worth b) k new (component_worth c) diffs
            (place_same b c (lookup k diffs) (f k (rw (eq_refl k)))),
        plus_assoc (sum_by (side_worth b) diffs) (component_worth c) (sum_by component_worth m),
      )

  -- what the resource adds to the differences
  abbrev pub shown_worth : Resource D → Q
  shown_worth res = if res.skipped then nought else sum_by component_worth (entries res.components)

  abbrev pub diff_worth : Bool → ResourceDiff D → Q
  diff_worth b rd = sum_by (side_worth b) rd.component_diffs

  merge_into_other :
      (b : Bool) (a : String) (res : Resource D) (o : Option (ResourceDiff D))
      → diff_worth b (merge_into (not b) res (diff_or_new a res o))
        ≡ plus (summand (diff_worth b) o) nought
  merge_into_other b a res none =
      merge_components_other b [] (entries res.components) ∙ sym (nought-plus _)
  merge_into_other b a res (some rd) =
      merge_components_other b rd.component_diffs (entries res.components)
      ∙ sym (plus_comm _ nought ∙ nought-plus _)

  merge_resource_diffs_other :
      (b : Bool) (rdmap : Dict (ResourceDiff D)) (m : Dict (Resource D))
      → sum_by (diff_worth b) (merge_resource_diffs (not b) rdmap m) ≡ sum_by (diff_worth b) rdmap
  unfolding merge_resource_diffs
  merge_resource_diffs_other b rdmap [] = refl
  merge_resource_diffs_other b rdmap ((a, res) ∷ m) = elim (Bool-cases res.skipped) [
    | inl e ↦ rw e (merge_resource_diffs_other b rdmap m)
    | inr e ↦ rw e (
        let new = merge_into (not b) res (diff_or_new a res (lookup a rdmap)) in
        merge_resource_diffs_other b (insert a new rdmap) m
        ∙ sum_by-insert (diff_worth b) a new nought rdmap
            (merge_into_other b a res (lookup a rdmap))
        ∙ plus_comm _ nought
        ∙ nought-plus _)
  ]

  -- The difference of a resource has no cost on a side.
  abbrev Clear : Bool → Option (ResourceDiff D) → Type 0
  Clear b o = (l : String) → summand (side_worth b) (diff_of l o) ≡ nought

  merge_into_same :
      (b : Bool) (a : String) (res : Resource D) (o : Option (ResourceDiff D))
      → IsMap (entries res.components)
      → Clear b o
      → diff_worth b (merge_into b res (diff_or_new a res o))
        ≡ plus (summand (diff_worth b) o) (sum_by component_worth (entries res.components))
  merge_into_same b a res none h c =
      merge_components_same b [] (entries res.components) h (λ l e. unfold lookup in c l)
  merge_into_same b a res (some rd) h c =
      merge_components_same b rd.component_diffs (entries res.components) h (λ l e. c l)

  merge_resource_diffs_same :
      (b : Bool) (rdmap : Dict (ResourceDiff D)) (m : Dict (Resource D))
      → IsMap m
      → AllValues (λ (r : Resource D). IsMap (entries r.components)) m
      → ((a : String) → is_some (lookup a m) ≡ true → Clear b (lookup a rdmap))
      → sum_by (diff_worth b) (merge_resource_diffs b rdmap m)
        ≡ plus (sum_by (diff_worth b) rdmap) (sum_by shown_worth m)
  unfolding merge_resource_diffs lookup
  merge_resource_diffs_same b rdmap [] h each f = sym (plus_comm _ nought ∙ nought-plus _)
  merge_resource_diffs_same b rdmap ((a, res) ∷ m) (fresh, h) (p, each) f =
      elim (Bool-cases res.skipped) [
        | inl e ↦ rw e (
            merge_resource_diffs_same b rdmap m h each (λ l q. f l (rw (fresh_ne a l m fresh q) q))
            ∙ ap (plus (sum_by (diff_worth b) rdmap)) (sym (nought-plus _)))
        | inr e ↦
            let new = merge_into b res (diff_or_new a res (lookup a rdmap)) in
            let worth = sum_by component_worth (entries res.components) in
            ap (λ (rm : Dict (ResourceDiff D)). sum_by (diff_worth b) (merge_resource_diffs b rm m))
              (else_case res.skipped rdmap (insert a new rdmap) e)
            ∙ merge_resource_diffs_same b (insert a new rdmap) m h each (λ l q.
              subst (Clear b) (sym (lookup-insert_fresh a l new m rdmap fresh q))
                (f l (rw (fresh_ne a l m fresh q) q)))
            ∙ cc (
              sum_by-insert (diff_worth b) a new worth rdmap
                  (merge_into_same b a res (lookup a rdmap) p (f a (rw (eq_refl a)))),
              plus_assoc (sum_by (diff_worth b) rdmap) worth (sum_by shown_worth m),
              else_case res.skipped nought worth e,
            )
      ]

  -- A map of differences that only the other side's components went into.
  Clear-merge :
      (s : Option (State D)) (a : String)
      → IsState s
      → Clear true (lookup a (merge_resource_diffs false [] (resources_of s)))
  unfolding lookup
  Clear-merge s a h l = rw (diff_of-merge false s [] a l h) (prior_alone (component_at s a l))
    where
      prior_alone :
          (c : Option (Component D)) → summand (side_worth true) (merged false c none) ≡ nought
      prior_alone none = refl
      prior_alone (some c) = refl

  -- The sides of the differences come to what the resources that are not skipped come to.
  pub sum_by-difference_map :
      (p : Plan D)
      → IsState p.prior
      → IsState p.planned
      → (sum_by (diff_worth false) (difference_map p) ≡ sum_by shown_worth (resources_of p.prior))
        × (sum_by (diff_worth true) (difference_map p)
            ≡ sum_by shown_worth (resources_of p.planned))
  unfolding difference_map lookup
  sum_by-difference_map p (h, each) (h', each') = (
    merge_resource_diffs_other false (merge_resource_diffs false [] (resources_of p.prior))
          (resources_of p.planned)
        ∙ merge_resource_diffs_same false [] (resources_of p.prior) h each (λ a e l. refl)
        ∙ nought-plus _,
    merge_resource_diffs_same true (merge_resource_diffs false [] (resources_of p.prior))
          (resources_of p.planned) h' each' (λ a e. Clear-merge p.prior a (h, each))
        ∙ cc (
          merge_resource_diffs_other true [] (resources_of p.prior),
          nought-plus (sum_by shown_worth (resources_of p.planned)),
        ),
  )
