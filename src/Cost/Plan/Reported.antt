-- ===== src/Cost/Plan/Reported.antt =====
-- `ResourceDifferences`: what the slice that it returns has for every address and label.
use terracost.Prelude.{
  String, ◌≡◌, refl, ap, ◌∙◌, inl, inr, Bool, true, false, Option, none, some, List, [], ◌∷◌, ◌==◌,
  eq_iff, if◌then◌else◌, Bool-cases, All,
}
use terracost.Dict.{Dict, lookup, insert, values, IsMap, insert-IsMap}
use terracost.Cost.Resource.{Resource, ResourceDiff}
use terracost.Cost.State.{State}
use terracost.Cost.Plan.{
  Plan, merge_resource_diffs, merge_into, diff_or_new, difference_map, resource_differences,
  resources_of,
}
use terracost.Cost.Plan.Differences.{
  component_at, diff_of, sides, IsState, merged_resource, lookup-merge_resource_diffs,
  difference_map-diff_at,
}

-- The first of the two that is there.
abbrev pub first_of : Option (String × String) → Option (String × String) → Option (String × String)
first_of none later = later
first_of (some k) later = some k

module _ {D : Type 0} where
  -- The differences under their addresses.
  abbrev pub by_address : List (ResourceDiff D) → Dict (ResourceDiff D)
  by_address [] = []
  by_address (rd ∷ rds) = (rd.address, rd) ∷ by_address rds

  -- The difference that `ResourceDifferences` returns for an address.
  abbrev pub reported : Plan D → String → Option (ResourceDiff D)
  reported p a = lookup a (by_address (resource_differences p))

  -- The provider and the type that are reported, and those of a resource that is not skipped.
  abbrev pub kind_of_diff : Option (ResourceDiff D) → Option (String × String)
  kind_of_diff none = none
  kind_of_diff (some rd) = some (rd.provider, rd.typ)

  abbrev kind_of : Option (Resource D) → Option (String × String)
  kind_of none = none
  kind_of (some r) = if r.skipped then none else some (r.provider, r.typ)

  abbrev pub kind_at : Option (State D) → String → Option (String × String)
  kind_at s a = kind_of (lookup a (resources_of s))

  -- Every difference stands under its own address.
  abbrev IsKeyed : Dict (ResourceDiff D) → Type 0
  IsKeyed m = All (λ e. e.0 ≡ e.1.address) m

  by_address-values : (m : Dict (ResourceDiff D)) → IsKeyed m → by_address (values m) ≡ m
  by_address-values [] h = refl
  by_address-values ((k, rd) ∷ m) (e, h) = rw (← e) (rw (by_address-values m h) refl)

  lookup-IsKeyed :
      (a : String) (m : Dict (ResourceDiff D)) (res : Resource D)
      → IsKeyed m
      → a ≡ (diff_or_new a res (lookup a m)).address
  unfolding lookup
  lookup-IsKeyed a [] res h = refl
  lookup-IsKeyed a ((k, rd) ∷ m) res (e, h) = elim (Bool-cases (k == a)) [
    | inl q ↦ rw q (cc ((eq_iff k a).0 q, e))
    | inr q ↦ rw q (lookup-IsKeyed a m res h)
  ]

  insert-IsKeyed :
      (a : String) (rd : ResourceDiff D) (m : Dict (ResourceDiff D))
      → a ≡ rd.address
      → IsKeyed m
      → IsKeyed (insert a rd m)
  unfolding insert
  insert-IsKeyed a rd [] p h = (p, tt)
  insert-IsKeyed a rd ((k, old) ∷ m) p (e, h) = elim (Bool-cases (k == a)) [
    | inl q ↦ rw q (p, h)
    | inr q ↦ rw q (e, insert-IsKeyed a rd m p h)
  ]

  merge_resource_diffs-IsKeyed :
      (planned : Bool) (rdmap : Dict (ResourceDiff D)) (m : Dict (Resource D))
      → IsMap rdmap × IsKeyed rdmap
      → IsMap (merge_resource_diffs planned rdmap m)
        × IsKeyed (merge_resource_diffs planned rdmap m)
  unfolding merge_resource_diffs
  merge_resource_diffs-IsKeyed planned rdmap [] h = h
  merge_resource_diffs-IsKeyed planned rdmap ((address, res) ∷ m) (h, keyed) =
      let new = merge_into planned res (diff_or_new address res (lookup address rdmap)) in
      let rdmap' = if res.skipped then rdmap else insert address new rdmap in
      merge_resource_diffs-IsKeyed planned rdmap' m (elim (Bool-cases res.skipped) [
        | inl s ↦ rw s (h, keyed)
        | inr s ↦ rw s (
          insert-IsMap address new rdmap h,
          insert-IsKeyed address new rdmap (lookup-IsKeyed address rdmap res keyed) keyed,
        )
      ])

  difference_map-IsKeyed : (p : Plan D) → IsMap (difference_map p) × IsKeyed (difference_map p)
  unfolding difference_map
  difference_map-IsKeyed p =
      merge_resource_diffs-IsKeyed true _ (resources_of p.planned)
        (merge_resource_diffs-IsKeyed false [] (resources_of p.prior) (tt, tt))

  by_address-differences : (p : Plan D) → by_address (resource_differences p) ≡ difference_map p
  unfolding resource_differences
  by_address-differences p = by_address-values (difference_map p) (difference_map-IsKeyed p).1

  kind_of-merged :
      (planned : Bool) (a : String) (r : Option (Resource D)) (rd : Option (ResourceDiff D))
      → kind_of_diff (merged_resource planned a r rd) ≡ first_of (kind_of_diff rd) (kind_of r)
  kind_of-merged planned a none none = refl
  kind_of-merged planned a none (some rd) = refl
  kind_of-merged planned a (some r) none = elim (Bool-cases r.skipped) [
    | inl s ↦ rw s
    | inr s ↦ rw s
  ]
  kind_of-merged planned a (some r) (some rd) = elim (Bool-cases r.skipped) [
    | inl s ↦ rw s
    | inr s ↦ rw s
  ]

  kind_of-merge :
      (planned : Bool) (s : Option (State D)) (rdmap : Dict (ResourceDiff D)) (a : String)
      → IsState s
      → kind_of_diff (lookup a (merge_resource_diffs planned rdmap (resources_of s)))
        ≡ first_of (kind_of_diff (lookup a rdmap)) (kind_at s a)
  kind_of-merge planned s rdmap a (h, _) =
      ap kind_of_diff (lookup-merge_resource_diffs planned rdmap (resources_of s) a h)
      ∙ kind_of-merged planned a (lookup a (resources_of s)) (lookup a rdmap)

  kind_of-difference_map :
      (p : Plan D) (a : String)
      → IsState p.prior
      → IsState p.planned
      → kind_of_diff (lookup a (difference_map p))
        ≡ first_of (kind_at p.prior a) (kind_at p.planned a)
  unfolding difference_map lookup
  kind_of-difference_map p a h h' =
      kind_of-merge true p.planned _ a h'
      ∙ ap (λ (k : Option (String × String)). first_of k (kind_at p.planned a))
          (kind_of-merge false p.prior [] a h)

  -- If the maps of the two states have distinct keys, then the differences that ResourceDifferences
  -- returns have distinct addresses; there is one for an address exactly where a state has a resource
  -- there that is not skipped, with the provider and the type of the prior one, or else of the planned
  -- one; and at every label it holds the prior component beside the planned one, those of skipped
  -- resources left out, and nothing exactly where there is neither.
  pub resource_differences-reported :
      (p : Plan D) (a l : String)
      → IsState p.prior
      → IsState p.planned
      → IsMap (by_address (resource_differences p))
        × (kind_of_diff (reported p a) ≡ first_of (kind_at p.prior a) (kind_at p.planned a))
        × (diff_of l (reported p a) ≡ sides (component_at p.prior a l) (component_at p.planned a l))
  resource_differences-reported p a l h h' = rw (by_address-differences p) (
    (difference_map-IsKeyed p).0,
    kind_of-difference_map p a h h',
    difference_map-diff_at p a l h h',
  )
