-- ===== src/Cost/Plan/Differences.antt =====
-- `ResourceDifferences`: what the difference of a plan holds for every address and label.
use terracost.Prelude.{
  String, ◌≡◌, refl, ap, ◌∙◌, subst, inl, inr, Bool, true, false, Option, none, some, [], ◌∷◌, ◌==◌,
  eq_iff, if◌then◌else◌, Bool-cases,
}
use terracost.Dict.{Dict, lookup, insert, IsMap, AllValues, lookup-insert}
use terracost.Cost.Component.{Component, ComponentDiff}
use terracost.Cost.Resource.{Resource, ResourceDiff, entries}
use terracost.Cost.State.{State}
use terracost.Cost.Plan.{
  Plan, merge_components, merge_resource_diffs, merge_into, diff_or_new, diff_or_blank, place,
  difference_map, resources_of,
}

module _ {D : Type 0} where
  -- A component that is merged into what is there for its label.
  abbrev pub merged :
      Bool → Option (Component D) → Option (ComponentDiff D) → Option (ComponentDiff D)
  merged planned none cd = cd
  merged planned (some c) cd = some (place planned c (diff_or_blank cd))

  merged_step :
      (planned : Bool) (k l : String) (c : Component D) (diffs : Dict (ComponentDiff D))
      (later : Option (Component D))
      → (k ≡ l → later ≡ none)
      → merged planned later (
          if k == l
          then some (place planned c (diff_or_blank (lookup k diffs)))
          else lookup l diffs)
        ≡ merged planned (if k == l then some c else later) (lookup l diffs)
  merged_step planned k l c diffs later fresh = elim (Bool-cases (k == l)) [
    | inl e ↦ rw e (rw (fresh ((eq_iff k l).0 e)) (rw ((eq_iff k l).0 e)))
    | inr e ↦ rw e
  ]

  pub lookup-merge_components :
      (planned : Bool) (diffs : Dict (ComponentDiff D)) (m : Dict (Component D)) (l : String)
      → IsMap m
      → lookup l (merge_components planned diffs m) ≡ merged planned (lookup l m) (lookup l diffs)
  unfolding merge_components lookup
  lookup-merge_components planned diffs [] l h = refl
  lookup-merge_components planned diffs ((k, c) ∷ m) l (fresh, h) =
      let new = place planned c (diff_or_blank (lookup k diffs)) in
      lookup-merge_components planned (insert k new diffs) m l h
      ∙ rw lookup-insert (merged_step planned k l c diffs (lookup l m) (λ e. rw (← e) fresh))

  -- A resource that is merged into what is there for its address.
  abbrev pub merged_resource :
      Bool → String → Option (Resource D) → Option (ResourceDiff D) → Option (ResourceDiff D)
  merged_resource planned a none rd = rd
  merged_resource planned a (some r) rd =
      if r.skipped then rd else some (merge_into planned r (diff_or_new a r rd))

  resource_step :
      (planned : Bool) (k a : String) (r : Resource D) (rdmap : Dict (ResourceDiff D))
      (later : Option (Resource D))
      → (k ≡ a → later ≡ none)
      → merged_resource planned a later (
          lookup a (
            if r.skipped
            then rdmap
            else insert k (merge_into planned r (diff_or_new k r (lookup k rdmap))) rdmap))
        ≡ merged_resource planned a (if k == a then some r else later) (lookup a rdmap)
  resource_step planned k a r rdmap later fresh = elim (Bool-cases (k == a)) [
    | inl e ↦ rw e (
        rw (fresh ((eq_iff k a).0 e)) (elim (Bool-cases r.skipped) [
          | inl s ↦ rw s
          | inr s ↦ rw s (rw lookup-insert (rw e (rw ((eq_iff k a).0 e))))
        ]))
    | inr e ↦
        rw e (elim (Bool-cases r.skipped) [ inl s ↦ rw s | inr s ↦ rw s (rw lookup-insert (rw e)) ])
  ]

  pub lookup-merge_resource_diffs :
      (planned : Bool) (rdmap : Dict (ResourceDiff D)) (m : Dict (Resource D)) (a : String)
      → IsMap m
      → lookup a (merge_resource_diffs planned rdmap m)
        ≡ merged_resource planned a (lookup a m) (lookup a rdmap)
  unfolding merge_resource_diffs lookup
  lookup-merge_resource_diffs planned rdmap [] a h = refl
  lookup-merge_resource_diffs planned rdmap ((k, r) ∷ m) a (fresh, h) =
      let rdmap' =
        if r.skipped
        then rdmap
        else insert k (merge_into planned r (diff_or_new k r (lookup k rdmap))) rdmap in
      lookup-merge_resource_diffs planned rdmap' m a h
      ∙ resource_step planned k a r rdmap (lookup a m) (λ e. rw (← e) fresh)

  -- The component of a state at an address and a label; a skipped resource has none.
  abbrev component_of : String → Option (Resource D) → Option (Component D)
  component_of l none = none
  component_of l (some r) = if r.skipped then none else lookup l (entries r.components)

  abbrev pub component_at : Option (State D) → String → String → Option (Component D)
  component_at s a l = component_of l (lookup a (resources_of s))

  abbrev pub diff_of : String → Option (ResourceDiff D) → Option (ComponentDiff D)
  diff_of l none = none
  diff_of l (some rd) = lookup l rd.component_diffs

  -- The difference that the plan reports at an address and a label.
  abbrev pub diff_at : Plan D → String → String → Option (ComponentDiff D)
  diff_at p a l = diff_of l (lookup a (difference_map p))

  -- Two sides of which at least one is there.
  abbrev pub sides : Option (Component D) → Option (Component D) → Option (ComponentDiff D)
  sides none none = none
  sides prior planned = some (record { prior = prior; planned = planned })

  -- The keys of the state's maps are distinct.
  abbrev pub IsState : Option (State D) → Type 0
  IsState s =
      IsMap (resources_of s)
      × AllValues (λ (r : Resource D). IsMap (entries r.components)) (resources_of s)

  IsMap-of_lookup :
      (m : Dict (Resource D)) (a : String) (r : Resource D)
      → AllValues (λ (r : Resource D). IsMap (entries r.components)) m
      → lookup a m ≡ some r
      → IsMap (entries r.components)
  unfolding lookup
  IsMap-of_lookup [] a r h e = cc
  IsMap-of_lookup ((k, v) ∷ m) a r (p, h) e = elim (Bool-cases (k == a)) [
    | inl q ↦
        subst (λ (x : Resource D). IsMap (entries x.components)) {x = v} {y = r} (cc (rw q at e)) p
    | inr q ↦ IsMap-of_lookup m a r h (rw q at e)
  ]

  diff_of-merged_resource :
      (planned : Bool) (a l : String) (r : Option (Resource D)) (rd : Option (ResourceDiff D))
      → ((x : Resource D) → r ≡ some x → IsMap (entries x.components))
      → diff_of l (merged_resource planned a r rd)
        ≡ merged planned (component_of l r) (diff_of l rd)
  unfolding lookup
  diff_of-merged_resource planned a l none rd h = refl
  diff_of-merged_resource planned a l (some r) none h = elim (Bool-cases r.skipped) [
    | inl s ↦ rw s
    | inr s ↦ rw s (lookup-merge_components planned [] (entries r.components) l (h r refl))
  ]
  diff_of-merged_resource planned a l (some r) (some rd) h = elim (Bool-cases r.skipped) [
    | inl s ↦ rw s
    | inr s ↦
        rw s
          (lookup-merge_components planned rd.component_diffs (entries r.components) l (h r refl))
  ]

  sides_of_merged :
      (prior planned : Option (Component D))
      → merged true planned (merged false prior none) ≡ sides prior planned
  sides_of_merged none none = refl
  sides_of_merged none (some c) = refl
  sides_of_merged (some c) none = refl
  sides_of_merged (some c) (some c') = refl

  pub diff_of-merge :
      (planned : Bool) (s : Option (State D)) (rdmap : Dict (ResourceDiff D)) (a l : String)
      → IsState s
      → diff_of l (lookup a (merge_resource_diffs planned rdmap (resources_of s)))
        ≡ merged planned (component_at s a l) (diff_of l (lookup a rdmap))
  diff_of-merge planned s rdmap a l (h, each) =
      ap (diff_of l) (lookup-merge_resource_diffs planned rdmap (resources_of s) a h)
      ∙ diff_of-merged_resource planned a l (lookup a (resources_of s)) (lookup a rdmap)
          (λ x e. IsMap-of_lookup (resources_of s) a x each e)

  -- If the maps of the two states have distinct keys, then at every address and label the difference
  -- of a plan holds the prior component beside the planned one, those of skipped resources left out,
  -- and there is a difference exactly where there is one of the two.
  pub difference_map-diff_at :
      (p : Plan D) (a l : String)
      → IsState p.prior
      → IsState p.planned
      → diff_at p a l ≡ sides (component_at p.prior a l) (component_at p.planned a l)
  unfolding difference_map lookup
  difference_map-diff_at p a l hp hq =
      diff_of-merge true p.planned _ a l hq
      ∙ ap (merged true (component_at p.planned a l)) (diff_of-merge false p.prior [] a l hp)
      ∙ sides_of_merged (component_at p.prior a l) (component_at p.planned a l)
