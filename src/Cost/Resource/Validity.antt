-- ===== src/Cost/Resource/Validity.antt =====
-- `Errors` and `Valid` of a difference.
use terracost.Prelude.{String, ◌≡◌, refl, ◌≢◌, ◌↔◌, true, Option, none, some, [], ◌∷◌, arith}
use terracost.Errors.{Error}
use terracost.Dict.{Dict, insert}
use terracost.Cost.Component.{ComponentDiff}
use terracost.Cost.Resource.{
  ResourceDiff, resource_errors, resource_valid, collect_errors, all_valid, record_error,
  diff_error,
}

insert_nonempty : (k : String) (e : Error) (m : Dict Error) → insert k e m ≢ []
unfolding insert
insert_nonempty k e [] = λ p. cc p
insert_nonempty k e ((j, x) ∷ m) = ground arith

recorded_nothing :
    (label : String) (r : Option Error) (errs : Dict Error)
    → (record_error label r errs ≡ []) ↔ ((r ≡ none) × (errs ≡ []))
recorded_nothing label none errs = (λ p. (refl, p), λ p. p.1)
recorded_nothing label (some e) errs =
    (λ p. absurd (insert_nonempty label e errs p), λ (p, q). absurd (some_not_none p))
  where
    some_not_none : some e ≢ none
    some_not_none p = cc p

module _ {D : Type 0} where
  collected_nothing :
      (errs : Dict Error) (m : Dict (ComponentDiff D))
      → (collect_errors errs m ≡ []) ↔ ((errs ≡ []) × (all_valid m ≡ true))
  unfolding collect_errors all_valid
  collected_nothing errs [] = (λ p. (p, refl), λ p. p.0)
  collected_nothing errs ((label, cd) ∷ m) = ground (
    arith,
    collected_nothing (record_error label (diff_error cd) errs) m,
    recorded_nothing label (diff_error cd) errs,
  )

  -- `Valid` returns true exactly where `Errors` returns the empty map.
  pub resource_valid_iff :
      (rd : ResourceDiff D) → (resource_valid rd ≡ true) ↔ (resource_errors rd ≡ [])
  unfolding resource_valid resource_errors
  resource_valid_iff rd =
      let (there, back) = collected_nothing [] rd.component_diffs in
      (λ v. back (refl, v), λ e. (there e).1)
