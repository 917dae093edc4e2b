-- ===== src/Terraform/Queries/Addresses.antt =====
-- The addresses of the queries that `extractModuleQueries` makes.
use terracost.Prelude.{
  String, ◌≡◌, refl, ap, ◌∙◌, inl, inr, Bool, false, ◌&&◌, ◌||◌, Option, none, some, List, [], ◌∷◌,
  ◌++◌, arith, ◌==◌, if◌then◌else◌, Bool-cases, Option-cases, is_some, All, mem, mem-append,
}
use terracost.Errors.{along_done, Run, done, >>>-eq-done}
use terracost.Dict.{Dict, lookup, insert, keys, mem-keys-insert}
use terracost.Query.{addresses, ResourceQuery}
use terracost.Terraform.Address.{clean_resource_address}
use terracost.Terraform.Json.{Json}
use terracost.Terraform.Configuration.{ResourceProvider}
use terracost.Terraform.Queries.{
  TfResource, TfProvider, Module, module_of, Modules, no_modules, child_module, get_usage,
  add_provider_values, values_of, provider_of, add_resource, module_resources, resource_query,
  resource_queries, extract_module_queries, extract_children,
}

addresses-append :
    {D : Type 0} (xs ys : List (ResourceQuery D))
    → addresses (xs ++ ys) ≡ addresses xs ++ addresses ys
addresses-append [] ys = refl
addresses-append (x ∷ xs) ys = ap (λ (t : List String). x.address ∷ t) (addresses-append xs ys)

-- the address of a query that was made
abbrev address_of : {D : Type 0} → String → Run (ResourceQuery D) → String
address_of other (done q) = q.address
address_of other _ = other

abbrev Keyed : Dict TfResource → Type 0
Keyed rss = All (λ e. e.0 ≡ e.1.address) rss

insert-Keyed :
    (k : String) (r : TfResource) (rss : Dict TfResource)
    → k ≡ r.address
    → Keyed rss
    → Keyed (insert k r rss)
unfolding insert
insert-Keyed k r [] e h = (e, tt)
insert-Keyed k r ((j, w) ∷ rss) e (p, h) = elim (Bool-cases (j == k)) [
  | inl q ↦ rw q (e, h)
  | inr q ↦ rw q (p, insert-Keyed k r rss e h)
]

-- the address, if there is a provider
abbrev with_provider : {P : Type 0} → String → Option P → List String
with_provider a none = []
with_provider a (some pwrv) = a ∷ []

-- what a part of the loop does to the keys of `rss`
abbrev Step : List String → Dict TfResource → Dict TfResource → Type 0
Step new rss rss' =
    ((a : String) → mem a (keys rss') ≡ (mem a new || mem a (keys rss))) × (Keyed rss → Keyed rss')

-- Which resources of a state are estimated: the managed ones whose cleaned address `known` has.
module _ (known : String → Bool) where
  abbrev pub is_estimated : TfResource → Bool
  is_estimated res = res.mode == "managed" && known (clean_resource_address res.address)

  abbrev pub managed_in : List TfResource → List String
  managed_in [] = []
  managed_in (res ∷ resources) =
      if is_estimated res then res.address ∷ managed_in resources else managed_in resources

unfoldable mutual
  -- The addresses of the estimated resources of a module and of its children.
  pub managed : (String → Bool) → Module → List String
  managed known (module_of resources children) =
      managed_in known resources ++ managed_below known children

  pub managed_below : (String → Bool) → Modules → List String
  managed_below known no_modules = []
  managed_below known (child_module m children) = managed known m ++ managed_below known children

-- the address has a provider
abbrev pub has_provider : {P : Type 0} → Dict (ResourceProvider P) → String → Bool
has_provider rps a = is_some (lookup a rps)

module _ {D : Type 0} (usage : Dict Json) (rps : Dict (ResourceProvider (TfProvider D))) where
  add_resource-Step :
      (res : TfResource) (pwrv : Option (ResourceProvider (TfProvider D))) (rss : Dict TfResource)
      {rss' : Dict TfResource}
      → add_resource usage rps res pwrv rss ≡ done rss'
      → Step (with_provider res.address pwrv) rss rss'
  add_resource-Step res none rss e =
      along_done (λ (r : Dict TfResource). Step [] rss r) e ((λ a. refl), (λ h. h))
  add_resource-Step res (some pwrv) rss e =
      let (vs, e1, q) = >>>-eq-done (add_provider_values pwrv.values (values_of res)) _ e in
      let (us, e2, q2) = >>>-eq-done (get_usage usage res.typ) _ q in
      let new = record res { values = some (insert "tc_usage" us vs) } in
      along_done (λ (r : Dict TfResource). Step (res.address ∷ []) rss r) q2
        ((λ a. rw mem-keys-insert (ground arith)), insert-Keyed res.address new rss refl)

  mem-managed_in_cons :
      (a : String) (res : TfResource) (resources : List TfResource)
      → mem a (managed_in (has_provider rps) (res ∷ resources)) ≡ (
          mem a (with_provider res.address (provider_of rps res))
          || mem a (managed_in (has_provider rps) resources))
  mem-managed_in_cons a res resources = elim (Bool-cases (res.mode == "managed")) [
    | inr e ↦ rw e
    | inl e ↦ rw e (elim (Option-cases (lookup (clean_resource_address res.address) rps)) [
      | inl n ↦ rw n
      | inr (pwrv, p) ↦ rw p (ground arith)
    ])
  ]

  module_resources-Step :
      (resources : List TfResource) (rss : Dict TfResource) {rss' : Dict TfResource}
      → module_resources usage rps resources rss ≡ done rss'
      → Step (managed_in (has_provider rps) resources) rss rss'
  unfolding module_resources
  module_resources-Step [] rss e =
      along_done (λ (r : Dict TfResource). Step [] rss r) e ((λ a. refl), (λ h. h))
  module_resources-Step (res ∷ resources) rss {rss'} e =
      let (mid, e1, e2) = >>>-eq-done (add_resource usage rps res (provider_of rps res) rss) _ e in
      let (m1, k1) = add_resource-Step res (provider_of rps res) rss e1 in
      let (m2, k2) = module_resources-Step resources mid e2 in
      ((λ a. rw (mem-managed_in_cons, m2 a, m1 a) (ground arith)), (λ h. k2 (k1 h)))

module _ {D : Type 0} (rps : Dict (ResourceProvider (TfProvider D))) where
  address-resource_query :
      (rss : Dict TfResource) (rs : TfResource) (pwrv : Option (ResourceProvider (TfProvider D)))
      {q : ResourceQuery D}
      → resource_query rps rss rs pwrv ≡ done q
      → q.address ≡ rs.address
  address-resource_query rss rs none e = cc
  address-resource_query rss rs (some pwrv) e =
      let (comps, e1, e2) = >>>-eq-done (pwrv.provider.resource_components rss rs) _ e in
      cc (ap (address_of rs.address) e2)

  addresses-resource_queries :
      (rss rest : Dict TfResource) {qs : List (ResourceQuery D)}
      → Keyed rest
      → resource_queries rps rss rest ≡ done qs
      → addresses qs ≡ keys rest
  unfolding resource_queries
  addresses-resource_queries rss [] h e =
      along_done (λ (t : List (ResourceQuery D)). addresses t ≡ []) e refl
  addresses-resource_queries rss ((k, rs) ∷ rest) {qs} (p, h) e =
      let pwrv = lookup (clean_resource_address rs.address) rps in
      let (q, e1, e2) = >>>-eq-done (resource_query rps rss rs pwrv) _ e in
      let (below, e3, e4) = >>>-eq-done (resource_queries rps rss rest) _ e2 in
      along_done (λ (t : List (ResourceQuery D)). addresses t ≡ k ∷ keys rest) e4
        (rw (address-resource_query rss rs pwrv e1, p, addresses-resource_queries rss rest h e3))

joined :
    {D : Type 0} (a : String) (xs ys : List (ResourceQuery D)) (us vs : List String)
    → mem a (addresses xs) ≡ mem a us
    → mem a (addresses ys) ≡ mem a vs
    → mem a (addresses (xs ++ ys)) ≡ mem a (us ++ vs)
joined a xs ys us vs p q =
    ap (mem a) (addresses-append xs ys)
    ∙ ground (arith, p, q, mem-append a (addresses xs) (addresses ys), mem-append a us vs)

mutual
  unfolding extract_module_queries managed

  pub extract_module_queries_lem :
      {D : Type 0} (usage : Dict Json) (rps : Dict (ResourceProvider (TfProvider D))) (m : Module)
      {qs : List (ResourceQuery D)}
      → extract_module_queries usage rps m ≡ done qs
      → (a : String) → mem a (addresses qs) ≡ mem a (managed (has_provider rps) m)
  extract_module_queries_lem {D = D} usage rps (module_of resources children) {qs} e a =
      let (rss, e1, e2) = >>>-eq-done (module_resources usage rps resources []) _ e in
      let (queries, e3, e4) = >>>-eq-done (resource_queries rps rss rss) _ e2 in
      let (below, e5, e6) = >>>-eq-done (extract_children usage rps children) _ e4 in
      let (members, keyed) = module_resources-Step usage rps resources [] e1 in
      along_done
        (λ (t : List (ResourceQuery D)).
          mem a (addresses t) ≡ mem a (managed (has_provider rps) (module_of resources children)))
        e6
        (joined a queries below (managed_in (has_provider rps) resources)
          (managed_below (has_provider rps) children)
          (ap (mem a) (addresses-resource_queries rps rss rss (keyed tt) e3)
            ∙ members a
            ∙ ground arith)
          (extract_children_lem usage rps children e5 a))

  extract_children_lem :
      {D : Type 0} (usage : Dict Json) (rps : Dict (ResourceProvider (TfProvider D))) (m : Modules)
      {qs : List (ResourceQuery D)}
      → extract_children usage rps m ≡ done qs
      → (a : String) → mem a (addresses qs) ≡ mem a (managed_below (has_provider rps) m)
  extract_children_lem {D = D} usage rps no_modules {qs} e a =
      along_done (λ (t : List (ResourceQuery D)). mem a (addresses t) ≡ false) e refl
  extract_children_lem {D = D} usage rps (child_module m children) {qs} e a =
      let (queries, e1, e2) = >>>-eq-done (extract_module_queries usage rps m) _ e in
      let (below, e3, e4) = >>>-eq-done (extract_children usage rps children) _ e2 in
      along_done
        (λ (t : List (ResourceQuery D)).
          mem a (addresses t) ≡ mem a (managed_below (has_provider rps) (child_module m children)))
        e4
        (joined a queries below (managed (has_provider rps) m)
          (managed_below (has_provider rps) children) (extract_module_queries_lem usage rps m e1 a)
          (extract_children_lem usage rps children e3 a))
