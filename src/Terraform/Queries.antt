-- ===== src/Terraform/Queries.antt =====
-- terraform/plan.go, terraform/schema.go and usage/usage.go: `extractModuleQueries`, which makes the
-- queries of a state's resources.
pub mod Addresses
use terracost.Prelude.{
  ℕ, zero, suc, ◌+◌, ◌-◌, ◌*◌, ◌/◌, ◌%◌, ◌≤◌, ◌<◌, String, ◌≡◌, refl, sym, ap, ◌∙◌, subst, ◌≢◌, ◌↔◌,
  ◌⊎◌, inl, inr, Bool, true, false, not, ◌&&◌, ◌||◌, false≢true, Option, none, some, List, [], ◌∷◌,
  ◌++◌, map, arith, ◌==◌, eq_iff, eq_refl, ltb, leb, eqb, if◌then◌else◌, Bool-cases, Option-cases,
  is_some, length, length-append, All, All-append, List-cases, mem, mem-append,
}
use terracost.Errors.{Error, Run, done, failed, panic, ◌>>>◌}
use terracost.Dict.{Dict, lookup, insert}
use terracost.Query.{ComponentQuery, ResourceQuery}
use terracost.Terraform.Address.{clean_resource_address}
use terracost.Terraform.Configuration.{ResourceProvider}
use terracost.Terraform.Json.{
  Json, null, array, object, no_fields, Items, items_of, array_of, fields_of, object_of, nth,
  set_at,
}

-- `Resource`; `values` may be nil
pub record TfResource : Type 0 where
  pub address : String
  pub index : Json
  pub mode : String
  pub typ : String
  pub name : String
  pub provider_name : String
  pub values : Option (Dict Json)

mutual
  pub data Module : Type 0 where
    module_of : List TfResource → Modules → Module

  pub data Modules : Type 0 where
    no_modules : Modules
    child_module : Module → Modules → Modules

-- `Provider`, whose components may panic
pub record TfProvider (D : Type 0) : Type 0 where
  pub name : String
  pub resource_components : Dict TfResource → TfResource → Run (List (ComponentQuery D))

-- the parts of `tv` that are not nil, set in the map `vv`; any other value panics where there is one
abbrev merge_map : Dict Json → Json → Run Json
merge_map [] vv = done vv
merge_map ((tk, null) ∷ tv) vv = merge_map tv vv
merge_map ((tk, ntv) ∷ tv) (object fs) =
    merge_map tv (object (object_of (insert tk ntv (fields_of fs))))
merge_map ((tk, ntv) ∷ tv) _ = panic "interface conversion"

-- the parts of `miv` that are not nil and that `nmap` does not have, set in `nmap`
abbrev fill : Dict Json → Dict Json → Dict Json
fill [] nmap = nmap
fill ((ntk, null) ∷ miv) nmap = fill miv nmap
fill ((ntk, ntv) ∷ miv) nmap =
    fill miv (if is_some (lookup ntk nmap) then nmap else insert ntk ntv nmap)

abbrev fill_element : ℕ → Dict Json → List Json → Option Json → Run Json
fill_element i miv xs (some (object fs)) =
    done (array (array_of (set_at i (object (object_of (fill miv (fields_of fs)))) xs)))
fill_element i miv xs (some _) = panic "interface conversion"
fill_element i miv xs none = panic "index out of range"

abbrev fill_at : ℕ → Dict Json → Json → Run Json
fill_at i miv (array a) = fill_element i miv (items_of a) (nth i (items_of a))
fill_at i miv _ = panic "interface conversion"

-- the loop over the array `v`, whose items from the `i`-th on are given; `vv` is the value so far
abbrev merge_array : Json → ℕ → List Json → Json → Run Json
merge_array v i [] vv = done vv
merge_array v i (object miv ∷ tv) vv =
    fill_at i (fields_of miv) vv >>> λ vv. merge_array v (i + 1) tv vv
merge_array v i (_ ∷ tv) vv = merge_array v (i + 1) tv v

-- the `switch` on a value that is set on both sides
abbrev pub merge_values : Json → Json → Run Json
merge_values (object tv) vv = merge_map (fields_of tv) vv
merge_values (array tv) vv = merge_array (array tv) 0 (items_of tv) vv
merge_values _ vv = done vv

abbrev put_merged : String → Option Json → Json → Dict Json → Run (Dict Json)
put_merged k none v values = done (insert k v values)
put_merged k (some vv) v values = merge_values v vv >>> λ vv. done (insert k vv values)

-- `for k, v := range pwrv.Values`
unfoldable pub add_provider_values : Dict Json → Dict Json → Run (Dict Json)
add_provider_values [] values = done values
add_provider_values ((k, null) ∷ pv) values = add_provider_values pv values
add_provider_values ((k, v) ∷ pv) values =
    put_merged k (lookup k values) v values >>> λ values. add_provider_values pv values

-- usage.go: `GetUsage`; the nil map reads as an empty one
unfoldable pub get_usage : Dict Json → String → Run Json
get_usage usage rt = elim (lookup rt usage) [
  | none ↦ done (object no_fields)
  | some (object us) ↦ done (object us)
  | some _ ↦ panic "interface conversion"
]

abbrev pub values_of : TfResource → Dict Json
values_of res = elim res.values [ none ↦ [] | some values ↦ values ]

module _ {D : Type 0} (rps : Dict (ResourceProvider (TfProvider D))) where
  -- the provider of a resource, if it is managed
  abbrev pub provider_of : TfResource → Option (ResourceProvider (TfProvider D))
  provider_of res =
      if not (res.mode == "managed") then none else lookup (clean_resource_address res.address) rps

  abbrev pub resource_query :
      Dict TfResource
      → TfResource
      → Option (ResourceProvider (TfProvider D))
      → Run (ResourceQuery D)
  resource_query rss rs none = panic "nil pointer dereference"
  resource_query rss rs (some pwrv) = pwrv.provider.resource_components rss rs >>> λ comps.
      done (record {
        address = rs.address;
        provider = pwrv.provider.name;
        typ = rs.typ;
        components = comps;
      })

  -- the loop over `rss`
  unfoldable pub resource_queries : Dict TfResource → Dict TfResource → Run (List (ResourceQuery D))
  resource_queries rss [] = done []
  resource_queries rss ((_, rs) ∷ rest) =
      resource_query rss rs (lookup (clean_resource_address rs.address) rps) >>> λ q.
      resource_queries rss rest >>> λ queries. done (q ∷ queries)

module _ {D : Type 0} (usage : Dict Json) (rps : Dict (ResourceProvider (TfProvider D))) where
  abbrev pub add_resource :
      TfResource
      → Option (ResourceProvider (TfProvider D))
      → Dict TfResource
      → Run (Dict TfResource)
  add_resource res none rss = done rss
  add_resource res (some pwrv) rss = add_provider_values pwrv.values (values_of res) >>> λ values.
      get_usage usage res.typ >>> λ us.
      done (insert res.address (record res { values = some (insert "tc_usage" us values) }) rss)

  -- the loop over the module's resources
  unfoldable pub module_resources : List TfResource → Dict TfResource → Run (Dict TfResource)
  unfolding add_provider_values get_usage
  module_resources [] rss = done rss
  module_resources (res ∷ resources) rss =
      add_resource res (provider_of rps res) rss >>> λ rss. module_resources resources rss

unfoldable mutual
  unfolding module_resources resource_queries

  -- `extractModuleQueries`
  pub extract_module_queries :
      {D : Type 0}
      → Dict Json
      → Dict (ResourceProvider (TfProvider D))
      → Module
      → Run (List (ResourceQuery D))
  extract_module_queries usage rps (module_of resources children) =
      module_resources usage rps resources [] >>> λ rss. resource_queries rps rss rss >>> λ queries.
      extract_children usage rps children >>> λ below. done (queries ++ below)

  -- its loop over the child modules
  pub extract_children :
      {D : Type 0}
      → Dict Json
      → Dict (ResourceProvider (TfProvider D))
      → Modules
      → Run (List (ResourceQuery D))
  extract_children usage rps no_modules = done []
  extract_children usage rps (child_module m children) =
      extract_module_queries usage rps m >>> λ queries.
      extract_children usage rps children >>> λ below. done (queries ++ below)
