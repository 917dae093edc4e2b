-- ===== src/Cost/Tests.antt =====
-- The costs at a state of two resources, and the queries that give it.
use terracost.Prelude.{
  ℕ, String, ◌≡◌, refl, ◌↔◌, inl, inr, true, false, Option, none, some, List, [], ◌∷◌, eqb,
  if◌then◌else◌,
}
use terracost.Errors.{Result, ok, panic, product_not_found}
use terracost.Decimal.{Whole, whole_decimal, ℕ_numbers, Whole-IsExact, whole_fits}
use terracost.Decimal.Sums.{sum_by}
use terracost.Dict.{IsMap, AllValues, lookup, swap, trans, nil, cons}
use terracost.Query.{ProductFilter, Product, Price, ComponentQuery, ResourceQuery}
use terracost.Cost.Money.{new_hourly, hourly, Cost, zero_cost, add, mul_decimal, monthly}
use terracost.Cost.Money.Rates.{hourly-new_hourly}
use terracost.Cost.Resource.Validity.{resource_valid_iff}
use terracost.Cost.Component.{Component, component_cost}
use terracost.Cost.Resource.{
  ResourceDiff, resource_valid, resource_errors, Resource, entries, resource_cost, accumulate,
}
use terracost.Cost.Resource.Totals.{
  IsNamed, AllFit, resource_cost-sum, resource_cost_iff, resource_cost_order,
}
use terracost.Cost.State.{Catalog, State, state_cost, new_state, price_component}
use terracost.Cost.State.Totals.{AllNamed, worth, state_cost-sum, state_cost_order, state_cost_iff}
use terracost.Cost.State.Pricing.{
  IsPriced, monthly_use, price_component-amount, price_component_error_iff,
  price_component-zero_cost, new_state-panic,
}
use terracost.Cost.Plan.{Plan, resource_differences}
use terracost.Cost.Plan.Differences.{component_at, diff_of, sides}
use terracost.Cost.Plan.Reported.{
  by_address, reported, kind_of_diff, kind_at, first_of, resource_differences-reported,
}
use terracost.Cost.Totals.{SameCost, amount}

abbrev priced_at : ℕ → String → ℕ → Component Whole
priced_at rate currency quantity = record {
  quantity = some quantity;
  unit = "";
  rate = record { decimal = some rate; currency = currency };
  details = [];
  usage = false;
  error = none;
}

abbrev server : Resource Whole
server = record {
  provider = "aws";
  typ = "aws_instance";
  components =
      some (("Compute", priced_at 73 "USD" 1) ∷ ("Root volume: Storage", priced_at 2 "USD" 8) ∷ []);
  skipped = false;
}

abbrev pub disk : Resource Whole
disk = record {
  provider = "aws";
  typ = "aws_ebs_volume";
  components = some (("Storage", priced_at 2 "USD" 10) ∷ ("Free", priced_at 0 "" 5) ∷ []);
  skipped = false;
}

-- `server` with its components in the other order
abbrev turned_server : Resource Whole
turned_server = record server {
  components =
      some (("Root volume: Storage", priced_at 2 "USD" 8) ∷ ("Compute", priced_at 73 "USD" 1) ∷ []);
}

abbrev pub site : State Whole
site = record { resources = ("server", server) ∷ ("disk", disk) ∷ [] }

abbrev turned_site : State Whole
turned_site = record { resources = ("disk", disk) ∷ ("server", turned_server) ∷ [] }

abbrev pub usd : ℕ → Cost Whole
usd n = record { decimal = some n; currency = "USD" }

server_runs : resource_cost server ≡ ok (usd 89)
unfolding resource_cost accumulate add component_cost mul_decimal monthly
server_runs = refl

pub site_runs : state_cost site ≡ ok (usd 109)
unfolding state_cost resource_cost accumulate add component_cost mul_decimal monthly
site_runs = refl

server-AllNamed : AllValues (IsNamed {D = Whole}) (entries server.components)
server-AllNamed = (inr (λ p. cc p), (inr (λ p. cc p), tt))

site-AllNamed : AllNamed site
site-AllNamed = (server-AllNamed, ((inr (λ p. cc p), (inl refl, tt)), tt))

state_cost-sum_example :
    amount Whole-IsExact (usd 109) ≡ sum_by (worth Whole-IsExact) site.resources
state_cost-sum_example = state_cost-sum Whole-IsExact site (usd 109) site_runs

state_cost_order_example :
    (t' : Cost Whole) × (state_cost turned_site ≡ ok t') × SameCost Whole-IsExact (usd 109) t'
state_cost_order_example =
    state_cost_order Whole-IsExact site turned_site (usd 109) site-AllNamed
      (trans (cons "server" (swap _ _ []) (cons "disk" (cons _ refl (cons _ refl nil)) nil))
        (swap _ _ []))
      site_runs

state_cost_iff_example : ((t : Cost Whole) × (state_cost site ≡ ok t)) ↔ (
    (cur : String) × AllValues
      (λ (re : Resource Whole). AllFit cur (entries re.components))
      site.resources)
state_cost_iff_example = state_cost_iff Whole-IsExact site site-AllNamed

resource_cost-sum_example :
    amount Whole-IsExact (usd 89)
    ≡ sum_by
        (λ (c : Component Whole).
          ℕ_numbers.times (Whole-IsExact.num c.rate.decimal) (Whole-IsExact.num c.quantity))
        (entries server.components)
resource_cost-sum_example = resource_cost-sum Whole-IsExact server (usd 89) server_runs

resource_cost_iff_example :
    ((t : Cost Whole) × (resource_cost server ≡ ok t))
    ↔ ((cur : String) × AllFit cur (entries server.components))
resource_cost_iff_example = resource_cost_iff Whole-IsExact server server-AllNamed

resource_cost_order_example :
    (t' : Cost Whole) × (resource_cost turned_server ≡ ok t') × SameCost Whole-IsExact (usd 89) t'
resource_cost_order_example =
    resource_cost_order Whole-IsExact server turned_server (usd 89) server-AllNamed (swap _ _ [])
      server_runs

-- a backend with one product, of the family "Storage", and one price
abbrev gp3 : Product
gp3 = record {
  id = 1;
  provider = "aws";
  sku = "GP3";
  service = "AmazonEC2";
  family = "Storage";
  location = "us-east-1";
  attributes = some [];
}

abbrev gb_month : Price Whole
gb_month = record { id = 7; unit = "GB-Mo"; currency = "USD"; value = some 2; attributes = some [] }

abbrev found_products : Option ProductFilter → Result (List Product)
found_products none = ok []
found_products (some _) = ok (gp3 ∷ [])

abbrev pub small_catalog : Catalog Whole
small_catalog = record {
  products = found_products;
  prices = λ id _. if eqb id 1 then ok (gb_month ∷ []) else ok [];
}

abbrev storage_filter : ProductFilter
storage_filter = record {
  provider = some "aws";
  sku = none;
  service = some "AmazonEC2";
  family = some "Storage";
  location = some "us-east-1";
  attribute_filters = [];
}

abbrev storage_query : ComponentQuery Whole
storage_query = record {
  name = "Storage";
  hourly_quantity = none;
  monthly_quantity = some 20;
  unit = "GB";
  details = [];
  usage = false;
  product_filter = some storage_filter;
  price_filter = none;
}

-- a query that finds no product
abbrev unknown_query : ComponentQuery Whole
unknown_query = record storage_query { name = "Unknown"; product_filter = none }

abbrev pub volume_query : ResourceQuery Whole
volume_query = record {
  address = "aws_ebs_volume.data";
  provider = "aws";
  typ = "aws_ebs_volume";
  components = storage_query ∷ unknown_query ∷ [];
}

abbrev pub role_query : ResourceQuery Whole
role_query = record {
  address = "aws_iam_role.app";
  provider = "aws";
  typ = "aws_iam_role";
  components = [];
}

storage_query-IsPriced : IsPriced small_catalog storage_query gb_month
storage_query-IsPriced = (gp3, [], [], refl, refl)

price_component-amount_example :
    amount Whole-IsExact (component_cost (price_component small_catalog storage_query))
    ≡ ℕ_numbers.times
        (Whole-IsExact.num gb_month.value)
        (monthly_use Whole-IsExact small_catalog storage_query)
price_component-amount_example =
    price_component-amount Whole-IsExact small_catalog storage_query gb_month storage_query-IsPriced

price_component_error_iff_example :
    ((price_component small_catalog unknown_query).error ≡ none)
    ↔ ((price : Price Whole) × IsPriced small_catalog unknown_query price)
price_component_error_iff_example = price_component_error_iff small_catalog unknown_query

unknown_query_fails : (price_component small_catalog unknown_query).error ≡ some product_not_found
unfolding price_component
unknown_query_fails = refl

price_component-zero_cost_example :
    component_cost (price_component small_catalog unknown_query) ≡ zero_cost
price_component-zero_cost_example =
    price_component-zero_cost Whole-IsExact small_catalog unknown_query product_not_found
      unknown_query_fails

new_state-panic_example :
    new_state small_catalog
      (role_query ∷ record role_query { components = storage_query ∷ [] } ∷ [])
    ≡ panic "assignment to entry in nil map"
new_state-panic_example =
    new_state-panic small_catalog role_query (record role_query { components = storage_query ∷ [] })
      [] refl (λ p. cc p) refl

-- the plan from nothing to a disk, and on to the site
abbrev pub growth : Plan Whole
growth = record {
  name = "";
  prior = some (record { resources = ("disk", disk) ∷ [] });
  planned = some site;
}

resource_differences-reported_example :
    IsMap (by_address (resource_differences growth))
    × (kind_of_diff (reported growth "disk")
        ≡ first_of (kind_at growth.prior "disk") (kind_at growth.planned "disk"))
    × (diff_of "Storage" (reported growth "disk")
        ≡ sides
            (component_at growth.prior "disk" "Storage")
            (component_at growth.planned "disk" "Storage"))
unfolding lookup
resource_differences-reported_example =
    resource_differences-reported growth "disk" "Storage" ((refl, tt), ((refl, (refl, tt)), tt))
      ((refl, (refl, tt)), ((refl, (refl, tt)), ((refl, (refl, tt)), tt)))

hourly-new_hourly_example :
    Whole-IsExact.num (hourly (new_hourly (some 3) "USD")) ≡ Whole-IsExact.num (some 3)
hourly-new_hourly_example = hourly-new_hourly Whole-IsExact (some 3) "USD" (whole_fits (some 3) 6)

-- a difference whose planned side found no product
abbrev failing : ResourceDiff Whole
failing = record {
  address = "disk";
  provider = "aws";
  typ = "aws_ebs_volume";
  component_diffs =
      (
        "Unknown",
        record { prior = none; planned = some (price_component small_catalog unknown_query) },
      )
      ∷ [];
}

resource_valid_iff_example : (resource_valid failing ≡ true) ↔ (resource_errors failing ≡ [])
resource_valid_iff_example = resource_valid_iff failing
