-- ===== src/Aws/Databases.antt =====
-- The products that a database, a cluster and its instances ask for pass `MinimalFilter`.
pub mod Tests
use terracost.Prelude.{
  String, ◌≡◌, refl, inl, inr, Bool, true, false, not, ◌&&◌, ◌||◌, false≢true, some, List, [], ◌∷◌,
  ◌++◌, ◌==◌, if◌then◌else◌, arith,
}
use terracost.Decimal.{Decimal}
use terracost.Query.{ComponentQuery, Product, ProductFilter}
use terracost.Catalog.{matches_any}
use terracost.Aws.Text.{has_prefix, contains}
use terracost.Aws.Filter.{minimal_filter, minimal_filter_rds}
use terracost.Aws.Matching.{matches_query-AsksFor, matches_any_cons}
use terracost.Aws.DbInstance.{DbInstance, db_instance_components}
use terracost.Aws.RdsCluster.{RdsCluster, aurora_serverless_component, rds_cluster_components}
use terracost.Aws.RdsClusterInstance.{
  RdsClusterInstance, serverless_v2_component, rds_cluster_instance_component,
  rds_cluster_instance_components,
}

-- the families of databases that components name
abbrev families : List String
families =
    "Database Instance" ∷ "Database Storage" ∷ "Provisioned IOPS" ∷ "Serverless" ∷ "ServerlessV2"
    ∷ "System Operation" ∷ "Storage Snapshot" ∷ "Performance Insights" ∷ []

abbrev is_one_of : String → List String → Bool
is_one_of a [] = false
is_one_of a (x ∷ xs) = a == x || is_one_of a xs

rds_passes :
    (p : Product) (family : String)
    → is_one_of family families ≡ true
    → p.service ≡ "AmazonRDS"
    → p.family ≡ family
    → minimal_filter p ≡ true
unfolding minimal_filter minimal_filter_rds
rds_passes p family k s f = rw s (rw f (ground (arith, k)))

-- The query asks for a family of databases.
abbrev Kept : {D : Type 0} → ComponentQuery D → Type 0
Kept q =
    (family : String) × (is_one_of family families ≡ true)
    × ((f : ProductFilter) × (q.product_filter ≡ some f)
        × (f.service ≡ some "AmazonRDS")
        × (f.family ≡ some family))

-- So do all of them.
data AllKept {D : Type 0} : List (ComponentQuery D) → Type 0 where
  nothing : AllKept []
  keeps :
      {q : ComponentQuery D} {qs : List (ComponentQuery D)} → Kept q → AllKept qs → AllKept (q ∷ qs)

module _ {D : Type 0} where
  on_if :
      (c : Bool) {xs ys : List (ComponentQuery D)}
      → AllKept xs
      → AllKept ys
      → AllKept (if c then xs else ys)
  on_if true h g = h
  on_if false h g = g

  on_either : (c : Bool) (x y : ComponentQuery D) → Kept x → Kept y → Kept (if c then x else y)
  on_either true x y h g = h
  on_either false x y h g = g

  append-AllKept : {xs ys : List (ComponentQuery D)} → AllKept xs → AllKept ys → AllKept (xs ++ ys)
  append-AllKept nothing g = g
  append-AllKept (keeps p h) g = keeps p (append-AllKept h g)

  one : {q : ComponentQuery D} → Kept q → AllKept (q ∷ [])
  one p = keeps p nothing

  matches_any-AllKept :
      (regex_match : String → String → Bool) (qs : List (ComponentQuery D)) (p : Product)
      → AllKept qs
      → matches_any regex_match qs p ≡ true
      → minimal_filter p ≡ true
  matches_any-AllKept regex_match [] p nothing h = absurd (false≢true h)
  matches_any-AllKept regex_match (q ∷ qs) p (keeps (family, k, asked) g) h =
      elim (matches_any_cons regex_match q qs p h) [
        | inl e ↦
            let (s, f) = matches_query-AsksFor regex_match q p "AmazonRDS" family asked e in
            rds_passes p family k s f
        | inr e ↦ matches_any-AllKept regex_match qs p g e
      ]

serverless_family :
    (c : Bool) → is_one_of (if c then "ServerlessV2" else "Serverless") families ≡ true
serverless_family true = refl
serverless_family false = refl

module _ {D : Type 0} ⦃d : Decimal D⦄ where
  db_instance-AllKept : (v : DbInstance D) → AllKept (db_instance_components v)
  unfolding db_instance_components
  db_instance-AllKept v =
      keeps (_, refl, (_, refl, refl, refl))
        (keeps (_, refl, (_, refl, refl, refl))
          (on_if (has_prefix "io" v.storage_type) (one (_, refl, (_, refl, refl, refl))) nothing))

module _ {D : Type 0} ⦃d : Decimal D⦄ (greater : D → D → Bool) where
  cluster_instance-AllKept :
      (v : RdsClusterInstance D) → AllKept (rds_cluster_instance_components greater v)
  unfolding rds_cluster_instance_components serverless_v2_component rds_cluster_instance_component
  cluster_instance-AllKept v =
      let engine =
        if v.engine == "aurora-postgresql" then "Aurora PostgreSQL" else "Aurora MySQL" in
      keeps
        (on_either v.is_serverless (serverless_v2_component v engine)
          (rds_cluster_instance_component v engine) (_, refl, (_, refl, refl, refl))
          (_, refl, (_, refl, refl, refl)))
        (on_if v.performance_insights_enabled
          (on_if (greater v.performance_insights_retention_period (d.of_int 7))
            (keeps (_, refl, (_, refl, refl, refl)) (one (_, refl, (_, refl, refl, refl))))
            (one (_, refl, (_, refl, refl, refl))))
          nothing)

  rds_cluster-AllKept :
      (sub : D → D → D) (v : RdsCluster D) → AllKept (rds_cluster_components greater sub v)
  unfolding rds_cluster_components aurora_serverless_component
  rds_cluster-AllKept sub v =
      keeps (_, refl, (_, refl, refl, refl))
        (keeps (_, refl, (_, refl, refl, refl))
          (append-AllKept
            (on_if (v.is_serverless)
              (one (_, serverless_family (v.serverless_version == "v2"), (_, refl, refl, refl)))
              nothing)
            (append-AllKept
              (on_if (greater v.backup_retention_period (d.of_int 1))
                (one (_, refl, (_, refl, refl, refl))) nothing)
              (append-AllKept
                (on_if (not v.is_serverless && not (contains "postgresql" v.engine))
                  (one (_, refl, (_, refl, refl, refl))) nothing)
                (one (_, refl, (_, refl, refl, refl)))))))

  -- Every product that a component of a database, of a cluster or of a cluster's instance asks for
  -- passes MinimalFilter.
  pub databases-minimal_filter :
      (regex_match : String → String → Bool) (sub : D → D → D) (store : DbInstance D)
      (cluster : RdsCluster D) (member : RdsClusterInstance D) (p : Product)
      → matches_any regex_match
          (db_instance_components store
            ++ (rds_cluster_components greater sub cluster
                ++ rds_cluster_instance_components greater member))
          p
        ≡ true
      → minimal_filter p ≡ true
  databases-minimal_filter regex_match sub store cluster member p h =
      matches_any-AllKept regex_match _ p
        (append-AllKept (db_instance-AllKept store)
          (append-AllKept (rds_cluster-AllKept sub cluster) (cluster_instance-AllKept member)))
        h
