-- ===== src/Aws/ElastiCache.antt =====
-- aws/terraform/elasticache_cluster.go and elasticache_replication_group.go. Decoding the values is
-- mapstructure's; `greater` and `string` are `decimal.Decimal`'s `GreaterThan` and `String`, and `integer`
-- is `NewFromInt` at a value of the plan.
use terracost.Prelude.{
  String, Bool, false, not, ◌&&◌, none, some, List, [], ◌∷◌, ◌==◌, if◌then◌else◌,
}
use terracost.Decimal.{Decimal}
use terracost.Dict.{Dict, lookup}
use terracost.Query.{ComponentQuery}
use terracost.Aws.Text.{has_prefix}
use terracost.Aws.Resources.{Provider, zone_region, by_value, product_of, priced_by, on_demand}

pub record ElastiCache (D : Type 0) : Type 0 where
  pub provider_key : String
  pub region : String
  pub instance_type : String
  pub cache_engine : String
  pub num_cache_nodes : D
  pub replication_group_id : String
  pub snapshot_retention_limit : D

-- `I` is Go's `int64`
pub record ElastiCacheValues (I : Type 0) : Type 0 where
  pub node_type : String
  pub availability_zone : String
  pub engine : String
  pub replication_group_id : String
  pub num_cache_nodes : I
  pub snapshot_retention_limit : I

-- `cacheTypeMap`
abbrev pub cache_types : Dict String
cache_types = ("memcached", "Memcached") ∷ ("redis", "Redis") ∷ []

abbrev cache_type : String → String
cache_type engine = elim (lookup engine cache_types) [ none ↦ "" | some name ↦ name ]

module _ {D I : Type 0} (integer : I → D) where
  -- `newElastiCache`
  unfoldable pub new_elasti_cache : Provider → ElastiCacheValues I → ElastiCache D
  new_elasti_cache p vals = record {
    provider_key = p.key;
    region = zone_region p vals.availability_zone;
    instance_type = vals.node_type;
    cache_engine = cache_type vals.engine;
    num_cache_nodes = integer vals.num_cache_nodes;
    replication_group_id = vals.replication_group_id;
    snapshot_retention_limit = integer vals.snapshot_retention_limit;
  }

module _ {D : Type 0} ⦃d : Decimal D⦄ where
  -- `elastiCacheInstanceComponent`
  unfoldable pub elasti_cache_instance_component : ElastiCache D → ComponentQuery D
  elasti_cache_instance_component inst = record {
    name = "Cache instance";
    hourly_quantity = inst.num_cache_nodes;
    monthly_quantity = d.blank;
    unit = "";
    details = inst.cache_engine ∷ [];
    usage = false;
    product_filter = product_of inst.provider_key "AmazonElastiCache" "Cache Instance" inst.region (
        by_value "InstanceType" inst.instance_type ∷ by_value "CacheEngine" inst.cache_engine ∷ []);
    price_filter = priced_by "Hrs" on_demand;
  }

module _ {D : Type 0} ⦃d : Decimal D⦄ (greater : D → D → Bool) (string : D → String) where
  -- `backupStorageComponent`
  unfoldable pub backup_storage_component : ElastiCache D → ComponentQuery D
  backup_storage_component inst =
      let total = d.mul (d.of_int 0) inst.snapshot_retention_limit in
      record {
        name = "Backup storage";
        hourly_quantity = d.blank;
        monthly_quantity = total;
        unit = "";
        details = string total ∷ [];
        usage = false;
        product_filter =
            product_of inst.provider_key "AmazonElastiCache" "Storage Snapshot" inst.region [];
        price_filter = priced_by "GB-Mo" on_demand;
      }

  -- the components, where no replication group stands for them
  abbrev cache_components : ElastiCache D → List (ComponentQuery D)
  cache_components inst =
      elasti_cache_instance_component inst
      ∷ (if greater inst.snapshot_retention_limit (d.of_int 0)
            && has_prefix "Redis" inst.cache_engine
          then backup_storage_component inst ∷ []
          else [])

  -- `Components`
  unfoldable pub elasti_cache_components : ElastiCache D → List (ComponentQuery D)
  unfolding elasti_cache_instance_component backup_storage_component
  elasti_cache_components inst =
      if not (inst.replication_group_id == "") then [] else cache_components inst

pub record ElastiCacheReplication (D : Type 0) : Type 0 where
  pub provider_key : String
  pub region : String
  pub instance_type : String
  pub cache_engine : String
  pub num_cache_nodes : D
  pub snapshot_retention_limit : D
  pub global_replication_group_id : String

pub record ElastiCacheReplicationValues (I : Type 0) : Type 0 where
  pub node_type : String
  pub availability_zones : List String
  pub engine : String
  pub num_node_groups : I
  pub replicas_per_node_group : I
  -- the node groups and the replicas of each block
  pub cluster_mode : List (I × I)
  pub number_cache_clusters : I
  pub snapshot_retention_limit : I
  pub global_replication_group_id : String

-- the region of the first zone, where it is valid
abbrev first_region : Provider → List String → String
first_region p [] = p.region
first_region p (zone ∷ _) = zone_region p zone

-- `positive` is `> 0`
module _ {D I : Type 0} ⦃d : Decimal D⦄ (integer : I → D) (positive : I → Bool) where
  abbrev cache_nodes : I → I → D
  cache_nodes groups replicas = d.add (d.mul (integer groups) (integer replicas)) (integer groups)

  abbrev replication_nodes : ElastiCacheReplicationValues I → List (I × I) → D
  replication_nodes vals ((groups, replicas) ∷ _) = cache_nodes groups replicas
  replication_nodes vals [] =
      if positive vals.num_node_groups
      then cache_nodes vals.num_node_groups vals.replicas_per_node_group
      else integer vals.number_cache_clusters

  -- `newElastiCacheReplication`
  unfoldable pub new_elasti_cache_replication :
      Provider → ElastiCacheReplicationValues I → ElastiCacheReplication D
  new_elasti_cache_replication p vals = record {
    provider_key = p.key;
    region = first_region p vals.availability_zones;
    instance_type = vals.node_type;
    cache_engine = if not (vals.engine == "") then cache_type vals.engine else "Redis";
    num_cache_nodes = replication_nodes vals vals.cluster_mode;
    snapshot_retention_limit = integer vals.snapshot_retention_limit;
    global_replication_group_id = vals.global_replication_group_id;
  }

-- the cluster that the queries of a replication group are made of
abbrev pub cluster_of : {D : Type 0} → ElastiCacheReplication D → ElastiCache D
cluster_of inst = record {
  provider_key = inst.provider_key;
  region = inst.region;
  instance_type = inst.instance_type;
  cache_engine = inst.cache_engine;
  num_cache_nodes = inst.num_cache_nodes;
  replication_group_id = "";
  snapshot_retention_limit = inst.snapshot_retention_limit;
}

module _ {D : Type 0} ⦃d : Decimal D⦄ (greater : D → D → Bool) (string : D → String) where
  -- its `Components`
  unfoldable pub elasti_cache_replication_components :
      ElastiCacheReplication D → List (ComponentQuery D)
  unfolding elasti_cache_instance_component backup_storage_component
  elasti_cache_replication_components inst =
      if not (inst.global_replication_group_id == "")
      then []
      else cache_components greater string (cluster_of inst)
