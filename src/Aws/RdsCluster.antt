-- ===== src/Aws/RdsCluster.antt =====
-- aws/terraform/rds_cluster.go: Aurora clusters. Decoding the values is mapstructure's; `greater` and `sub`
-- are `decimal.Decimal`'s `GreaterThan` and `Sub`, and `above_one` is `> 1` on `float64`.
use terracost.Prelude.{
  String, Bool, true, not, ◌&&◌, ◌||◌, List, [], ◌∷◌, ◌++◌, ◌==◌, if◌then◌else◌,
}
use terracost.Decimal.{Decimal}
use terracost.Query.{ComponentQuery, AttributeFilter}
use terracost.Aws.Text.{◌<>◌, contains}
use terracost.Aws.Resources.{
  Float, Provider, by_value, by_regex, product_of, priced_by, on_demand_from,
}

pub record RdsCluster (D : Type 0) : Type 0 where
  pub provider : Provider
  pub region : String
  pub engine_mode : String
  pub engine : String
  pub storage_type : String
  pub backup_retention_period : D
  pub is_serverless : Bool
  pub serverless_version : String
  pub write_requests_per_sec : D
  pub read_requests_per_sec : D
  pub change_records_per_statement : D
  pub storage_gb : D
  pub average_statements_per_hr : D
  pub backtrack_window_hrs : D
  pub snapshot_export_size_gb : D
  pub capacity_units_per_hr : D
  pub backup_snapshot_size_gb : D

pub record RdsClusterValues (F : Type 0) : Type 0 where
  pub engine_mode : String
  pub engine : String
  pub storage_type : String
  pub backup_retention_period : F
  -- the `min_capacity` of each block
  pub serverlessv2_scaling_configuration : List F
  pub write_requests_per_sec : F
  pub read_requests_per_sec : F
  pub change_records_per_statement : F
  pub storage_gb : F
  pub average_statements_per_hr : F
  pub backtrack_window_hrs : F
  pub snapshot_export_size_gb : F
  pub capacity_units_per_hr : F
  pub backup_snapshot_size_gb : F

-- whether the cluster is serverless, and its version
abbrev serverless_kind : {F : Type 0} → List F → String → Bool × String
serverless_kind [] engine_mode = (engine_mode == "serverless", "v1")
serverless_kind (_ ∷ _) engine_mode = (true, "v2")

module _ {D F : Type 0} ⦃d : Decimal D⦄ ⦃f : Float F D⦄ (above_one : F → Bool) where
  -- `newRDSCluster`
  unfoldable pub new_rds_cluster : Provider → RdsClusterValues F → RdsCluster D
  new_rds_cluster p vals =
      let engine_mode = if not (vals.engine_mode == "") then vals.engine_mode else "provisioned" in
      let kind = serverless_kind vals.serverlessv2_scaling_configuration engine_mode in
      record {
        provider = p;
        region = p.region;
        engine_mode = engine_mode;
        engine = vals.engine;
        storage_type = vals.storage_type;
        backup_retention_period =
            if above_one vals.backup_retention_period
            then f.from_float vals.backup_retention_period
            else d.of_int 1;
        is_serverless = kind.0;
        serverless_version = kind.1;
        write_requests_per_sec = f.from_float vals.write_requests_per_sec;
        read_requests_per_sec = f.from_float vals.read_requests_per_sec;
        change_records_per_statement = f.from_float vals.change_records_per_statement;
        storage_gb = f.from_float vals.storage_gb;
        average_statements_per_hr = f.from_float vals.average_statements_per_hr;
        backtrack_window_hrs = f.from_float vals.backtrack_window_hrs;
        snapshot_export_size_gb = f.from_float vals.snapshot_export_size_gb;
        capacity_units_per_hr = f.from_float vals.capacity_units_per_hr;
        backup_snapshot_size_gb = f.from_float vals.backup_snapshot_size_gb;
      }

module _ {D : Type 0} ⦃d : Decimal D⦄ where
  -- a component of a cluster, which all have usage and a price from 0
  abbrev cluster_query :
      RdsCluster D → String → D → String → String → String → List AttributeFilter → ComponentQuery D
  cluster_query v name quantity unit detail family filters = record {
    name = name;
    hourly_quantity = d.blank;
    monthly_quantity = quantity;
    unit = unit;
    details = detail ∷ [];
    usage = true;
    product_filter = product_of v.provider.key "AmazonRDS" family v.region filters;
    price_filter = priced_by unit (on_demand_from "0");
  }

  -- `rdsClusterAuroraServerlessComponent`
  unfoldable pub aurora_serverless_component : RdsCluster D → String → Bool → ComponentQuery D
  aurora_serverless_component v database_engine is_io_optimized =
      let is_v2 = v.serverless_version == "v2" in
      let family = if is_v2 then "ServerlessV2" else "Serverless" in
      let usage_type =
        if is_v2
        then (if is_io_optimized
            then ".*Aurora:ServerlessV2IOOptimizedUsage$"
            else ".*Aurora:ServerlessV2Usage$")
        else ".*Aurora:ServerlessUsage$" in
      cluster_query v ("Aurora " <> family) v.capacity_units_per_hr "ACU-Hr" database_engine family
        (by_value "DatabaseEngine" database_engine ∷ by_regex "UsageType" usage_type ∷ [])

  -- `rdsClusterAuroraStorageComponent`
  unfoldable pub aurora_storage_components : RdsCluster D → String → Bool → List (ComponentQuery D)
  aurora_storage_components v database_engine is_io_optimized =
      let is_postgresql = database_engine == "Aurora PostgreSQL" in
      let name = if is_io_optimized then "Storage (I/O-optimized)" else "Storage" in
      let usage_type =
        if is_io_optimized
        then ".*Aurora:IO-OptimizedStorageUsage$"
        else ".*Aurora:StorageUsage$" in
      let storage_engine = if is_io_optimized || is_postgresql then database_engine else "Any" in
      let request_engine =
        if storage_engine == "Aurora PostgreSQL" then database_engine else "Any" in
      let per_second = d.add v.write_requests_per_sec v.read_requests_per_sec in
      let monthly = d.mul (d.mul (d.mul per_second (d.of_int 730)) (d.of_int 60)) (d.of_int 60) in
      cluster_query v name v.storage_gb "GB-Mo" name "Database Storage"
        (by_regex "DatabaseEngine" storage_engine ∷ by_regex "UsageType" usage_type ∷ [])
      ∷ cluster_query v "I/O requests" monthly "IOs" "I/O requests" "System Operation" (
          by_regex "DatabaseEngine" request_engine
          ∷ by_regex "UsageType" ".*Aurora:StorageIOUsage$"
          ∷ [])
      ∷ []

  -- `rdsClusterAuroraBackupComponent`
  unfoldable pub aurora_backup_component : RdsCluster D → D → String → ComponentQuery D
  aurora_backup_component v total_backup_storage_gb database_engine =
      cluster_query v "Backup storage" total_backup_storage_gb "GB-Mo" database_engine
        "Storage Snapshot"
        (by_value "DatabaseEngine" database_engine
          ∷ by_regex "UsageType" ".*Aurora:BackupUsage$"
          ∷ [])

  -- `rdsClusterAuroraBacktrackComponent`
  unfoldable pub aurora_backtrack_component : RdsCluster D → D → ComponentQuery D
  aurora_backtrack_component v total_backtrack_change_records =
      cluster_query v "Backtrack" total_backtrack_change_records "CR-Hr" "Backtrack"
        "System Operation" (by_regex "UsageType" ".*Aurora:BacktrackUsage$" ∷ [])

  -- `rdsClusterAuroraSnapshotExportComponent`
  unfoldable pub aurora_snapshot_export_component : RdsCluster D → String → ComponentQuery D
  aurora_snapshot_export_component v database_engine =
      cluster_query v "Snapshot export" v.snapshot_export_size_gb "GB" "Snapshot" "System Operation"
        (by_value "DatabaseEngine" database_engine
          ∷ by_regex "UsageType" ".*Aurora:SnapshotExportToS3$"
          ∷ [])

module _ {D : Type 0} ⦃d : Decimal D⦄ (greater : D → D → Bool) (sub : D → D → D) where
  abbrev backup_components : RdsCluster D → String → List (ComponentQuery D)
  backup_components v database_engine =
      if greater v.backup_retention_period (d.of_int 1)
      then aurora_backup_component v
          (sub (d.mul v.backup_snapshot_size_gb v.backup_retention_period)
            v.backup_snapshot_size_gb)
          database_engine
        ∷ []
      else []

  abbrev backtrack_components : RdsCluster D → List (ComponentQuery D)
  backtrack_components v =
      if not v.is_serverless && not (contains "postgresql" v.engine)
      then aurora_backtrack_component v (
          d.mul
            (d.mul (d.mul v.average_statements_per_hr (d.of_int 730))
              v.change_records_per_statement)
            v.backtrack_window_hrs)
        ∷ []
      else []

  -- `Components`
  unfoldable pub rds_cluster_components : RdsCluster D → List (ComponentQuery D)
  unfolding aurora_serverless_component aurora_storage_components aurora_backup_component
      aurora_backtrack_component aurora_snapshot_export_component
  rds_cluster_components v =
      let is_io_optimized = v.storage_type == "aurora-iopt1" in
      let database_engine =
        if v.engine == "aurora-postgresql" then "Aurora PostgreSQL" else "Aurora MySQL" in
      aurora_storage_components v database_engine is_io_optimized
      ++ ((if v.is_serverless
            then aurora_serverless_component v database_engine is_io_optimized ∷ []
            else [])
          ++ (backup_components v database_engine
              ++ (backtrack_components v
                  ++ (aurora_snapshot_export_component v database_engine ∷ []))))
