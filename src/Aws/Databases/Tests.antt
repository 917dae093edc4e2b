-- ===== src/Aws/Databases/Tests.antt =====
-- The export of a snapshot, which a cluster asks for.
use terracost.Prelude.{String, ◌≡◌, refl, Bool, true, false, none, some, [], ◌∷◌, ◌++◌}
use terracost.Decimal.{Whole, whole_decimal, above, minus}
use terracost.Dict.{lookup}
use terracost.Query.{Product}
use terracost.Catalog.{matches_any}
use terracost.Aws.Filter.{minimal_filter}
use terracost.Aws.Resources.{Provider}
use terracost.Aws.DbInstance.{DbInstance, db_instance_components}
use terracost.Aws.RdsCluster.{RdsCluster, rds_cluster_components}
use terracost.Aws.RdsClusterInstance.{RdsClusterInstance, rds_cluster_instance_components}
use terracost.Aws.Databases.{databases-minimal_filter}

abbrev paris : Provider
paris = record { key = "aws"; region = "eu-west-3" }

abbrev any_match : String → String → Bool
any_match _ _ = true

abbrev store : DbInstance Whole
store = record {
  provider_key = "aws";
  region = "eu-west-3";
  instance_type = "db.t3.small";
  database_engine = "PostgreSQL";
  database_edition = "";
  license_model = "";
  deployment_option = "Single-AZ";
  storage_type = "gp2";
  allocated_storage = some 100;
  storage_iops = none;
}

abbrev cluster : RdsCluster Whole
cluster = record {
  provider = paris;
  region = "eu-west-3";
  engine_mode = "provisioned";
  engine = "aurora-mysql";
  storage_type = "";
  backup_retention_period = some 7;
  is_serverless = false;
  serverless_version = "";
  write_requests_per_sec = some 10;
  read_requests_per_sec = some 20;
  change_records_per_statement = some 2;
  storage_gb = some 100;
  average_statements_per_hr = some 1000;
  backtrack_window_hrs = some 24;
  snapshot_export_size_gb = some 50;
  capacity_units_per_hr = none;
  backup_snapshot_size_gb = some 200;
}

abbrev member : RdsClusterInstance Whole
member = record {
  provider = paris;
  region = "eu-west-3";
  engine = "aurora-mysql";
  engine_version = "";
  instance_class = "db.r5.large";
  storage_type = "";
  performance_insights_enabled = true;
  performance_insights_retention_period = some 731;
  is_serverless = false;
  is_io_optimized = false;
  monthly_additional_performance_insights_requests = some 10000;
  capacity_units_per_hr = none;
}

abbrev snapshot_export : Product
snapshot_export = record {
  id = 1;
  provider = "aws";
  sku = "X";
  service = "AmazonRDS";
  family = "System Operation";
  location = "eu-west-3";
  attributes =
      some
        (("DatabaseEngine", "Aurora MySQL") ∷ ("UsageType", "EUW3-Aurora:SnapshotExportToS3") ∷ []);
}

snapshot_export_match :
    matches_any any_match
      (db_instance_components store
        ++ (rds_cluster_components above minus cluster
            ++ rds_cluster_instance_components above member))
      snapshot_export
    ≡ true
unfolding db_instance_components rds_cluster_components rds_cluster_instance_components lookup
snapshot_export_match = refl

databases-minimal_filter_example : minimal_filter snapshot_export ≡ true
databases-minimal_filter_example =
    databases-minimal_filter above any_match minus store cluster member snapshot_export
      snapshot_export_match
