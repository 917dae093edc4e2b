-- ===== src/Aws/RdsClusterInstance.antt =====
-- aws/terraform/rds_cluster_instance.go: instances of RDS clusters. Decoding the values is mapstructure's;
-- `greater` is `decimal.Decimal`'s `Cmp(…) > 0`, and `equal_fold` is `strings.EqualFold`.
use terracost.Prelude.{String, Bool, true, false, ◌||◌, List, [], ◌∷◌, ◌==◌, if◌then◌else◌}
use terracost.Decimal.{Decimal}
use terracost.Query.{ComponentQuery}
use terracost.Aws.Resources.{
  Float, Provider, by_value, by_regex, product_of, priced_by, on_demand_from,
}

pub record RdsClusterInstance (D : Type 0) : Type 0 where
  pub provider : Provider
  pub region : String
  pub engine : String
  pub engine_version : String
  pub instance_class : String
  pub storage_type : String
  pub performance_insights_enabled : Bool
  pub performance_insights_retention_period : D
  pub is_serverless : Bool
  pub is_io_optimized : Bool
  pub monthly_additional_performance_insights_requests : D
  pub capacity_units_per_hr : D

pub record RdsClusterInstanceValues (F : Type 0) : Type 0 where
  pub cluster_identifier : String
  pub instance_class : String
  pub storage_type : String
  pub engine : String
  pub engine_version : String
  pub performance_insights_enabled : Bool
  pub performance_insights_retention_period : F
  pub monthly_additional_performance_insights_requests : F
  pub capacity_units_per_hr : F

module _ {D F : Type 0} ⦃f : Float F D⦄ (equal_fold : String → String → Bool) where
  -- the instance before the `switch` on its storage type, which nothing sets
  abbrev before_switch : Provider → RdsClusterInstanceValues F → RdsClusterInstance D
  before_switch p vals = record {
    provider = p;
    region = p.region;
    engine = vals.engine;
    engine_version = vals.engine_version;
    instance_class = vals.instance_class;
    storage_type = "";
    performance_insights_enabled = vals.performance_insights_enabled;
    performance_insights_retention_period = f.from_float vals.performance_insights_retention_period;
    is_serverless = equal_fold vals.instance_class "db.serverless";
    is_io_optimized = false;
    monthly_additional_performance_insights_requests =
        f.from_float vals.monthly_additional_performance_insights_requests;
    capacity_units_per_hr = f.from_float vals.capacity_units_per_hr;
  }

  -- `newRDSClusterInstance`
  unfoldable pub new_rds_cluster_instance :
      Provider → RdsClusterInstanceValues F → RdsClusterInstance D
  new_rds_cluster_instance p vals =
      let v = before_switch p vals in
      record v { is_io_optimized = v.storage_type == "aurora-iopt1" || v.is_io_optimized }

module _ {D : Type 0} ⦃d : Decimal D⦄ where
  -- `rdsClusterInstanceServerlessV2CostComponent`
  unfoldable pub serverless_v2_component : RdsClusterInstance D → String → ComponentQuery D
  serverless_v2_component v database_engine =
      let name =
        if v.is_io_optimized
        then "Aurora serverless v2 (I/O-optimized)"
        else "Aurora serverless v2" in
      let usage_type =
        if v.is_io_optimized
        then ".*Aurora:ServerlessV2IOOptimizedUsage$"
        else ".*Aurora:ServerlessV2Usage$" in
      record {
        name = name;
        hourly_quantity = v.capacity_units_per_hr;
        monthly_quantity = d.blank;
        unit = "ACU-Hr";
        details = name ∷ [];
        usage = true;
        product_filter =
            product_of v.provider.key "AmazonRDS" "ServerlessV2" v.region
              (by_value "DatabaseEngine" database_engine ∷ by_regex "UsageType" usage_type ∷ []);
        price_filter = priced_by "ACU-Hr" (on_demand_from "0");
      }

  -- `rdsClusterInstanceCostComponent`
  unfoldable pub rds_cluster_instance_component : RdsClusterInstance D → String → ComponentQuery D
  rds_cluster_instance_component v database_engine = record {
    name = "Database instance";
    hourly_quantity = d.of_int 1;
    monthly_quantity = d.blank;
    unit = "Hrs";
    details = "instance" ∷ [];
    usage = false;
    product_filter = product_of v.provider.key "AmazonRDS" "Database Instance" v.region (
        by_value "InstanceType" v.instance_class
        ∷ by_value "DatabaseEngine" database_engine
        ∷ by_regex "UsageType"
            (if v.is_io_optimized then ".*InstanceUsageIOOptimized:.*" else ".*InstanceUsage:.*")
        ∷ []);
    price_filter = priced_by "Hrs" (on_demand_from "0");
  }

  -- `rdsClusterInstanceInsightsLongTermRetentionComponent`
  unfoldable pub long_term_retention_component : RdsClusterInstance D → String → ComponentQuery D
  long_term_retention_component v database_engine = record {
    name = "Performance Insights Long Term Retention (serverless)";
    hourly_quantity = d.blank;
    monthly_quantity = v.capacity_units_per_hr;
    unit = "ACU-Months";
    details = "Insights" ∷ [];
    usage = true;
    product_filter = product_of v.provider.key "AmazonRDS" "Performance Insights" v.region (
        by_value "DatabaseEngine" database_engine
        ∷ by_regex "UsageType" ".*PI_LTR_FMR:Serverless$"
        ∷ []);
    price_filter = priced_by "ACU-Months" (on_demand_from "0");
  }

  -- `rdsClusterInstanceInsightsAPIRequestComponent`
  unfoldable pub insights_api_component : RdsClusterInstance D → ComponentQuery D
  insights_api_component v = record {
    name = "Performance Insights API";
    hourly_quantity = d.blank;
    monthly_quantity = v.monthly_additional_performance_insights_requests;
    unit = "API Calls";
    details = "Requests" ∷ [];
    usage = true;
    product_filter =
        product_of v.provider.key "AmazonRDS" "Performance Insights" v.region
          (by_regex "UsageType" ".*PI_API$" ∷ []);
    price_filter = priced_by "API Calls" (on_demand_from "0");
  }

module _ {D : Type 0} ⦃d : Decimal D⦄ (greater : D → D → Bool) where
  -- `Components`
  unfoldable pub rds_cluster_instance_components : RdsClusterInstance D → List (ComponentQuery D)
  unfolding serverless_v2_component rds_cluster_instance_component long_term_retention_component
      insights_api_component
  rds_cluster_instance_components v =
      let database_engine =
        if v.engine == "aurora-postgresql" then "Aurora PostgreSQL" else "Aurora MySQL" in
      (if v.is_serverless
        then serverless_v2_component v database_engine
        else rds_cluster_instance_component v database_engine)
      ∷ (if v.performance_insights_enabled
          then (if greater v.performance_insights_retention_period (d.of_int 7)
              then long_term_retention_component v database_engine ∷ insights_api_component v ∷ []
              else insights_api_component v ∷ [])
          else [])
