-- ===== src/Aws/Cloudwatch.antt =====
-- aws/terraform/cloudwatch_metric_alarm.go and cloudwatch_log_group.go. Decoding the values is
-- mapstructure's; `less` and `div` are `decimal.Decimal`'s `LessThan` (and `Cmp(…) < 0`) and `Div`, and
-- `integer` is `NewFromInt` at a count.
use terracost.Prelude.{
  ℕ, String, Bool, true, ◌&&◌, ◌||◌, List, [], ◌∷◌, ◌++◌, ◌==◌, eqb, if◌then◌else◌, length,
}
use terracost.Decimal.{Decimal}
use terracost.Query.{ComponentQuery}
use terracost.Aws.Resources.{
  Float, Provider, by_value, by_regex, product_of, priced_by, on_demand_from,
}

pub record CloudwatchMetricAlarm (D : Type 0) : Type 0 where
  pub provider : Provider
  pub region : String
  pub comparison_operator : String
  pub metrics_count : D
  pub period : D

pub record CloudwatchMetricAlarmValues (F : Type 0) : Type 0 where
  pub comparison_operator : String
  pub period : F
  -- the periods of the metrics of each query
  pub metric_query : List (List F)

module _ {D F : Type 0} ⦃d : Decimal D⦄ ⦃f : Float F D⦄ (less : D → D → Bool) where
  -- the highest of a period and the positive ones of a list
  abbrev highest : D → List F → D
  highest period [] = period
  highest period (x ∷ xs) =
      highest (if f.positive x && less period (f.from_float x) then f.from_float x else period) xs

  abbrev metrics_of : List (List F) → List F
  metrics_of [] = []
  metrics_of (metrics ∷ queries) = metrics ++ metrics_of queries

module _ {D F : Type 0} ⦃d : Decimal D⦄ ⦃f : Float F D⦄ (less : D → D → Bool)
    (integer : ℕ → D) where
  -- `newCloudwatchMetricAlarm`
  unfoldable pub new_cloudwatch_metric_alarm :
      Provider → CloudwatchMetricAlarmValues F → CloudwatchMetricAlarm D
  new_cloudwatch_metric_alarm p vals =
      let metrics = metrics_of less vals.metric_query in
      let period = if f.positive vals.period then f.from_float vals.period else d.of_int 60 in
      record {
        provider = p;
        region = p.region;
        comparison_operator = vals.comparison_operator;
        metrics_count = if eqb (length metrics) 0 then d.of_int 1 else integer (length metrics);
        period = highest less period metrics;
      }

abbrev is_anomaly : String → Bool
is_anomaly operator =
    operator == "LessThanLowerOrGreaterThanUpperThreshold"
    || operator == "LessThanLowerThreshold"
    || operator == "GreaterThanUpperThreshold"

-- the name, whose suffix for anomalies is set only after the name of a standard resolution is made
abbrev pub alarm_name : Bool → Bool → String
alarm_name high anomaly =
    if high
    then (if anomaly then "High resolution anomaly detection" else "High resolution")
    else "Standard resolution"

module _ {D : Type 0} ⦃d : Decimal D⦄ (less : D → D → Bool) (div : D → D → D) where
  -- `cloudwatchMetricAlarmComponent`
  unfoldable pub cloudwatch_metric_alarm_component : CloudwatchMetricAlarm D → ComponentQuery D
  cloudwatch_metric_alarm_component v =
      let anomaly = is_anomaly v.comparison_operator in
      let high = less (div v.period (d.of_int 60)) (d.of_int 1) in
      let alarm_type = if high then "High Resolution" else "Standard" in
      record {
        name = alarm_name high anomaly;
        hourly_quantity = d.blank;
        monthly_quantity = if anomaly then d.mul v.metrics_count (d.of_int 3) else v.metrics_count;
        unit = if anomaly then "Alarms" else "alarm metrics";
        details = alarm_name high anomaly ∷ alarm_type ∷ [];
        usage = true;
        product_filter =
            product_of v.provider.key "AmazonCloudWatch" "Alarm" v.region
              (by_regex "UsageType" ".*AlarmMonitorUsage" ∷ by_value "AlarmType" alarm_type ∷ []);
        price_filter = priced_by "Alarms" (on_demand_from "0");
      }

  -- `Components`
  unfoldable pub cloudwatch_metric_alarm_components :
      CloudwatchMetricAlarm D → List (ComponentQuery D)
  unfolding cloudwatch_metric_alarm_component
  cloudwatch_metric_alarm_components v = cloudwatch_metric_alarm_component v ∷ []

pub record CloudwatchLogGroup (D : Type 0) : Type 0 where
  pub provider : Provider
  pub region : String
  pub monthly_data_ingested_gb : D
  pub storage_gb : D
  pub monthly_data_scanned_insights_gb : D

pub record CloudwatchLogGroupValues (F : Type 0) : Type 0 where
  pub monthly_data_ingested_gb : F
  pub storage_gb : F
  pub monthly_data_scanned_insights_gb : F

module _ {D F : Type 0} ⦃f : Float F D⦄ where
  -- `newCloudwatchLogGroup`
  unfoldable pub new_cloudwatch_log_group :
      Provider → CloudwatchLogGroupValues F → CloudwatchLogGroup D
  new_cloudwatch_log_group p vals = record {
    provider = p;
    region = p.region;
    monthly_data_ingested_gb = f.from_float vals.monthly_data_ingested_gb;
    storage_gb = f.from_float vals.storage_gb;
    monthly_data_scanned_insights_gb = f.from_float vals.monthly_data_scanned_insights_gb;
  }

module _ {D : Type 0} ⦃d : Decimal D⦄ where
  -- `cloudwatchLogGroupComponent`
  unfoldable pub cloudwatch_log_group_component : CloudwatchLogGroup D → ComponentQuery D
  cloudwatch_log_group_component v = record {
    name = "Data ingested";
    hourly_quantity = d.blank;
    monthly_quantity = v.monthly_data_ingested_gb;
    unit = "GB";
    details = "Data ingested" ∷ [];
    usage = true;
    product_filter =
        product_of v.provider.key "AmazonCloudWatch" "Data Payload" v.region
          (by_regex "UsageType" ".*-DataProcessing-Bytes" ∷ []);
    price_filter = priced_by "GB" (on_demand_from "0");
  }

  -- `cloudwatchLogGroupArchivalStorageComponent`
  unfoldable pub archival_storage_component : CloudwatchLogGroup D → ComponentQuery D
  archival_storage_component v = record {
    name = "Archival Storage";
    hourly_quantity = d.blank;
    monthly_quantity = v.storage_gb;
    unit = "GB-Mo";
    details = "Archival Storage" ∷ [];
    usage = true;
    product_filter =
        product_of v.provider.key "AmazonCloudWatch" "Storage Snapshot" v.region
          (by_regex "UsageType" ".*-TimedStorage-ByteHrs" ∷ []);
    price_filter = priced_by "GB-Mo" (on_demand_from "0");
  }

  -- `cloudwatchLogGroupInsightsScannedComponent`
  unfoldable pub insights_scanned_component : CloudwatchLogGroup D → ComponentQuery D
  insights_scanned_component v = record {
    name = "Insights queries data scanned";
    hourly_quantity = d.blank;
    monthly_quantity = v.monthly_data_scanned_insights_gb;
    unit = "GB";
    details = "Insights queries" ∷ "data scanned" ∷ "Storage" ∷ [];
    usage = true;
    product_filter =
        product_of v.provider.key "AmazonCloudWatch" "Data Payload" v.region
          (by_regex "UsageType" ".*-DataScanned-Bytes" ∷ []);
    price_filter = priced_by "GB" (on_demand_from "0");
  }

  -- `Components`
  unfoldable pub cloudwatch_log_group_components : CloudwatchLogGroup D → List (ComponentQuery D)
  unfolding cloudwatch_log_group_component archival_storage_component insights_scanned_component
  cloudwatch_log_group_components v =
      cloudwatch_log_group_component v
      ∷ archival_storage_component v
      ∷ insights_scanned_component v
      ∷ []
