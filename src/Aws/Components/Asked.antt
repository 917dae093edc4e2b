-- ===== src/Aws/Components/Asked.antt =====
-- Whom the queries of each kind of resource ask.
use terracost.Prelude.{
  String, ◌≡◌, refl, Bool, true, false, not, ◌&&◌, ◌||◌, some, List, [], ◌∷◌, ◌++◌, ◌==◌,
  if◌then◌else◌,
}
use terracost.Decimal.{Decimal}
use terracost.Query.{ComponentQuery, ProductFilter}
use terracost.Aws.Text.{has_prefix, contains}
use terracost.Aws.Secret.{SecretsmanagerSecret, secretsmanager_secret_components}
use terracost.Aws.LoadBalancer.{LoadBalancer, lb_components}
use terracost.Aws.SqsQueue.{SqsQueue, sqs_queue_components}
use terracost.Aws.Volume.{Volume, volume_components}
use terracost.Aws.Cloudwatch.{
  CloudwatchLogGroup, CloudwatchMetricAlarm, cloudwatch_log_group_components,
  cloudwatch_metric_alarm_components,
}
use terracost.Aws.DbInstance.{DbInstance, db_instance_components}
use terracost.Aws.Efs.{EfsFileSystem, efs_components}
use terracost.Aws.ElastiCache.{
  ElastiCache, ElastiCacheReplication, elasti_cache_components, elasti_cache_replication_components,
}
use terracost.Aws.ElasticIp.{ElasticIp, elastic_ip_components}
use terracost.Aws.Fsx.{FsxFileSystem, fsx_components}
use terracost.Aws.KmsKey.{KmsKey, is_asymmetric, kms_key_components}
use terracost.Aws.NatGateway.{NatGateway, nat_gateway_components}
use terracost.Aws.RdsCluster.{RdsCluster, rds_cluster_components}
use terracost.Aws.RdsClusterInstance.{
  RdsClusterInstance, serverless_v2_component, rds_cluster_instance_component,
  rds_cluster_instance_components,
}
use terracost.Aws.S3.{S3Bucket, s3_bucket_components}

-- The query asks for the products of a provider.
abbrev pub Asks : {D : Type 0} → String → ComponentQuery D → Type 0
Asks key q =
    (filter : ProductFilter) × (q.product_filter ≡ some filter) × (filter.provider ≡ some key)

-- So do all of them.
pub data AllAsk {D : Type 0} (key : String) : List (ComponentQuery D) → Type 0 where
  nothing : AllAsk key []
  asks :
      {q : ComponentQuery D} {qs : List (ComponentQuery D)}
      → Asks key q
      → AllAsk key qs
      → AllAsk key (q ∷ qs)

module _ {D : Type 0} {key : String} where
  pub on_if :
      (c : Bool) {xs ys : List (ComponentQuery D)}
      → AllAsk key xs
      → AllAsk key ys
      → AllAsk key (if c then xs else ys)
  on_if true h g = h
  on_if false h g = g

  on_either :
      (c : Bool) (x y : ComponentQuery D) → Asks key x → Asks key y → Asks key (if c then x else y)
  on_either true x y h g = h
  on_either false x y h g = g

  pub append-AllAsk :
      {xs ys : List (ComponentQuery D)} → AllAsk key xs → AllAsk key ys → AllAsk key (xs ++ ys)
  append-AllAsk nothing g = g
  append-AllAsk (asks p h) g = asks p (append-AllAsk h g)

  -- one query
  pub one : {q : ComponentQuery D} → Asks key q → AllAsk key (q ∷ [])
  one p = asks p nothing

module _ {D : Type 0} ⦃d : Decimal D⦄ where
  pub volume-AllAsk : (v : Volume D) → AllAsk v.provider.key (volume_components v)
  unfolding volume_components
  volume-AllAsk v =
      asks (_, refl, refl)
        (on_if (v.volume_type == "io1" || v.volume_type == "io2") (one (_, refl, refl)) nothing)

  pub log_group-AllAsk :
      (v : CloudwatchLogGroup D) → AllAsk v.provider.key (cloudwatch_log_group_components v)
  unfolding cloudwatch_log_group_components
  log_group-AllAsk v = asks (_, refl, refl) (asks (_, refl, refl) (one (_, refl, refl)))

  pub metric_alarm-AllAsk :
      (less : D → D → Bool) (div : D → D → D) (v : CloudwatchMetricAlarm D)
      → AllAsk v.provider.key (cloudwatch_metric_alarm_components less div v)
  unfolding cloudwatch_metric_alarm_components
  metric_alarm-AllAsk less div v = one (_, refl, refl)

  pub db_instance-AllAsk : (v : DbInstance D) → AllAsk v.provider_key (db_instance_components v)
  unfolding db_instance_components
  db_instance-AllAsk v =
      asks (_, refl, refl)
        (asks (_, refl, refl)
          (on_if (has_prefix "io" v.storage_type) (one (_, refl, refl)) nothing))

  pub elastic_ip-AllAsk : (v : ElasticIp) → AllAsk {D = D} v.provider_key (elastic_ip_components v)
  unfolding elastic_ip_components
  elastic_ip-AllAsk v = on_if _ nothing (one (_, refl, refl))

  pub kms_key-AllAsk : (v : KmsKey) → AllAsk {D = D} v.provider.key (kms_key_components v)
  unfolding kms_key_components
  kms_key-AllAsk v =
      asks (_, refl, refl)
        (on_if (v.customer_master_key_spec == "RSA_2048") (one (_, refl, refl)) (
          on_if (is_asymmetric v.customer_master_key_spec) (one (_, refl, refl))
            (asks (_, refl, refl) (asks (_, refl, refl) (one (_, refl, refl))))))

  pub nat_gateway-AllAsk : (v : NatGateway D) → AllAsk v.provider_key (nat_gateway_components v)
  unfolding nat_gateway_components
  nat_gateway-AllAsk v = asks (_, refl, refl) (one (_, refl, refl))

  pub secret-AllAsk :
      (v : SecretsmanagerSecret D) → AllAsk v.provider.key (secretsmanager_secret_components v)
  unfolding secretsmanager_secret_components
  secret-AllAsk v = asks (_, refl, refl) (one (_, refl, refl))

  pub lb-AllAsk : (v : LoadBalancer) → AllAsk {D = D} v.provider.key (lb_components v)
  unfolding lb_components
  lb-AllAsk v = one (_, refl, refl)

  pub sqs_queue-AllAsk :
      (div : D → D → D) (ceil : D → D) (v : SqsQueue D)
      → AllAsk v.provider.key (sqs_queue_components div ceil v)
  unfolding sqs_queue_components
  sqs_queue-AllAsk div ceil v = one (_, refl, refl)

module _ {D : Type 0} ⦃d : Decimal D⦄ (greater : D → D → Bool) where
  pub efs-AllAsk : (v : EfsFileSystem D) → AllAsk v.provider.key (efs_components greater v)
  unfolding efs_components
  efs-AllAsk v =
      asks (_, refl, refl)
        (append-AllAsk
          (on_if (greater v.provisioned_throughput_in_mibps (d.of_int 0)) (one (_, refl, refl))
            nothing)
          (on_if v.has_lifecycle_policy
            (append-AllAsk
              (on_if (greater v.infrequent_access_storage_gb (d.of_int 0)) (one (_, refl, refl))
                nothing)
              (append-AllAsk
                (on_if (greater v.monthly_infrequent_access_read_gb (d.of_int 0))
                  (one (_, refl, refl)) nothing)
                (on_if (greater v.monthly_infrequent_access_write_gb (d.of_int 0))
                  (one (_, refl, refl)) nothing)))
            nothing))

  pub cache-AllAsk :
      (string : D → String) (v : ElastiCache D)
      → AllAsk v.provider_key (elasti_cache_components greater string v)
  unfolding elasti_cache_components
  cache-AllAsk string v =
      on_if _ nothing (asks (_, refl, refl) (on_if _ (one (_, refl, refl)) nothing))

  pub cache_replication-AllAsk :
      (string : D → String) (v : ElastiCacheReplication D)
      → AllAsk v.provider_key (elasti_cache_replication_components greater string v)
  unfolding elasti_cache_replication_components
  cache_replication-AllAsk string v =
      on_if _ nothing (asks (_, refl, refl) (on_if _ (one (_, refl, refl)) nothing))

  pub fsx-AllAsk :
      (string : D → String) (v : FsxFileSystem D)
      → AllAsk v.provider.key (fsx_components greater string v)
  unfolding fsx_components
  fsx-AllAsk string v =
      asks (_, refl, refl)
        (append-AllAsk (on_if _ (one (_, refl, refl)) nothing)
          (on_if _ (one (_, refl, refl)) nothing))

  pub cluster_instance-AllAsk :
      (v : RdsClusterInstance D) → AllAsk v.provider.key (rds_cluster_instance_components greater v)
  unfolding rds_cluster_instance_components serverless_v2_component rds_cluster_instance_component
  cluster_instance-AllAsk v =
      let engine =
        if v.engine == "aurora-postgresql" then "Aurora PostgreSQL" else "Aurora MySQL" in
      asks
        (on_either v.is_serverless (serverless_v2_component v engine)
          (rds_cluster_instance_component v engine) (_, refl, refl) (_, refl, refl))
        (on_if v.performance_insights_enabled
          (on_if (greater v.performance_insights_retention_period (d.of_int 7))
            (asks (_, refl, refl) (one (_, refl, refl))) (one (_, refl, refl)))
          nothing)

  pub rds_cluster-AllAsk :
      (sub : D → D → D) (v : RdsCluster D)
      → AllAsk v.provider.key (rds_cluster_components greater sub v)
  unfolding rds_cluster_components
  rds_cluster-AllAsk sub v =
      asks (_, refl, refl)
        (asks (_, refl, refl)
          (append-AllAsk (on_if (v.is_serverless) (one (_, refl, refl)) nothing) (
            append-AllAsk
              (on_if (greater v.backup_retention_period (d.of_int 1)) (one (_, refl, refl)) nothing)
              (append-AllAsk
                (on_if (not v.is_serverless && not (contains "postgresql" v.engine))
                  (one (_, refl, refl)) nothing)
                (one (_, refl, refl))))))

  pub s3_bucket-AllAsk :
      (sub : D → D → D) (v : S3Bucket D)
      → AllAsk v.provider.key (s3_bucket_components greater sub v)
  unfolding s3_bucket_components
  s3_bucket-AllAsk sub v =
      append-AllAsk
        (on_if (greater v.storage_gb (d.of_int 512000))
          (asks (_, refl, refl) (asks (_, refl, refl) (one (_, refl, refl))))
          (on_if (greater v.storage_gb (d.of_int 51200))
            (asks (_, refl, refl) (one (_, refl, refl))) (one (_, refl, refl))))
        (on_if (greater v.monthly_outbound_data_gb (d.of_int 153600))
          (asks (_, refl, refl) (asks (_, refl, refl) (asks (_, refl, refl) (one (_, refl, refl)))))
          (on_if (greater v.monthly_outbound_data_gb (d.of_int 51200))
            (asks (_, refl, refl) (asks (_, refl, refl) (one (_, refl, refl))))
            (on_if (greater v.monthly_outbound_data_gb (d.of_int 10240))
              (asks (_, refl, refl) (one (_, refl, refl))) (one (_, refl, refl)))))
