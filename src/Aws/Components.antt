-- ===== src/Aws/Components.antt =====
-- aws/terraform/provider.go: `ResourceComponents`, which makes the queries of a resource.
pub mod Asked
pub mod Tests
pub mod Instances
pub mod Dispatch
use terracost.Prelude.{String, Bool, ◌||◌, List, [], ◌∷◌, ◌==◌, if◌then◌else◌}
use terracost.Errors.{Result, ok, err, Run, done, ◌>>>◌}
use terracost.Decimal.{Decimal}
use terracost.Dict.{Dict}
use terracost.Query.{ComponentQuery}
use terracost.Terraform.Queries.{TfResource, TfProvider}
use terracost.Aws.Resources.{Float, Provider}
use terracost.Aws.Decoding.{Arithmetic, Decoders}
use terracost.Aws.Volume.{new_volume, volume_components}
use terracost.Aws.Instance.{new_instance, instance_components}
use terracost.Aws.AutoscalingGroup.{new_autoscaling_group, new_eks_node_group}
use terracost.Aws.Cloudwatch.{
  new_cloudwatch_log_group, new_cloudwatch_metric_alarm, cloudwatch_log_group_components,
  cloudwatch_metric_alarm_components,
}
use terracost.Aws.DbInstance.{new_db_instance, db_instance_components}
use terracost.Aws.Efs.{new_efs_file_system, efs_components}
use terracost.Aws.ElastiCache.{
  new_elasti_cache, new_elasti_cache_replication, elasti_cache_components,
  elasti_cache_replication_components,
}
use terracost.Aws.ElasticIp.{new_elastic_ip, elastic_ip_components}
use terracost.Aws.EksCluster.{new_eks_cluster, eks_cluster_components}
use terracost.Aws.Fsx.{
  new_fsx_lustre_file_system, new_fsx_ontap_file_system, new_fsx_openzfs_file_system,
  new_fsx_windows_file_system, fsx_components,
}
use terracost.Aws.KmsKey.{new_kms_key, kms_key_components}
use terracost.Aws.LoadBalancer.{new_lb, lb_components}
use terracost.Aws.NatGateway.{new_nat_gateway, nat_gateway_components}
use terracost.Aws.RdsCluster.{new_rds_cluster, rds_cluster_components}
use terracost.Aws.RdsClusterInstance.{new_rds_cluster_instance, rds_cluster_instance_components}
use terracost.Aws.S3.{
  new_s3_bucket, new_s3_bucket_inventory, new_s3_bucket_analytics_configuration,
  s3_bucket_components, s3_bucket_inventory_component, s3_bucket_analytics_configuration_component,
}
use terracost.Aws.Secret.{new_secretsmanager_secret, secretsmanager_secret_components}
use terracost.Aws.SqsQueue.{new_sqs_queue, sqs_queue_components}

-- `if err != nil { return nil }`, and the components otherwise
abbrev pub decoded_run {ℓ} :
    {V : Type ℓ} {Q : Type 0} → Result V → (V → Run (List Q)) → Run (List Q)
decoded_run (err e) components = done []
decoded_run (ok vals) components = components vals

abbrev pub decoded {ℓ} : {V : Type ℓ} {Q : Type 0} → Result V → (V → List Q) → Run (List Q)
decoded (err e) components = done []
decoded (ok vals) components = done (components vals)

module _ {D F I : Type 0} ⦃d : Decimal D⦄ ⦃f : Float F D⦄ (a : Arithmetic D F I)
    (decode : Decoders F I) (p : Provider) where
  -- `ResourceComponents`
  unfoldable pub resource_components : Dict TfResource → TfResource → Run (List (ComponentQuery D))
  resource_components rss res =
      let v = res.values in
      let is : String → Bool = λ typ. res.typ == typ in
      if is "aws_instance"
      then (decoded (decode.instance v) (λ vals. instance_components (new_instance p vals)))
      else if is "aws_autoscaling_group"
      then (decoded_run (decode.autoscaling_group v) (λ vals.
          (new_autoscaling_group decode.launch_configuration decode.launch_template a.of_int64
              a.positive p rss vals
            >>> λ inst. done (instance_components inst))))
      else if is "aws_cloudwatch_log_group"
      then (decoded (decode.cloudwatch_log_group v)
          (λ vals. cloudwatch_log_group_components (new_cloudwatch_log_group p vals)))
      else if is "aws_cloudwatch_metric_alarm"
      then (decoded (decode.cloudwatch_metric_alarm v) (λ vals.
          cloudwatch_metric_alarm_components a.less a.div
            (new_cloudwatch_metric_alarm a.less a.of_count p vals)))
      else if is "aws_db_instance"
      then (decoded (decode.db_instance v)
          (λ vals. db_instance_components (new_db_instance p vals)))
      else if is "aws_ebs_volume"
      then (decoded (decode.volume v) (λ vals. volume_components (new_volume p vals)))
      else if is "aws_efs_file_system"
      then (decoded (decode.efs_file_system v)
          (λ vals. efs_components a.greater (new_efs_file_system a.sub a.div a.is_positive p vals)))
      else if is "aws_elasticache_cluster"
      then (decoded (decode.elasti_cache v)
          (λ vals. elasti_cache_components a.greater a.string (new_elasti_cache a.of_int64 p vals)))
      else if is "aws_elasticache_replication_group"
      then (decoded (decode.elasti_cache_replication v) (λ vals.
          elasti_cache_replication_components a.greater a.string
            (new_elasti_cache_replication a.of_int64 a.positive p vals)))
      else if is "aws_eip"
      then (decoded (decode.elastic_ip v) (λ vals. elastic_ip_components (new_elastic_ip p vals)))
      else if is "aws_elb"
      then (done (lb_components (new_lb p "classic")))
      else if is "aws_eks_cluster"
      then (decoded_run (decode.eks_cluster v) (λ vals. eks_cluster_components (new_eks_cluster p)))
      else if is "aws_eks_node_group"
      then (decoded (decode.eks_node_group v) (λ vals.
          instance_components
            (new_eks_node_group decode.launch_template a.of_int64 a.positive a.twenty p rss vals)))
      else if is "aws_fsx_lustre_file_system"
      then (decoded (decode.fsx_lustre v)
          (λ vals. fsx_components a.greater a.string (new_fsx_lustre_file_system p vals)))
      else if is "aws_fsx_ontap_file_system"
      then (decoded (decode.fsx_ontap v)
          (λ vals. fsx_components a.greater a.string (new_fsx_ontap_file_system p vals)))
      else if is "aws_fsx_openzfs_file_system"
      then (decoded (decode.fsx_openzfs v)
          (λ vals. fsx_components a.greater a.string (new_fsx_openzfs_file_system p vals)))
      else if is "aws_fsx_windows_file_system"
      then (decoded (decode.fsx_windows v)
          (λ vals. fsx_components a.greater a.string (new_fsx_windows_file_system p vals)))
      else if is "aws_kms_key"
      then (decoded (decode.kms_key v) (λ vals. kms_key_components (new_kms_key p vals)))
      else if is "aws_lb" || is "aws_alb"
      then (decoded (decode.lb v) (λ vals. lb_components (new_lb p vals)))
      else if is "aws_nat_gateway"
      then (decoded (decode.nat_gateway v)
          (λ vals. nat_gateway_components (new_nat_gateway p vals)))
      else if is "aws_rds_cluster"
      then (decoded (decode.rds_cluster v)
          (λ vals. rds_cluster_components a.greater a.sub (new_rds_cluster a.above_one p vals)))
      else if is "aws_rds_cluster_instance"
      then (decoded (decode.rds_cluster_instance v) (λ vals.
          rds_cluster_instance_components a.greater (new_rds_cluster_instance a.equal_fold p vals)))
      else if is "aws_s3_bucket"
      then (decoded (decode.s3_bucket v)
          (λ vals. s3_bucket_components a.greater a.sub (new_s3_bucket p vals)))
      else if is "aws_s3_bucket_analytics_configuration"
      then (decoded (decode.s3_bucket_analytics_configuration v) (λ vals.
          s3_bucket_analytics_configuration_component (new_s3_bucket_analytics_configuration p vals)
          ∷ []))
      else if is "aws_s3_bucket_inventory"
      then (decoded (decode.s3_bucket_inventory v)
          (λ vals. s3_bucket_inventory_component (new_s3_bucket_inventory p vals) ∷ []))
      else if is "aws_secretsmanager_secret"
      then (decoded (decode.secretsmanager_secret v)
          (λ vals. secretsmanager_secret_components (new_secretsmanager_secret p vals)))
      else if is "aws_sqs_queue"
      then (decoded (decode.sqs_queue v)
          (λ vals. sqs_queue_components a.div a.ceil (new_sqs_queue p vals)))
      else done []

  -- the provider, as the estimation of a plan uses it
  abbrev pub tf_provider : TfProvider D
  unfolding resource_components
  tf_provider = record { name = p.key; resource_components = resource_components }
