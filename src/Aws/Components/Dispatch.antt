-- ===== src/Aws/Components/Dispatch.antt =====
-- Whom the queries of `ResourceComponents` ask.
use terracost.Prelude.{
  String, ◌≡◌, refl, subst, inl, inr, Bool, true, false, ◌||◌, List, ◌==◌, if◌then◌else◌,
  Option-cases,
}
use terracost.Errors.{Error, Result, ok, err, Run, done, failed, panic, ◌>>>◌}
use terracost.Decimal.{Decimal}
use terracost.Dict.{Dict}
use terracost.Query.{ComponentQuery}
use terracost.Terraform.Queries.{TfResource}
use terracost.Aws.Resources.{Float, Provider}
use terracost.Aws.Decoding.{Arithmetic, Decoders}
use terracost.Aws.Volume.{new_volume}
use terracost.Aws.Instance.{Instance, new_instance, instance_components}
use terracost.Aws.AutoscalingGroup.{new_eks_node_group}
use terracost.Aws.Cloudwatch.{new_cloudwatch_log_group, new_cloudwatch_metric_alarm}
use terracost.Aws.DbInstance.{new_db_instance}
use terracost.Aws.Efs.{new_efs_file_system}
use terracost.Aws.ElastiCache.{new_elasti_cache, new_elasti_cache_replication}
use terracost.Aws.ElasticIp.{new_elastic_ip}
use terracost.Aws.EksCluster.{EksCluster, usage_prefix, new_eks_cluster, eks_cluster_components}
use terracost.Aws.Fsx.{
  new_fsx_lustre_file_system, new_fsx_ontap_file_system, new_fsx_openzfs_file_system,
  new_fsx_windows_file_system,
}
use terracost.Aws.KmsKey.{new_kms_key}
use terracost.Aws.LoadBalancer.{new_lb}
use terracost.Aws.NatGateway.{new_nat_gateway}
use terracost.Aws.RdsCluster.{new_rds_cluster}
use terracost.Aws.RdsClusterInstance.{new_rds_cluster_instance}
use terracost.Aws.S3.{
  new_s3_bucket, new_s3_bucket_inventory, new_s3_bucket_analytics_configuration,
  s3_bucket_inventory_component, s3_bucket_analytics_configuration_component,
}
use terracost.Aws.Secret.{new_secretsmanager_secret}
use terracost.Aws.SqsQueue.{new_sqs_queue}
use terracost.Aws.Components.{decoded_run, decoded, resource_components}
use terracost.Aws.Components.Asked.{
  AllAsk, nothing, one, volume-AllAsk, log_group-AllAsk, metric_alarm-AllAsk, db_instance-AllAsk,
  elastic_ip-AllAsk, kms_key-AllAsk, nat_gateway-AllAsk, secret-AllAsk, lb-AllAsk, sqs_queue-AllAsk,
  efs-AllAsk, cache-AllAsk, cache_replication-AllAsk, fsx-AllAsk, cluster_instance-AllAsk,
  rds_cluster-AllAsk, s3_bucket-AllAsk,
}
use terracost.Aws.Components.Instances.{
  RunOf, instance-AllAsk, new_autoscaling_group-RunOf, new_eks_node_group-InstanceOf,
}

-- The queries that are returned, if any are, ask for the products of a provider.
data AskRun {D : Type 0} (key : String) : Run (List (ComponentQuery D)) → Type 0 where
  returns : {qs : List (ComponentQuery D)} → AllAsk key qs → AskRun key (done qs)
  fails : {e : Error} → AskRun key (failed e)
  panics : {why : String} → AskRun key (panic why)

module _ {D : Type 0} {key : String} where
  on_if_run :
      (c : Bool) {x y : Run (List (ComponentQuery D))}
      → AskRun key x
      → AskRun key y
      → AskRun key (if c then x else y)
  on_if_run true h g = h
  on_if_run false h g = g

  on_decoded :
      {V : Type 0} (r : Result V) (components : V → List (ComponentQuery D))
      → ((vals : V) → AllAsk key (components vals))
      → AskRun key (decoded r components)
  on_decoded (err e) components h = returns nothing
  on_decoded (ok vals) components h = returns (h vals)

  on_decoded_run :
      {V : Type 0} (r : Result V) (components : V → Run (List (ComponentQuery D)))
      → ((vals : V) → AskRun key (components vals))
      → AskRun key (decoded_run r components)
  on_decoded_run (err e) components h = returns nothing
  on_decoded_run (ok vals) components h = h vals

  of_returned : {qs : List (ComponentQuery D)} → AskRun key (done qs) → AllAsk key qs
  of_returned (returns h) = h

module _ {D : Type 0} ⦃d : Decimal D⦄ where
  group-AskRun :
      {key : String} (r : Run (Instance D))
      → RunOf key r
      → AskRun key (r >>> λ inst. done (instance_components inst))
  group-AskRun {key} (done inst) h = returns (instance-AllAsk key inst h)
  group-AskRun (failed e) h = fails
  group-AskRun (panic why) h = panics

  eks-AskRun : (inst : EksCluster) → AskRun {D = D} inst.provider_key (eks_cluster_components inst)
  unfolding eks_cluster_components
  eks-AskRun inst = elim (Option-cases (usage_prefix inst.region)) [
    | inl e ↦ rw (e, eks_cluster_components) panics
    | inr (prefix, e) ↦ rw (e, eks_cluster_components) (returns (one (_, refl, refl)))
  ]

module _ {D F I : Type 0} ⦃d : Decimal D⦄ ⦃f : Float F D⦄ (a : Arithmetic D F I)
    (decode : Decoders F I) (p : Provider) where
  resource_components-AskRun :
      (rss : Dict TfResource) (res : TfResource)
      → AskRun p.key (resource_components a decode p rss res)
  unfolding resource_components new_instance new_cloudwatch_log_group new_cloudwatch_metric_alarm
      new_db_instance new_volume new_efs_file_system new_elasti_cache new_elasti_cache_replication
      new_elastic_ip new_eks_cluster new_fsx_lustre_file_system new_fsx_ontap_file_system
      new_fsx_openzfs_file_system new_fsx_windows_file_system new_kms_key new_lb new_nat_gateway
      new_rds_cluster new_rds_cluster_instance new_s3_bucket new_s3_bucket_inventory
      new_s3_bucket_analytics_configuration s3_bucket_inventory_component
      s3_bucket_analytics_configuration_component new_secretsmanager_secret new_sqs_queue
  resource_components-AskRun rss res =
      let v = res.values in
      let is : String → Bool = λ typ. res.typ == typ in
      on_if_run (is "aws_instance")
        (on_decoded (decode.instance v) _
          (λ vals. instance-AllAsk p.key (new_instance p vals) (refl, refl)))
        (on_if_run (is "aws_autoscaling_group")
          (on_decoded_run (decode.autoscaling_group v) _ (λ vals. group-AskRun _ (
            new_autoscaling_group-RunOf decode.launch_configuration decode.launch_template
              a.of_int64 a.positive p rss vals)))
          (on_if_run (is "aws_cloudwatch_log_group")
            (on_decoded (decode.cloudwatch_log_group v) _
              (λ vals. log_group-AllAsk (new_cloudwatch_log_group p vals)))
            (on_if_run (is "aws_cloudwatch_metric_alarm")
              (on_decoded (decode.cloudwatch_metric_alarm v) _ (λ vals.
                metric_alarm-AllAsk a.less a.div
                  (new_cloudwatch_metric_alarm a.less a.of_count p vals)))
              (on_if_run (is "aws_db_instance")
                (on_decoded (decode.db_instance v) _
                  (λ vals. db_instance-AllAsk (new_db_instance p vals)))
                (on_if_run (is "aws_ebs_volume")
                  (on_decoded (decode.volume v) _ (λ vals. volume-AllAsk (new_volume p vals)))
                  (on_if_run (is "aws_efs_file_system")
                    (on_decoded (decode.efs_file_system v) _ (λ vals.
                      efs-AllAsk a.greater (new_efs_file_system a.sub a.div a.is_positive p vals)))
                    (on_if_run (is "aws_elasticache_cluster")
                      (on_decoded (decode.elasti_cache v) _ (λ vals.
                        cache-AllAsk a.greater a.string (new_elasti_cache a.of_int64 p vals)))
                      (on_if_run (is "aws_elasticache_replication_group")
                        (on_decoded (decode.elasti_cache_replication v) _ (λ vals.
                          cache_replication-AllAsk a.greater a.string
                            (new_elasti_cache_replication a.of_int64 a.positive p vals)))
                        (on_if_run (is "aws_eip")
                          (on_decoded (decode.elastic_ip v) _
                            (λ vals. elastic_ip-AllAsk (new_elastic_ip p vals)))
                          (on_if_run (is "aws_elb") (returns (lb-AllAsk (new_lb p "classic"))) (
                            on_if_run (is "aws_eks_cluster")
                              (on_decoded_run (decode.eks_cluster v) _
                                (λ vals. eks-AskRun (new_eks_cluster p)))
                              (on_if_run (is "aws_eks_node_group")
                                (on_decoded (decode.eks_node_group v) _ (λ vals.
                                  instance-AllAsk p.key
                                    (new_eks_node_group decode.launch_template a.of_int64 a.positive
                                      a.twenty p rss vals)
                                    (new_eks_node_group-InstanceOf decode.launch_template a.of_int64
                                      a.positive a.twenty p rss vals)))
                                (on_if_run (is "aws_fsx_lustre_file_system")
                                  (on_decoded (decode.fsx_lustre v) _ (λ vals.
                                    fsx-AllAsk a.greater a.string
                                      (new_fsx_lustre_file_system p vals)))
                                  (on_if_run (is "aws_fsx_ontap_file_system")
                                    (on_decoded (decode.fsx_ontap v) _ (λ vals.
                                      fsx-AllAsk a.greater a.string
                                        (new_fsx_ontap_file_system p vals)))
                                    (on_if_run (is "aws_fsx_openzfs_file_system")
                                      (on_decoded (decode.fsx_openzfs v) _ (λ vals.
                                        fsx-AllAsk a.greater a.string
                                          (new_fsx_openzfs_file_system p vals)))
                                      (on_if_run (is "aws_fsx_windows_file_system")
                                        (on_decoded (decode.fsx_windows v) _ (λ vals.
                                          fsx-AllAsk a.greater a.string
                                            (new_fsx_windows_file_system p vals)))
                                        (on_if_run (is "aws_kms_key")
                                          (on_decoded (decode.kms_key v) _
                                            (λ vals. kms_key-AllAsk (new_kms_key p vals)))
                                          (on_if_run (is "aws_lb" || is "aws_alb")
                                            (on_decoded (decode.lb v) _
                                              (λ vals. lb-AllAsk (new_lb p vals)))
                                            (on_if_run (is "aws_nat_gateway")
                                              (on_decoded (decode.nat_gateway v) _ (λ vals.
                                                nat_gateway-AllAsk (new_nat_gateway p vals)))
                                              (on_if_run (is "aws_rds_cluster")
                                                (on_decoded (decode.rds_cluster v) _ (λ vals.
                                                  rds_cluster-AllAsk a.greater a.sub
                                                    (new_rds_cluster a.above_one p vals)))
                                                (on_if_run (is "aws_rds_cluster_instance")
                                                  (on_decoded (decode.rds_cluster_instance v) _
                                                    (λ vals. cluster_instance-AllAsk a.greater (
                                                      new_rds_cluster_instance a.equal_fold p
                                                        vals)))
                                                  (on_if_run (is "aws_s3_bucket")
                                                    (on_decoded (decode.s3_bucket v) _ (λ vals.
                                                      s3_bucket-AllAsk a.greater a.sub
                                                        (new_s3_bucket p vals)))
                                                    (on_if_run
                                                      (is "aws_s3_bucket_analytics_configuration")
                                                      (on_decoded
                                                        (decode.s3_bucket_analytics_configuration v)
                                                        _ (λ vals. one (_, refl, refl)))
                                                      (on_if_run (is "aws_s3_bucket_inventory")
                                                        (on_decoded (decode.s3_bucket_inventory v) _
                                                          (λ vals. one (_, refl, refl)))
                                                        (on_if_run (is "aws_secretsmanager_secret")
                                                          (on_decoded
                                                            (decode.secretsmanager_secret v) _
                                                            (λ vals.
                                                            secret-AllAsk
                                                            (new_secretsmanager_secret p vals)))
                                                          (on_if_run (is "aws_sqs_queue")
                                                            (on_decoded (decode.sqs_queue v) _
                                                            (λ vals.
                                                            sqs_queue-AllAsk a.div a.ceil
                                                            (new_sqs_queue p vals)))
                                                            (returns
                                                            nothing)))))))))))))))))))))))))))

  -- If ResourceComponents returns queries for a resource, of whatever type, then every one of them
  -- asks for the products of the provider's key.
  pub resource_components-AllAsk :
      (rss : Dict TfResource) (res : TfResource) {qs : List (ComponentQuery D)}
      → resource_components a decode p rss res ≡ done qs
      → AllAsk p.key qs
  resource_components-AllAsk rss res e =
      of_returned (subst (AskRun p.key) e (resource_components-AskRun rss res))
