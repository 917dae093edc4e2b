-- ===== src/Aws/Decoding.antt =====
-- What the resources of aws/terraform take from other packages: arithmetic, and mapstructure's decoding.
use terracost.Prelude.{ℕ, String, Bool, Option}
use terracost.Errors.{Result}
use terracost.Dict.{Dict}
use terracost.Terraform.Json.{Json}
use terracost.Aws.Volume.{VolumeValues}
use terracost.Aws.Instance.{InstanceValues}
use terracost.Aws.LaunchTemplate.{LaunchConfigurationValues, LaunchTemplateValues}
use terracost.Aws.AutoscalingGroup.{AutoscalingGroupValues, EksNodeGroupValues}
use terracost.Aws.Cloudwatch.{CloudwatchLogGroupValues, CloudwatchMetricAlarmValues}
use terracost.Aws.DbInstance.{DbInstanceValues}
use terracost.Aws.Efs.{EfsFileSystemValues}
use terracost.Aws.ElastiCache.{ElastiCacheValues, ElastiCacheReplicationValues}
use terracost.Aws.ElasticIp.{ElasticIpValues}
use terracost.Aws.Fsx.{FsxValues}
use terracost.Aws.RdsCluster.{RdsClusterValues}
use terracost.Aws.RdsClusterInstance.{RdsClusterInstanceValues}
use terracost.Aws.S3.{S3BucketValues}
use terracost.Aws.SqsQueue.{SqsQueueValues}

-- The operations of `decimal.Decimal` and of Go's numbers that the resources use.
pub record Arithmetic (D F I : Type 0) : Type 0 where
  pub greater : D → D → Bool
  pub less : D → D → Bool
  pub sub : D → D → D
  pub div : D → D → D
  pub ceil : D → D
  pub is_positive : D → Bool
  pub string : D → String
  pub of_int64 : I → D
  pub of_count : ℕ → D
  pub positive : I → Bool
  pub above_one : F → Bool
  pub twenty : F
  pub equal_fold : String → String → Bool

-- What mapstructure makes of the values of a resource of each kind.
pub record Decoders (F I : Type 0) : Type 0 where
  pub instance : Option (Dict Json) → Result (InstanceValues F)
  pub autoscaling_group : Option (Dict Json) → Result (AutoscalingGroupValues I)
  pub launch_configuration : Option (Dict Json) → Result (LaunchConfigurationValues F)
  pub launch_template : Option (Dict Json) → Result (LaunchTemplateValues F)
  pub cloudwatch_log_group : Option (Dict Json) → Result (CloudwatchLogGroupValues F)
  pub cloudwatch_metric_alarm : Option (Dict Json) → Result (CloudwatchMetricAlarmValues F)
  pub db_instance : Option (Dict Json) → Result (DbInstanceValues F)
  pub volume : Option (Dict Json) → Result (VolumeValues F)
  pub efs_file_system : Option (Dict Json) → Result (EfsFileSystemValues F)
  pub elasti_cache : Option (Dict Json) → Result (ElastiCacheValues I)
  pub elasti_cache_replication : Option (Dict Json) → Result (ElastiCacheReplicationValues I)
  pub elastic_ip : Option (Dict Json) → Result ElasticIpValues
  pub eks_cluster : Option (Dict Json) → Result (Unit {0})
  pub eks_node_group : Option (Dict Json) → Result (EksNodeGroupValues I F)
  pub fsx_lustre : Option (Dict Json) → Result (FsxValues F)
  pub fsx_ontap : Option (Dict Json) → Result (FsxValues F)
  pub fsx_openzfs : Option (Dict Json) → Result (FsxValues F)
  pub fsx_windows : Option (Dict Json) → Result (FsxValues F)
  pub kms_key : Option (Dict Json) → Result String
  pub lb : Option (Dict Json) → Result String
  pub nat_gateway : Option (Dict Json) → Result F
  pub rds_cluster : Option (Dict Json) → Result (RdsClusterValues F)
  pub rds_cluster_instance : Option (Dict Json) → Result (RdsClusterInstanceValues F)
  pub s3_bucket : Option (Dict Json) → Result (S3BucketValues F)
  pub s3_bucket_analytics_configuration : Option (Dict Json) → Result F
  pub s3_bucket_inventory : Option (Dict Json) → Result F
  pub secretsmanager_secret : Option (Dict Json) → Result F
  pub sqs_queue : Option (Dict Json) → Result (SqsQueueValues F)
