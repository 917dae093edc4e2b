-- ===== src/Aws.antt =====
-- The package aws and its children: `Region` is aws/region, `Filter` aws/filter.go and aws/services.go,
-- `Resources` the record of aws/terraform/provider.go and `Components` its dispatch, `Decoding` the
-- decoders and the arithmetic that are parameters, `Initializer` aws/terraform_provider.go, `Ingester`
-- aws/ingester.go. `Cloudwatch`, `Fsx` and `S3` are the files of aws/terraform with those prefixes,
-- `ElastiCache` the two of elasticache, `LaunchTemplate` the launch templates and configurations,
-- `AutoscalingGroup` these with the node groups, `ElasticIp` eip.go, `Secret`
-- secretsmanager_secret.go, and the others the files of their names.
pub mod Region
pub mod Filter
pub mod Text
pub mod Resources
pub mod Volume
pub mod Instance
pub mod LoadBalancer
pub mod NatGateway
pub mod SqsQueue
pub mod EksCluster
pub mod ElasticIp
pub mod KmsKey
pub mod Secret
pub mod DbInstance
pub mod ElastiCache
pub mod Fsx
pub mod Cloudwatch
pub mod S3
pub mod LaunchTemplate
pub mod AutoscalingGroup
pub mod Initializer
pub mod Efs
pub mod RdsClusterInstance
pub mod RdsCluster
pub mod Decoding
pub mod Components
pub mod Matching
pub mod Ingester
pub mod Ingested
pub mod Gateways
pub mod Databases
pub mod Tests
