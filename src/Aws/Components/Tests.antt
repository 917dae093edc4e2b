-- ===== src/Aws/Components/Tests.antt =====
-- The queries of a load balancer and of a database in another region.
use terracost.Prelude.{ℕ, ◌≡◌, refl, true, not, Option, none, some, List, [], ◌==◌, ltb, eqb}
use terracost.Errors.{foreign, Result, ok, err, done}
use terracost.Decimal.{Whole, whole_decimal, above, minus}
use terracost.Dict.{Dict}
use terracost.Query.{ComponentQuery}
use terracost.Terraform.Json.{Json, null}
use terracost.Terraform.Queries.{TfResource}
use terracost.Aws.Resources.{Float, Provider}
use terracost.Aws.DbInstance.{DbInstanceValues, new_db_instance, db_instance_components}
use terracost.Aws.Decoding.{Arithmetic, Decoders}
use terracost.Aws.Components.{resource_components}
use terracost.Aws.Components.Asked.{AllAsk}
use terracost.Aws.Components.Dispatch.{resource_components-AllAsk}

instance abbrev whole_float : Float ℕ Whole
whole_float = record { zero_float = 0; positive = λ n. not (eqb n 0); from_float = λ n. some n }

abbrev arithmetic : Arithmetic Whole ℕ ℕ
arithmetic = record {
  greater = above;
  less = λ a b. above b a;
  sub = minus;
  div = λ a b. whole_decimal.div_round a b 16;
  ceil = λ a. a;
  is_positive = λ a. above a none;
  string = λ a. "";
  of_int64 = λ k. some k;
  of_count = λ k. some k;
  positive = λ k. not (eqb k 0);
  above_one = λ k. ltb 1 k;
  twenty = 20;
  equal_fold = λ a b. a == b;
}

abbrev undecoded : {A : Type 0} → Option (Dict Json) → Result A
undecoded v = err (foreign "cannot decode")

abbrev database : DbInstanceValues ℕ
database = record {
  instance_class = "db.t3.small";
  availability_zone = "eu-west-1a";
  engine = "postgres";
  license_model = "";
  multi_az = true;
  allocated_storage = 100;
  storage_type = "io1";
  iops = 3000;
}

-- of the decoders only that of a database returns
abbrev decoders : Decoders ℕ ℕ
decoders = record {
  instance = undecoded;
  autoscaling_group = undecoded;
  launch_configuration = undecoded;
  launch_template = undecoded;
  cloudwatch_log_group = undecoded;
  cloudwatch_metric_alarm = undecoded;
  db_instance = λ v. ok database;
  volume = undecoded;
  efs_file_system = undecoded;
  elasti_cache = undecoded;
  elasti_cache_replication = undecoded;
  elastic_ip = undecoded;
  eks_cluster = undecoded;
  eks_node_group = undecoded;
  fsx_lustre = undecoded;
  fsx_ontap = undecoded;
  fsx_openzfs = undecoded;
  fsx_windows = undecoded;
  kms_key = undecoded;
  lb = undecoded;
  nat_gateway = undecoded;
  rds_cluster = undecoded;
  rds_cluster_instance = undecoded;
  s3_bucket = undecoded;
  s3_bucket_analytics_configuration = undecoded;
  s3_bucket_inventory = undecoded;
  secretsmanager_secret = undecoded;
  sqs_queue = undecoded;
}

abbrev paris : Provider
paris = record { key = "aws"; region = "eu-west-3" }

abbrev store : TfResource
store = record {
  address = "aws_db_instance.store";
  index = null;
  mode = "managed";
  typ = "aws_db_instance";
  name = "store";
  provider_name = "aws";
  values = some [];
}

abbrev store_queries : List (ComponentQuery Whole)
store_queries = db_instance_components (new_db_instance paris database)

store_runs : resource_components {D = Whole} arithmetic decoders paris [] store ≡ done store_queries
unfolding resource_components db_instance_components
store_runs = refl

resource_components-AllAsk_example : AllAsk "aws" store_queries
resource_components-AllAsk_example =
    resource_components-AllAsk arithmetic decoders paris [] store store_runs
