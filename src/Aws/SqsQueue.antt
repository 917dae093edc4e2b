-- ===== src/Aws/SqsQueue.antt =====
-- aws/terraform/sqs_queue.go: SQS queues. Decoding the values is mapstructure's; `div` and `ceil` are
-- `decimal.Decimal`'s.
use terracost.Prelude.{String, Bool, true, none, some, List, [], ◌∷◌, if◌then◌else◌}
use terracost.Decimal.{Decimal}
use terracost.Query.{ComponentQuery}
use terracost.Aws.Text.{◌<>◌}
use terracost.Aws.Resources.{Float, Provider, by_value, by_regex}

pub record SqsQueue (D : Type 0) : Type 0 where
  pub provider : Provider
  pub region : String
  pub fifo_queue : Bool
  pub monthly_requests : D
  pub request_size_kb : D

pub record SqsQueueValues (F : Type 0) : Type 0 where
  pub fifo_queue : Bool
  pub monthly_requests : F
  pub request_size_kb : F

module _ {F D : Type 0} ⦃f : Float F D⦄ where
  -- `newSQSQueue`
  unfoldable pub new_sqs_queue : Provider → SqsQueueValues F → SqsQueue D
  new_sqs_queue p vals = record {
    provider = p;
    region = p.region;
    fifo_queue = vals.fifo_queue;
    monthly_requests = f.from_float vals.monthly_requests;
    request_size_kb = f.from_float vals.request_size_kb;
  }

module _ {D : Type 0} ⦃d : Decimal D⦄ (div : D → D → D) (ceil : D → D) where
  abbrev queue_type : Bool → String
  queue_type fifo = if fifo then ".*Requests-FIFO.*" else ".*Requests-[^F].*"

  -- `sqsQueueComponent`
  unfoldable pub sqs_queue_component : SqsQueue D → ComponentQuery D
  sqs_queue_component v = record {
    name = "Requests " <> queue_type v.fifo_queue;
    hourly_quantity = d.blank;
    monthly_quantity = d.mul (ceil (div v.request_size_kb (d.of_int 64))) v.monthly_requests;
    unit = "Requests";
    details = "SQS queue" ∷ queue_type v.fifo_queue ∷ [];
    usage = true;
    product_filter = some (record {
      provider = some v.provider.key;
      sku = none;
      service = some "AWSQueueService";
      family = some "API Request";
      location = some v.region;
      attribute_filters = by_regex "UsageType" (queue_type v.fifo_queue) ∷ [];
    });
    price_filter = some (record {
      unit = some "Requests";
      currency = none;
      attribute_filters = by_value "TermType" "OnDemand" ∷ by_value "StartingRange" "0" ∷ [];
    });
  }

  -- `Components`
  unfoldable pub sqs_queue_components : SqsQueue D → List (ComponentQuery D)
  unfolding sqs_queue_component
  sqs_queue_components v = sqs_queue_component v ∷ []
