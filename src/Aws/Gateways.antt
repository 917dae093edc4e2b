-- ===== src/Aws/Gateways.antt =====
-- The products that NAT gateways, load balancers and queues ask for pass `MinimalFilter`.
use terracost.Prelude.{String, ◌≡◌, refl, inl, inr, Bool, true, [], ◌∷◌, ◌++◌}
use terracost.Decimal.{Decimal}
use terracost.Query.{Product}
use terracost.Catalog.{matches_any}
use terracost.Aws.Filter.{minimal_filter}
use terracost.Aws.Matching.{
  matches_query-AsksFor, matches_any_cons, matches_any-when, matches_any-append,
}
use terracost.Aws.Filter.Families.{nat_passes, whole_service_passes}
use terracost.Aws.Matching.{
  matches_query-AsksFor, matches_any_cons, matches_any-when, matches_any-append,
}
use terracost.Aws.NatGateway.{
  NatGateway, nat_gateway_components, nat_gateway_instance_component,
  nat_gateway_data_processed_component,
}
use terracost.Aws.LoadBalancer.{
  LoadBalancer, name_and_family, lb_components, load_balancer_component,
}
use terracost.Aws.SqsQueue.{SqsQueue, sqs_queue_components, sqs_queue_component}

module _ (regex_match : String → String → Bool) {D : Type 0} ⦃d : Decimal D⦄ where
  nat_gateway-minimal_filter :
      (inst : NatGateway D) (p : Product)
      → matches_any regex_match (nat_gateway_components inst) p ≡ true
      → minimal_filter p ≡ true
  unfolding nat_gateway_components nat_gateway_instance_component
      nat_gateway_data_processed_component
  nat_gateway-minimal_filter inst p h =
      let bytes = nat_gateway_data_processed_component inst in
      elim (matches_any_cons regex_match (nat_gateway_instance_component inst) (bytes ∷ []) p h) [
        | inl e ↦
            let (s, f) =
              matches_query-AsksFor regex_match (nat_gateway_instance_component inst) p "AmazonEC2"
                "NAT Gateway" (_, refl, refl, refl) e in
            nat_passes p s f
        | inr e ↦
            let (s, f) =
              matches_query-AsksFor regex_match bytes p "AmazonEC2" "NAT Gateway"
                (_, refl, refl, refl) (matches_any-when regex_match true bytes p e) in
            nat_passes p s f
      ]

  sqs_queue-minimal_filter :
      (div : D → D → D) (ceil : D → D) (v : SqsQueue D) (p : Product)
      → matches_any regex_match (sqs_queue_components div ceil v) p ≡ true
      → minimal_filter p ≡ true
  unfolding sqs_queue_components sqs_queue_component
  sqs_queue-minimal_filter div ceil v p h =
      let q = sqs_queue_component div ceil v in
      let (s, _) =
        matches_query-AsksFor regex_match q p "AWSQueueService" "API Request" (_, refl, refl, refl)
          (matches_any-when regex_match true q p h) in
      whole_service_passes p "AWSQueueService" (inr (inl refl)) s

module _ (regex_match : String → String → Bool) (D : Type 0) ⦃d : Decimal D⦄ where
  load_balancer-minimal_filter :
      (lb : LoadBalancer) (p : Product)
      → matches_any regex_match (lb_components {D = D} lb) p ≡ true
      → minimal_filter p ≡ true
  unfolding lb_components load_balancer_component
  load_balancer-minimal_filter lb p h =
      let q = load_balancer_component {D = D} lb in
      let (s, _) =
        matches_query-AsksFor regex_match q p "AWSELB" (name_and_family lb.lb_type).1
          (_, refl, refl, refl) (matches_any-when regex_match true q p h) in
      whole_service_passes p "AWSELB" (inl refl) s

  -- A product that a component of a NAT gateway, a load balancer or a queue asks for passes
  -- `MinimalFilter`.
  pub gateways-minimal_filter :
      (div : D → D → D) (ceil : D → D) (inst : NatGateway D) (lb : LoadBalancer) (v : SqsQueue D)
      (p : Product)
      → matches_any regex_match
          (nat_gateway_components inst
            ++ (lb_components {D = D} lb ++ sqs_queue_components div ceil v))
          p
        ≡ true
      → minimal_filter p ≡ true
  gateways-minimal_filter div ceil inst lb v p h =
      let queue = sqs_queue_components div ceil v in
      elim (matches_any-append regex_match (nat_gateway_components inst)
        (lb_components {D = D} lb ++ queue) p h) [
          | inl e ↦ nat_gateway-minimal_filter regex_match inst p e
          | inr e ↦ elim (matches_any-append regex_match (lb_components {D = D} lb) queue p e) [
            | inl e' ↦ load_balancer-minimal_filter lb p e'
            | inr e' ↦ sqs_queue-minimal_filter regex_match div ceil v p e'
          ]
        ]
