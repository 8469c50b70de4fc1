-- ===== src/Controller/Services/Outcomes.antt =====
-- What EnsureLoadBalancer of cherry/loadbalancers.go comes to when it succeeds.
use cloud_provider_cherry.Prelude.{string_eq}
use cloud_provider_cherry.Controller.{LoadBalancers}
