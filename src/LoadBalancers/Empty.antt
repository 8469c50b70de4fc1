-- ===== src/LoadBalancers/Empty.antt =====
-- cherry/loadbalancers/empty/empty.go: the load balancer that only keeps the address of a service in
-- an annotation of a given name.
use cloud_provider_cherry.Prelude.{
  String, Option, none, some, ◌==◌, string_eq, if◌then◌else◌, index, insert,
}
use cloud_provider_cherry.Effect.{message, Result, ok, err, pure}
use cloud_provider_cherry.LoadBalancers.{Service, Lb}

abbrev pub default_load_balancer_ips_annotation : String
default_load_balancer_ips_annotation = "cherryservers.com/loadBalancerIPs"

-- The annotation that NewLB keeps.
abbrev pub annotation_or_default : String → String
annotation_or_default annotation =
    if annotation == "" then default_load_balancer_ips_annotation else annotation

module _ (annotation : String) where
  unfoldable pub service_ip : Option Service → Option String
  service_ip none = none
  service_ip (some svc) =
      let ip = index svc.annotations annotation in
      if ip == ""
      then (if svc.load_balancer_ip == "" then none else some svc.load_balancer_ip)
      else some ip

  unfoldable pub set_service_ip : Option Service → String → Result Service
  unfolding insert
  set_service_ip none ip = err (message "failed to set ip, service is nil")
  set_service_ip (some svc) ip =
      ok (record svc { annotations = insert annotation ip svc.annotations })

-- NewLB; the operations of LB beside those on addresses do nothing.
abbrev pub new_lb : {W : Type 0} → String → Lb W
new_lb annotation = record {
  service_ip = service_ip (annotation_or_default annotation);
  set_service_ip = set_service_ip (annotation_or_default annotation);
  add_service = λ namespace name ip nodes. pure tt;
  remove_service = λ namespace name ip. pure tt;
  update_service = λ namespace name nodes. pure tt;
}
