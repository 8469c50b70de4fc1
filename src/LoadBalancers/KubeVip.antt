-- ===== src/LoadBalancers/KubeVip.antt =====
-- cherry/loadbalancers/kubevip/kubevip.go: the load balancer that only keeps the address of a
-- service in the annotation that kube-vip reads.
use cloud_provider_cherry.Prelude.{
  String, Option, none, some, ◌==◌, string_eq, if◌then◌else◌, index, insert,
}
use cloud_provider_cherry.Effect.{message, Result, ok, err, pure}
use cloud_provider_cherry.LoadBalancers.{Service, Lb}

abbrev pub load_balancer_ips_annotation : String
load_balancer_ips_annotation = "kube-vip.io/loadbalancerIPs"

unfoldable pub service_ip : Option Service → Option String
service_ip none = none
service_ip (some svc) =
    let ip = index svc.annotations load_balancer_ips_annotation in
    if ip == ""
    then (if svc.load_balancer_ip == "" then none else some svc.load_balancer_ip)
    else some ip

unfoldable pub set_service_ip : Option Service → String → Result Service
unfolding insert
set_service_ip none ip = err (message "failed to set ip, service is nil")
set_service_ip (some svc) ip =
    ok (record svc { annotations = insert load_balancer_ips_annotation ip svc.annotations })

-- LB, whose other operations do nothing.
abbrev pub kube_vip : {W : Type 0} → Lb W
kube_vip = record {
  service_ip = service_ip;
  set_service_ip = set_service_ip;
  add_service = λ namespace name ip nodes. pure tt;
  remove_service = λ namespace name ip. pure tt;
  update_service = λ namespace name nodes. pure tt;
}
