-- ===== src/LoadBalancers/ReadBack.antt =====
-- The addresses that the load balancers set on services are found again.
use cloud_provider_cherry.Prelude.{
  String, false, some, ◌≡◌, refl, sym, ap, ◌∙◌, ◌==◌, string_eq, index, insert, lookup-insert,
  beq_refl,
}
use cloud_provider_cherry.Effect.{ok, ok_inj}
use cloud_provider_cherry.LoadBalancers.{Service, Lb}
use cloud_provider_cherry.LoadBalancers.KubeVip.{load_balancer_ips_annotation, kube_vip}
use cloud_provider_cherry.LoadBalancers.KubeVip
use cloud_provider_cherry.LoadBalancers.Empty.{annotation_or_default, new_lb}
use cloud_provider_cherry.LoadBalancers.Empty

pub index-insert : (k v : String) (svc : Service) → index (insert k v svc.annotations) k ≡ v
index-insert k v svc = rw (lookup-insert k k v svc.annotations, beq_refl k, index) refl

-- An address that is set on a service, and not empty, is the address of the service.
abbrev pub IsReadBack : {W : Type 0} → Lb W → Type 0
IsReadBack lb =
    (svc after : Service) (ip : String)
    → (ip == "") ≡ false
    → lb.set_service_ip (some svc) ip ≡ ok after
    → lb.service_ip (some after) ≡ some ip

pub kube_vip-IsReadBack : (W : Type 0) → IsReadBack (kube_vip {W = W})
unfolding KubeVip.set_service_ip KubeVip.service_ip
kube_vip-IsReadBack W svc after ip h e =
    ap (λ (s : Service). KubeVip.service_ip (some s)) (sym (ok_inj e))
    ∙ rw (index-insert load_balancer_ips_annotation ip svc, h, KubeVip.service_ip) refl

pub new_lb-IsReadBack : (W : Type 0) (annotation : String) → IsReadBack (new_lb {W = W} annotation)
unfolding Empty.set_service_ip Empty.service_ip
new_lb-IsReadBack W annotation svc after ip h e =
    ap (λ (s : Service). Empty.service_ip (annotation_or_default annotation) (some s))
      (sym (ok_inj e))
    ∙ rw (index-insert (annotation_or_default annotation) ip svc, h, Empty.service_ip) refl
