-- ===== src/Tests/LoadBalancer.antt =====
-- The MetalLB load balancer, at a concrete service and configurer.
use cloud_provider_cherry.Prelude.{
  String, ◌≡◌, refl, Bool, true, if◌then◌else◌, some, List, [], ◌∷◌, insert,
}
use cloud_provider_cherry.Effect.{ok, pure, wrapping}
use cloud_provider_cherry.LoadBalancers.{Service}
use cloud_provider_cherry.Metallb.Lb.{
  Configurer, service_ip, set_service_ip, pool_name, remove_service,
}
use cloud_provider_cherry.Metallb.Lb.Laws.{service_ip-set_service_ip, remove_service-eq-ok}
use cloud_provider_cherry.Tests.Services.{web}

abbrev annotated : String → Service
annotated ip = record {
  namespace = "default";
  name = "web";
  annotations = ("metallb.io/loadBalancerIPs", ip) ∷ [];
  load_balancer_ip = "5.199.0.9";
}

service_ip-set_service_ip_case : service_ip (some (annotated "5.199.0.2")) ≡ some "5.199.0.2"
unfolding set_service_ip insert
service_ip-set_service_ip_case =
    service_ip-set_service_ip (annotated "5.199.0.1") (annotated "5.199.0.2") "5.199.0.2" refl refl

-- A configurer whose world is the list of its calls, the last one first.
abbrev recording : Configurer (List String)
recording = record {
  get = λ w. (ok tt, "get" ∷ w);
  update = λ w. (ok tt, "update" ∷ w);
  update_peers_by_service = λ peers svc w. (ok true, "update peers" ∷ w);
  remove_peers_by_service = λ svc w. (ok true, "remove peers" ∷ w);
  add_address_pool = λ pool svc w. (ok true, "add pool" ∷ w);
  remove_address_pool = λ pool w. (ok tt, pool ∷ w);
}

abbrev calls : List String
calls = "update" ∷ "remove peers" ∷ "update" ∷ "default.web" ∷ "get" ∷ []

remove_service-eq-ok_case :
    (w₁ w₂ w₃ w₄ : List String) × (removed : Bool) × (recording.remove_address_pool
        (pool_name web)
        w₁
      ≡ (ok tt, w₂))
    × (recording.remove_peers_by_service web w₃ ≡ (ok removed, w₄))
    × ((recording.get [] ≡ (ok tt, w₁))
        × (recording.update w₂ ≡ (ok tt, w₃))
        × ((if removed then wrapping "unable to remove service" recording.update else pure tt) w₄
            ≡ (ok tt, calls)))
unfolding remove_service pool_name
remove_service-eq-ok_case = remove_service-eq-ok recording web [] calls refl
