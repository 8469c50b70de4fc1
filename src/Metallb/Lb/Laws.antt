-- ===== src/Metallb/Lb/Laws.antt =====
-- What ServiceIP, SetServiceIP and RemoveService of metallb.go come to.
use cloud_provider_cherry.Prelude.{
  List, String, with_dot-ne-empty, Bool, false, some, ◌≡◌, refl, sym, ap, ◌∙◌, ◌==◌, string_eq,
  if◌then◌else◌,
}
use cloud_provider_cherry.Effect.{ok, pure, ok_inj, wrapping, >>=-eq-ok, wrapping-eq-ok}
use cloud_provider_cherry.LoadBalancers.{Service, Node}
use cloud_provider_cherry.Metallb.Config.{Peer}
use cloud_provider_cherry.LoadBalancers.ReadBack.{index-insert, IsReadBack}
use cloud_provider_cherry.Metallb.Resource.{Resource}
use cloud_provider_cherry.Metallb.Lb.{
  load_balancer_ips_annotation, Configurer, service_ip, set_service_ip, keep_plain, pool_name,
  new_lb, unmap_ip, remove_service,
}

-- The address that was set on a service is the address that is found, unless it is empty.
pub service_ip-set_service_ip :
    (svc after : Service) (ip : String)
    → (ip == "") ≡ false
    → set_service_ip (some svc) ip ≡ ok after
    → service_ip (some after) ≡ some ip
unfolding set_service_ip service_ip
service_ip-set_service_ip svc after ip h e =
    ap (λ (s : Service). service_ip (some s)) (sym (ok_inj e))
    ∙ rw (index-insert load_balancer_ips_annotation ip svc, h, service_ip) refl

pub new_lb-IsReadBack :
    {W : Type 0} (configurer : String → Configurer W) (namespace : String)
    (peers_from_nodes : List Node → List Peer)
    → IsReadBack (new_lb configurer namespace peers_from_nodes)
unfolding new_lb
new_lb-IsReadBack configurer namespace peers_from_nodes svc after ip h e =
    service_ip-set_service_ip svc after ip h e

-- The name of a service's pool is not empty.
pub pool_name_filled : (svc : Resource) → (pool_name svc == "") ≡ false
unfolding pool_name
pool_name_filled svc = with_dot-ne-empty (keep_plain svc.namespace) (keep_plain svc.name)

module _ {W : Type 0} (config : Configurer W) where
  -- RemoveService, when it succeeds, has removed the pool of the service and then the service from
  -- the peers, each of them with success, and has updated the configuration after the pool and, if
  -- that changed the peers, once more at the end.
  pub remove_service-eq-ok :
      (svc : Resource) (w w' : W)
      → remove_service config svc w ≡ (ok tt, w')
      → (w₁ w₂ w₃ w₄ : W) × (removed : Bool) × (config.remove_address_pool (pool_name svc) w₁
          ≡ (ok tt, w₂))
        × (config.remove_peers_by_service svc w₃ ≡ (ok removed, w₄))
        × ((config.get w ≡ (ok tt, w₁))
            × (config.update w₂ ≡ (ok tt, w₃))
            × ((if removed then wrapping "unable to remove service" config.update else pure tt) w₄
                ≡ (ok tt, w')))
  unfolding remove_service unmap_ip
  remove_service-eq-ok svc w w' h =
      let (u, w₁, got, rest₁) =
        >>=-eq-ok (wrapping "unable to retrieve metallb config" config.get) _ w h in
      let (v, w₃, unmapped, rest₂) =
        >>=-eq-ok (wrapping "failed to remove IP" (unmap_ip config svc)) _ w₁ rest₁ in
      let (removed, w₄, peers, rest₃) =
        >>=-eq-ok (wrapping "unable to remove service" (config.remove_peers_by_service svc)) _ w₃
          rest₂ in
      let (t, w₂, pool, updated) =
        >>=-eq-ok
          (wrapping "error removing IPAddressPool" (config.remove_address_pool (pool_name svc))) _
          w₁ (wrapping-eq-ok "failed to remove IP" (unmap_ip config svc) w₁ unmapped) in
      (
        w₁,
        w₂,
        w₃,
        w₄,
        removed,
        wrapping-eq-ok "error removing IPAddressPool" (config.remove_address_pool (pool_name svc))
            w₁ pool,
        wrapping-eq-ok "unable to remove service" (config.remove_peers_by_service svc) w₃ peers,
        (
          wrapping-eq-ok "unable to retrieve metallb config" config.get w got,
          wrapping-eq-ok "error updating" config.update w₂ updated,
          rest₃,
        ),
      )
