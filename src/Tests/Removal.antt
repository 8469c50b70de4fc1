-- ===== src/Tests/Removal.antt =====
-- The removal of a service by the load balancer over the objects of the API.
use cloud_provider_cherry.Prelude.{
  false, Option, none, some, [], ◌≡◌, refl, ◌==◌, string_eq, if◌then◌else◌, sort,
}
use cloud_provider_cherry.Effect.{message, ok, err}
use cloud_provider_cherry.Metallb.Resource.{resource_eq}
use cloud_provider_cherry.Metallb.Services.{service_of, remove_service as remove_from_selectors}
use cloud_provider_cherry.Metallb.Api.{
  BgpPeerSpec, IpAddressPoolSpec, IpAddressPool, BgpAdvertisementSpec, Object, Kind, api_selector,
}
use cloud_provider_cherry.Metallb.Crd.{cpem_labels, peer_remove_service}
use cloud_provider_cherry.Metallb.Crd.Peers.{remove_peers_by_service}
use cloud_provider_cherry.Metallb.Crd.Pools.{remove_address_pool, list_pools, list_advertisements}
use cloud_provider_cherry.Metallb.Crd.Configured.{peer_serves, removed_service_is_gone}
use cloud_provider_cherry.Metallb.Lb.{pool_name, remove_service}
use cloud_provider_cherry.Tests.Cluster.{
  one_object, shown, one_object-IsLawful, left, right, left-IsLawful, right-IsLawful,
}
use cloud_provider_cherry.Tests.Peers.{one_peer, without_web, pool}
use cloud_provider_cherry.Tests.Services.{web}

abbrev World : Type 0
World = Option (Object BgpPeerSpec) × Option (Object IpAddressPoolSpec)

abbrev no_advertisements : Kind World BgpAdvertisementSpec
no_advertisements = record {
  list = λ matching namespace w. ok [];
  create = λ o w. (err (message "refused"), w);
  patch = λ o o' w. (err (message "refused"), w);
  delete = λ o w. (err (message "refused"), w);
}

abbrev own_pool : IpAddressPool
own_pool = record pool { name = "default.web" }

removed_service_is_gone_example :
    (shown {A = IpAddressPoolSpec} none "default.web"
      ≡ (if pool_name web == "default.web" then none else shown (some own_pool) "default.web"))
    × (peer_serves web (shown (some without_web) "node-1-10.0.0.1") ≡ false)
unfolding remove_service remove_address_pool list_pools list_advertisements remove_peers_by_service
    peer_remove_service remove_from_selectors service_of sort
removed_service_is_gone_example =
    removed_service_is_gone "metallb-system" (left one_object) (λ w n. shown w.0 n)
      (left-IsLawful one_object cpem_labels "metallb-system" shown
        (one_object-IsLawful cpem_labels "metallb-system"))
      no_advertisements (right one_object) (λ w n. shown w.1 n)
      (right-IsLawful one_object cpem_labels "metallb-system" shown
        (one_object-IsLawful cpem_labels "metallb-system"))
      (λ o o' w. refl) (λ o w. refl) (λ o o' w. refl) (λ o w. refl) (λ text. 0) (λ peers. peers) web
      (one_peer, some own_pool) (some without_web, none) "node-1-10.0.0.1" "default.web" refl refl
