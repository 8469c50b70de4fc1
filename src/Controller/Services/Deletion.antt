-- ===== src/Controller/Services/Deletion.antt =====
-- EnsureLoadBalancerDeleted, and what is left when the implementor fails.
use cloud_provider_cherry.Prelude.{true, none, some, List, ◌≡◌, refl}
use cloud_provider_cherry.Effect.{wrap, then_do, Error, wrapped, ok, err}
use cloud_provider_cherry.Reservations.{IpAddress}
use cloud_provider_cherry.LoadBalancers.{Service}
use cloud_provider_cherry.Controller.{LoadBalancers, is_service_managed, reservation_of}
use cloud_provider_cherry.Controller.Services.{ensure_load_balancer_deleted}

module _ {W : Type 0} (l : LoadBalancers W) where
  -- Without a reservation of the service, the deletion reports success, and it has listed the
  -- addresses and done nothing else.
  deleted_without_reservation :
      (svc : Service) (ips : List IpAddress) (w w₁ : W)
      → is_service_managed svc ≡ true
      → l.calls.list_ips w ≡ (ok ips, w₁)
      → reservation_of l svc ips ≡ none
      → ensure_load_balancer_deleted l svc w ≡ (ok tt, w₁)
  unfolding ensure_load_balancer_deleted
  deleted_without_reservation svc ips w w₁ managed listed absent =
      rw (ensure_load_balancer_deleted, managed, listed, wrap, then_do, absent) refl

  -- A deletion whose implementor fails, after the reservation of the service is removed, reports
  -- the error; but as soon as the API lists no reservation of the service any more, the deletion
  -- that is tried again reports success after listing the addresses, without asking the
  -- implementor to remove the service.
  pub deletion_not_finished :
      (svc : Service) (ips ips' : List IpAddress) (r : IpAddress) (e : Error) (w w₁ w₂ w₃ w₄ : W)
      → is_service_managed svc ≡ true
      → l.calls.list_ips w ≡ (ok ips, w₁)
      → reservation_of l svc ips ≡ some r
      → l.calls.remove_ip r.id w₁ ≡ (ok tt, w₂)
      → l.implementor.remove_service svc.namespace svc.name r.cidr w₂ ≡ (err e, w₃)
      → l.calls.list_ips w₃ ≡ (ok ips', w₄)
      → reservation_of l svc ips' ≡ none
      → (ensure_load_balancer_deleted l svc w
          ≡ (err (wrapped "error removing IP from configmap" e), w₃))
        × (ensure_load_balancer_deleted l svc w₃ ≡ (ok tt, w₄))
  unfolding ensure_load_balancer_deleted
  deletion_not_finished svc ips ips' r e w w₁ w₂ w₃ w₄ managed listed found removed failed again
        gone =
      (
        rw (ensure_load_balancer_deleted, managed, listed, wrap, then_do, found, removed, failed)
            refl,
        deleted_without_reservation svc ips' w₃ w₄ managed again gone,
      )
