-- ===== src/ControlPlane/Endpoints/Handled.antt =====
-- Which events the handlers of endpoints and of services act on.
use cloud_provider_cherry.Prelude.{
  String, Bool, true, false, ◌&&◌, ◌||◌, ◌==◌, string_eq, ◌≡◌, refl, if◌then◌else◌, List, ℤ,
}
use cloud_provider_cherry.Effect.{Action}
use cloud_provider_cherry.ControlPlane.{Manager, Cloud}
use cloud_provider_cherry.ControlPlane.Sync.{Services, sync_service}
use cloud_provider_cherry.ControlPlane.Endpoints.{
  EndpointsApply, Endpoints, sync_endpoints, on_endpoints, on_service,
}

abbrev differs : Bool → Bool
differs p = if p then false else true

-- The filter and the test of the handler are together the conjunction.
both_tests {ℓ} :
    {A : Type ℓ} (p q : Bool) (x y : A)
    → (if differs p && differs q then y else if differs p || differs q then y else x)
      ≡ (if p && q then x else y)
both_tests true true x y = refl
both_tests true false x y = refl
both_tests false true x y = refl
both_tests false false x y = refl

-- Endpoints are handed to syncEndpoints if they are default/kubernetes, and otherwise nothing changes.
pub on_endpoints_lem :
    {W : Type 0} (apply_endpoints : EndpointsApply → Action W Unit) (endpoints : Endpoints) (w : W)
    → on_endpoints apply_endpoints endpoints w ≡ (
        if endpoints.namespace == "default" && endpoints.name == "kubernetes"
        then (sync_endpoints apply_endpoints endpoints w).1
        else w)
unfolding on_endpoints
on_endpoints_lem apply_endpoints endpoints w =
    both_tests (endpoints.namespace == "default") (endpoints.name == "kubernetes")
      (sync_endpoints apply_endpoints endpoints w).1 w

-- A service is handed to syncService if it is default/kubernetes, and otherwise nothing changes.
pub on_service_lem :
    {W : Type 0} (cloud : Cloud W) (services : Services W) (namespace name : String)
    (targets : List ℤ) (mw : Manager × W)
    → on_service cloud services namespace name targets mw ≡ (
        if namespace == "default" && name == "kubernetes"
        then (sync_service cloud services targets mw).1
        else mw)
unfolding on_service
on_service_lem cloud services namespace name targets mw =
    both_tests (namespace == "default") (name == "kubernetes")
      (sync_service cloud services targets mw).1 mw
