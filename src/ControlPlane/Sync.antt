-- ===== src/ControlPlane/Sync.antt =====
-- cherry/fip_controlplane_reconciliation.go: syncService, and the handlers of node events.
use cloud_provider_cherry.Prelude.{
  String, Bool, false, ◌&&◌, ◌||◌, ◌!=◌, bool_eq, List, [], ◌∷◌, ◌≡◌, refl, ap, ◌∙◌, if◌then◌else◌,
  ℤ, Labels,
}
use cloud_provider_cherry.Effect.{message, ok, err, wrap, Action}
use cloud_provider_cherry.Reservations.{IpAddress}
use cloud_provider_cherry.ControlPlane.{Node, Manager, Cloud, is_control_plane_node, is_zero}
use cloud_provider_cherry.ControlPlane.Manage.{
  get_reservation, do_health_check, try_reassign_away_from_self,
}

abbrev pub external_service_name : String
external_service_name = "cloud-provider-cherry-kubernetes-external"

abbrev pub external_service_namespace : String
external_service_namespace = "kube-system"

-- What is applied to the external service: its specification, and its status.
pub record ServiceApply : Type 0 where
  pub name : String
  pub namespace : String
  pub annotations : Labels
  pub type : String
  pub port_name : String
  pub protocol : String
  pub port : ℤ
  pub target_port : ℤ
  pub load_balancer_ip : String

pub record StatusApply : Type 0 where
  pub name : String
  pub namespace : String
  pub ingress_ip : String
  pub ip_mode : String

pub record Services (W : Type 0) : Type 0 where
  pub apply_service : ServiceApply → Action W Unit
  pub apply_status : StatusApply → Action W Unit

-- Lines 475 to 480: the ports, once the first target port is known.
unfoldable pub learn_ports : ℤ → Manager → Manager
learn_ports target m = record m {
  node_api_server_port = target;
  api_server_port = if is_zero m.api_server_port then target else m.api_server_port;
}

unfoldable pub external_service : Manager → IpAddress → ServiceApply
external_service m ip = record {
  name = external_service_name;
  namespace = external_service_namespace;
  annotations =
      ("metallb.universe.tf/address-pool", "disabled-metallb-do-not-use-any-address-pool") ∷ [];
  type = "LoadBalancer";
  port_name = "https";
  protocol = "TCP";
  port = m.api_server_port;
  target_port = m.node_api_server_port;
  load_balancer_ip = ip.address;
}

unfoldable pub external_status : IpAddress → StatusApply
external_status ip = record {
  name = external_service_name;
  namespace = external_service_namespace;
  ingress_ip = ip.address;
  ip_mode = "Proxy";
}

learn_ports-keep :
    (target : ℤ) (m : Manager)
    → is_zero m.api_server_port ≡ false
    → (learn_ports target m).api_server_port ≡ m.api_server_port
unfolding learn_ports
learn_ports-keep target m h = rw h refl

module _ {W : Type 0} (cloud : Cloud W) (services : Services W) where
  -- What syncService does once the ports are known.
  unfoldable pub apply_external : Manager → Action W Unit
  unfolding external_service external_status
  apply_external m w =
      elim (wrap "failed to get the control plane endpoint for the cluster"
        (get_reservation cloud m w)) [
          | err e ↦ (err e, w)
          | ok ip ↦ apply_both (external_service m ip) (external_status ip) w
        ]
    where
      apply_both : ServiceApply → StatusApply → Action W Unit
      apply_both service status w =
          let (r, w₁) = services.apply_service service w in
          elim (wrap "failed to apply service" r) [
            | err e ↦ (err e, w₁)
            | ok u ↦
                let (r', w₂) = services.apply_status status w₁ in
                (wrap "failed to apply service status" r', w₂)
          ]

  -- syncService, of the target ports of the service.
  unfoldable pub sync_service : List ℤ → Action (Manager × W) Unit
  unfolding learn_ports apply_external
  sync_service [] mw =
      (err (message "default/kubernetes service does not have any ports defined"), mw)
  sync_service (target ∷ targets) (m, w) =
      let m' = learn_ports target m in let (r, w') = apply_external m' w in (r, (m', w'))

  -- The ports that the manager has after a series of syncs.
  unfoldable pub sync_services : List (List ℤ) → Manager × W → Manager × W
  unfolding sync_service
  sync_services [] mw = mw
  sync_services (targets ∷ rest) mw = sync_services rest (sync_service targets mw).1

  -- The control plane's port, once known, is kept by all later syncs, whether they fail or not.
  pub sync_services-keep :
      (services_seen : List (List ℤ)) (m : Manager) (w : W)
      → is_zero m.api_server_port ≡ false
      → (sync_services services_seen (m, w)).0.api_server_port ≡ m.api_server_port
  unfolding sync_services sync_service learn_ports
  sync_services-keep [] m w h = refl
  sync_services-keep ([] ∷ rest) m w h = sync_services-keep rest m w h
  sync_services-keep ((target ∷ targets) ∷ rest) m w h =
      let kept = learn_ports-keep target m h in
      sync_services-keep rest (learn_ports target m) (apply_external (learn_ports target m) w).1
        (ap is_zero kept ∙ h)
      ∙ kept

-- The filter of the node informer.
unfoldable pub node_filter : Manager → Node → Bool
node_filter m node =
    if is_zero m.api_server_port || is_zero m.node_api_server_port
    then false
    else is_control_plane_node node

module _ {W : Type 0} (cloud : Cloud W) (range : List Node → List Node) where
  -- UpdateFunc and DeleteFunc of the node informer; an error is only logged.
  unfoldable pub on_node_update : Manager → Node → Node → W → W
  unfolding do_health_check try_reassign_away_from_self
  on_node_update m old new w =
      if (old.unschedulable != new.unschedulable) && new.unschedulable
      then (try_reassign_away_from_self cloud range m new w).1
      else (do_health_check cloud range m new w).1

  unfoldable pub on_node_delete : Manager → Node → W → W
  unfolding try_reassign_away_from_self
  on_node_delete m node w = (try_reassign_away_from_self cloud range m node w).1
