-- ===== src/ControlPlane/Events/Assigned.antt =====
-- What every sequence of events keeps.
use mathlib.Core.Path.{subst}
use mathlib.Core.List.{Perm}
use cloud_provider_cherry.Prelude.{
  String, Bool, true, false, ◌&&◌, ◌==◌, bool_eq, string_eq, List, [], ◌∷◌, ◌≡◌, sym, ap, inl, inr,
  if◌then◌else◌, ℤ,
}
use cloud_provider_cherry.Effect.{Result, ok, err, Result-cases, wrap}
use cloud_provider_cherry.Reservations.{IpAddress}
use cloud_provider_cherry.ControlPlane.{Node, Manager, endpoint_health_url}
use cloud_provider_cherry.ControlPlane.Manage.{assign, get_reservation}
use cloud_provider_cherry.ControlPlane.Filters.{is_live}
use cloud_provider_cherry.ControlPlane.Reassign.{has_health}
use cloud_provider_cherry.ControlPlane.Writes.{
  Touched, AllListed, do_health_check-Touched, try_reassign_away_from_self-Touched,
}
use cloud_provider_cherry.ControlPlane.Sync.{
  ServiceApply, StatusApply, external_service, external_status, learn_ports, apply_external,
  sync_service, on_node_update, on_node_delete,
}
use cloud_provider_cherry.ControlPlane.Endpoints.{
  EndpointsApply, Endpoints, sync_endpoints, on_endpoints, on_service,
}
use cloud_provider_cherry.ControlPlane.Endpoints.Handled.{on_endpoints_lem, on_service_lem}
use cloud_provider_cherry.ControlPlane.Events.{
  State, Outside, Step, node_updated, node_deleted, endpoints_seen, service_seen, Reach, here,
  then_on,
}

-- A property of the world that the calls of the manager keep, when they give the floating IP to
-- no node but one that is not being deleted, passes the test `p` and answers its health check.
pub record IsKept {W : Type 0} (o : Outside W) (p : Node → Bool) (P : W → Type 0) : Type 0 where
  pub of_endpoints : (config : EndpointsApply) (w : W) → P w → P (o.apply_endpoints config w).1
  pub of_service : (service : ServiceApply) (w : W) → P w → P (o.services.apply_service service w).1
  pub of_status : (status : StatusApply) (w : W) → P w → P (o.services.apply_status status w).1
  pub of_assign :
      (m : Manager) (ip : IpAddress) (n : Node) (w : W)
      → is_live n ≡ true
      → p n ≡ true
      → has_health o.cloud m (endpoint_health_url m ip) w n ≡ true
      → P w
      → P (assign o.cloud n ip w).1

module _ {W : Type 0} (o : Outside W) (p : Node → Bool) (P : W → Type 0) (kept : IsKept o p P) where
  of_touched :
      (reorders : (nodes : List Node) → Perm nodes (o.range nodes)) (listed : AllListed o.cloud p)
      (m : Manager) (w : W) {w' : W}
      → Touched o.cloud o.range reorders p listed m w w'
      → P w
      → P w'
  of_touched reorders listed m w (inl same) h = subst P (sym same) h
  of_touched reorders listed m w (inr (ip, (n, live, good, healthy, done))) h =
      subst P (sym done) (kept.of_assign m ip n w live good healthy h)

  status-kept :
      (ip : IpAddress) (r : Result (Unit {0})) (w : W)
      → P w
      → P
          (elim (wrap "failed to apply service" r) as (λ x. Result (Unit {0}) × W) [
            | err e ↦ (err e, w)
            | ok u ↦
                let (r', w₂) = o.services.apply_status (external_status ip) w in
                (wrap "failed to apply service status" r', w₂)
          ]).1
  status-kept ip (ok u) w h = kept.of_status (external_status ip) w h
  status-kept ip (err e) w h = h

  apply_external-kept : (m : Manager) (w : W) → P w → P (apply_external o.cloud o.services m w).1
  unfolding apply_external
  apply_external-kept m w h = elim (Result-cases (get_reservation o.cloud m w)) [
    | inl (x, e) ↦ rw (e, apply_external) h
    | inr (ip, e) ↦
        let applied = o.services.apply_service (external_service m ip) w in
        rw (e, apply_external)
          (status-kept ip applied.0 applied.1 (kept.of_service (external_service m ip) w h))
  ]

  if-kept : (b : Bool) (x y : W) → P x → P y → P (if b then x else y)
  if-kept true x y h k = h
  if-kept false x y h k = k

  on_endpoints-kept :
      (endpoints : Endpoints) (w : W) → P w → P (on_endpoints o.apply_endpoints endpoints w)
  unfolding sync_endpoints
  on_endpoints-kept endpoints w h =
      subst P (sym (on_endpoints_lem o.apply_endpoints endpoints w))
        (if-kept _ _ _ (kept.of_endpoints _ w h) h)

  sync_service-kept :
      (targets : List ℤ) (s : State W) → P s.1 → P (sync_service o.cloud o.services targets s).1.1
  unfolding sync_service
  sync_service-kept [] s h = h
  sync_service-kept (target ∷ targets) (m, w) h = apply_external-kept (learn_ports target m) w h

  on_service-kept :
      (namespace name : String) (targets : List ℤ) (s : State W)
      → P s.1
      → P (on_service o.cloud o.services namespace name targets s).1
  on_service-kept namespace name targets s h =
      subst (λ (t : State W). P t.1)
        (sym (on_service_lem o.cloud o.services namespace name targets s))
        (choose (namespace == "default" && name == "kubernetes"))
    where
      choose : (b : Bool) → P (if b then (sync_service o.cloud o.services targets s).1 else s).1
      choose true = sync_service-kept targets s h
      choose false = h

  module _ (reorders : (nodes : List Node) → Perm nodes (o.range nodes))
      (listed : AllListed o.cloud p) where
    on_node_update-kept :
        (m : Manager) (old new : Node) (w : W)
        → P w
        → P (on_node_update o.cloud o.range m old new w)
    unfolding on_node_update
    on_node_update-kept m old new w h =
        if-kept _ _ _
          (of_touched reorders listed m w
            (try_reassign_away_from_self-Touched o.cloud o.range reorders p listed m new w) h)
          (of_touched reorders listed m w
            (do_health_check-Touched o.cloud o.range reorders p listed m new w) h)

    on_node_delete-kept :
        (m : Manager) (node : Node) (w : W) → P w → P (on_node_delete o.cloud o.range m node w)
    unfolding on_node_delete
    on_node_delete-kept m node w h =
        of_touched reorders listed m w
          (try_reassign_away_from_self-Touched o.cloud o.range reorders p listed m node w) h

    of_world : (s t : State W) (w : W) → t ≡ (s.0, w) → P w → P t.1
    of_world s t w e h = subst P (sym (ap (λ (x : State W). x.1) e)) h

    Step-kept : {s t : State W} → Step o s t → P s.1 → P t.1
    Step-kept {s} {t} (node_updated old new f g e) h =
        of_world s t _ e (on_node_update-kept s.0 old new s.1 h)
    Step-kept {s} {t} (node_deleted node f e) h =
        of_world s t _ e (on_node_delete-kept s.0 node s.1 h)
    Step-kept {s} {t} (endpoints_seen endpoints e) h =
        of_world s t _ e (on_endpoints-kept endpoints s.1 h)
    Step-kept {s} {t} (service_seen namespace name targets e) h =
        subst (λ (x : State W). P x.1) (sym e) (on_service-kept namespace name targets s h)

    -- Where all listed control plane nodes pass a test: whatever events come, in whatever order, and
    -- whether the handlers succeed or fail, a property of the world holds on if it is kept by the
    -- applied endpoints and services, and by giving the floating IP to a node that is not being
    -- deleted, passes the test and answers its health check.
    pub Reach-kept : {s t : State W} → P s.1 → Reach o s t → P t.1
    Reach-kept h here = h
    Reach-kept h (then_on step rest) = Reach-kept (Step-kept step h) rest
