-- ===== src/ControlPlane/HealthCheck.antt =====
-- cherry/fip_controlplane_reconciliation.go: doHealthCheck and tryReassignAwayFromSelf.
use cloud_provider_cherry.Prelude.{
  String, Bool, true, false, ◌&&◌, ◌||◌, none, List, [], ◌!=◌, string_eq, if◌then◌else◌, ◌≡◌, refl,
  ◌⊎◌, inl, inr, all, any, Bool-cases,
}
use mathlib.Core.List.{Perm}
use cloud_provider_cherry.Effect.{ok}
use cloud_provider_cherry.Reservations.{IpAddress}
use cloud_provider_cherry.ControlPlane.{
  Node, Manager, Cloud, NodeSet, node_is_assigned, run_filters, health_filters, away_filters,
  is_zero,
}
use cloud_provider_cherry.ControlPlane.Manage.{
  get_reservation, collect, check_url, answers, check_assigned, do_health_check,
}
use cloud_provider_cherry.ControlPlane.Filters.{
  is_live, is_best, values, all-health_filters, live-health_filters, away_filters-eq,
  all-try_filter_self,
}
use cloud_provider_cherry.ControlPlane.Reassign.{Received, Keeps, Lives}

pub away_filters-Keeps :
    {W : Type 0} (cloud : Cloud W) (p : Node → Bool) (self : Node)
    → Keeps cloud p (away_filters self)
away_filters-Keeps cloud p self nodes h =
    rw (away_filters-eq self nodes)
      (all-try_filter_self p self (run_filters health_filters nodes) (all-health_filters p nodes h))

pub away_filters-Lives :
    {W : Type 0} (cloud : Cloud W) (self : Node) → Lives cloud (away_filters self)
away_filters-Lives cloud self nodes = rw (away_filters-eq self nodes) (
    all-try_filter_self is_live self (run_filters health_filters nodes) (live-health_filters nodes))

-- A node of another name that is live and schedulable, if there is such a node among the listed ones.
abbrev pub is_away : Node → List Node → Node → Bool
is_away self nodes = λ n.
    if any (λ x. is_best x && (x.name != self.name)) nodes
    then is_best n && (n.name != self.name)
    else true

module _ {W : Type 0} (cloud : Cloud W) (range : List Node → List Node) (m : Manager) (w : W) where
  -- The node does not have the floating IP and some server does: a health check does nothing.
  pub do_health_check-elsewhere :
      (ip : IpAddress) (node : Node)
      → get_reservation cloud m w ≡ ok ip
      → is_zero ip.targeted_to ≡ false
      → node_is_assigned node ip ≡ false
      → do_health_check cloud range m node w ≡ (ok tt, w)
  unfolding do_health_check
  do_health_check-elsewhere ip node e t a = rw (e, t, a, do_health_check) refl

  -- The node has the floating IP and its health check answers 200: nothing changes.
  pub do_health_check-healthy :
      (ip : IpAddress) (node : Node)
      → get_reservation cloud m w ≡ ok ip
      → is_zero ip.targeted_to ≡ false
      → cloud.new_request (check_url cloud range m ip node) ≡ none
      → answers cloud range (check_url cloud range m ip node) w ≡ true
      → do_health_check cloud range m node w ≡ (ok tt, w)
  unfolding do_health_check check_assigned
  do_health_check-healthy ip node e t r a = elim (Bool-cases (node_is_assigned node ip)) [
    | inl h ↦ rw (e, t, h, r, a, do_health_check, check_assigned) refl
    | inr h ↦ rw (e, t, h, do_health_check) refl
  ]

  -- What a reconciliation that succeeds has done: nothing, or it has given the floating IP to a live
  -- healthy node.
  abbrev pub Reconciled : (Node → Bool) → W → Type 0
  Reconciled p w' =
      (w' ≡ w)
      ⊎ ((ip : IpAddress) × (get_reservation cloud m w ≡ ok ip) × Received cloud m ip p w w')

  module _ (reorders : (nodes : List Node) → Perm nodes (range nodes)) (p : Node → Bool)
      (listed : (s : String) (nodes : List Node)
        → cloud.list_nodes s w ≡ ok nodes
        → all p nodes ≡ true) where
    -- What a node that gives the floating IP away has done: nothing, if it does not have it and
    -- some server does; otherwise a node of `candidates_away` has received it.
    abbrev pub GivenAway : Node → W → Type 0
    GivenAway self w' =
        (ip : IpAddress) × (get_reservation cloud m w ≡ ok ip)
        × (((node_is_assigned self ip || is_zero ip.targeted_to) ≡ false) × (w' ≡ w)
            ⊎ (set : NodeSet) × (collect cloud m.selectors [] w ≡ ok set)
              × ((node_is_assigned self ip || is_zero ip.targeted_to) ≡ true)
              × Received cloud m ip (λ n. p n && is_away self (values set) n) w w')
