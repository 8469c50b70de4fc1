-- ===== src/ControlPlane/Writes.antt =====
-- cherry/fip_controlplane_reconciliation.go: the only write of a health check and of giving the
-- floating IP away, whether they succeed or fail.
use cloud_provider_cherry.Prelude.{
  String, Bool, true, ◌||◌, List, [], ◌≡◌, refl, ◌⊎◌, inl, inr, all, find, find-passes, Bool-cases,
  Option-cases,
}
use mathlib.Core.List.{Perm}
use cloud_provider_cherry.Effect.{ok, Result-cases}
use cloud_provider_cherry.Reservations.{IpAddress}
use cloud_provider_cherry.ControlPlane.{
  Node, Manager, Cloud, node_is_assigned, health_filters, away_filters, is_zero,
  endpoint_health_url,
}
use cloud_provider_cherry.ControlPlane.Manage.{
  assign, reassign, collect, potential_nodes, try_reassign, get_reservation, check_url, answers,
  check_assigned, do_health_check, try_reassign_away_from_self,
}
use cloud_provider_cherry.ControlPlane.Filters.{
  is_live, all-health_filters, live-health_filters, all-collect,
}
use cloud_provider_cherry.ControlPlane.Reassign.{
  has_health, reassign_lem, Keeps, Lives, all-to_list, all-potential_nodes,
}
use cloud_provider_cherry.ControlPlane.HealthCheck.{away_filters-Keeps, away_filters-Lives}

module _ {W : Type 0} (cloud : Cloud W) where
  -- The world after the floating IP was given to a node that is not being deleted, passes the test
  -- `p`, and has an address that answers its health check.
  abbrev pub Written : Manager → IpAddress → (Node → Bool) → W → W → Type 0
  Written m ip p w w' =
      (n : Node) × (is_live n ≡ true)
      × (p n ≡ true)
      × (has_health cloud m (endpoint_health_url m ip) w n ≡ true)
      × (w' ≡ (assign cloud n ip w).1)

  reassign-Written :
      (m : Manager) (ip : IpAddress) (p : Node → Bool) (w : W) (nodes : List Node)
      → all is_live nodes ≡ true
      → all p nodes ≡ true
      → let w' = (reassign cloud m nodes ip (endpoint_health_url m ip) w).1 in
        (w' ≡ w) ⊎ Written m ip p w w'
  reassign-Written m ip p w nodes alive good =
      let url = endpoint_health_url m ip in
      let health = has_health cloud m url w in
      elim (Bool-cases (is_zero m.node_api_server_port)) [
        | inl e ↦ rw (reassign_lem, e) (inl refl)
        | inr e ↦ elim (Option-cases (find health nodes)) [
          | inl f ↦ rw (reassign_lem, e, f) (inl refl)
          | inr (n, f) ↦
              let live = find-passes health is_live nodes alive f in
              let kept = find-passes health p nodes good f in
              rw (reassign_lem, e, f) (inr (n, live.1, kept.1, kept.0, refl))
        ]
      ]

  -- All control plane nodes that are ever listed pass the test.
  abbrev pub AllListed : (Node → Bool) → Type 0
  AllListed p =
      (w : W) (s : String) (nodes : List Node)
      → cloud.list_nodes s w ≡ ok nodes
      → all p nodes ≡ true

  module _ (range : List Node → List Node)
      (reorders : (nodes : List Node) → Perm nodes (range nodes)) (p : Node → Bool)
      (listed : AllListed p) where
    try_reassign-Written :
        (m : Manager) (ip : IpAddress) (fs : List (List Node → List Node)) (w : W)
        → Keeps cloud p fs
        → Lives cloud fs
        → let w' = (try_reassign cloud range m ip fs w).1 in (w' ≡ w) ⊎ Written m ip p w w'
    unfolding try_reassign
    try_reassign-Written m ip fs w keeps lives =
        elim (Result-cases (collect cloud m.selectors [] w)) [
          | inl (x, e) ↦ rw (e, try_reassign) (inl refl)
          | inr (set, e) ↦
              rw (e, try_reassign)
                (reassign-Written m ip p w (potential_nodes cloud range fs set)
                  (all-potential_nodes cloud range reorders is_live fs set (lives _))
                  (all-potential_nodes cloud range reorders p fs set (
                    keeps _ (
                      all-to_list cloud range reorders p set
                        (all-collect cloud p w (listed w) m.selectors [] set refl e)))))
        ]

    -- What an event may do to the world: nothing, or the one write.
    abbrev pub Touched : Manager → W → W → Type 0
    Touched m w w' = (w' ≡ w) ⊎ ((ip : IpAddress) × Written m ip p w w')

    touched :
        (m : Manager) (ip : IpAddress) {w w' : W} → (w' ≡ w) ⊎ Written m ip p w w' → Touched m w w'
    touched m ip (inl same) = inl same
    touched m ip (inr done) = inr (ip, done)

    check_assigned-Touched :
        (m : Manager) (ip : IpAddress) (node : Node) (w : W)
        → Touched m w (check_assigned cloud range m ip node w).1
    unfolding check_assigned
    check_assigned-Touched m ip node w =
        elim (Option-cases (cloud.new_request (check_url cloud range m ip node))) [
          | inr (x, e) ↦ rw (e, check_assigned) (inl refl)
          | inl e ↦ elim (Bool-cases (answers cloud range (check_url cloud range m ip node) w)) [
            | inl a ↦ rw (e, a, check_assigned) (inl refl)
            | inr a ↦
                rw (e, a, check_assigned)
                  (touched m ip (
                    try_reassign-Written m ip health_filters w (all-health_filters p)
                      live-health_filters))
          ]
        ]

    pub do_health_check-Touched :
        (m : Manager) (node : Node) (w : W) → Touched m w (do_health_check cloud range m node w).1
    unfolding do_health_check
    do_health_check-Touched m node w = elim (Result-cases (get_reservation cloud m w)) [
      | inl (x, e) ↦ rw (e, do_health_check) (inl refl)
      | inr (ip, e) ↦ elim (Bool-cases (is_zero ip.targeted_to)) [
        | inl t ↦
            rw (e, t, do_health_check)
              (touched m ip (
                try_reassign-Written m ip health_filters w (all-health_filters p)
                  live-health_filters))
        | inr t ↦ elim (Bool-cases (node_is_assigned node ip)) [
          | inl a ↦ rw (e, t, a, do_health_check) (check_assigned-Touched m ip node w)
          | inr a ↦ rw (e, t, a, do_health_check) (inl refl)
        ]
      ]
    ]

    pub try_reassign_away_from_self-Touched :
        (m : Manager) (self : Node) (w : W)
        → Touched m w (try_reassign_away_from_self cloud range m self w).1
    unfolding try_reassign_away_from_self
    try_reassign_away_from_self-Touched m self w = elim (Result-cases (get_reservation cloud m w)) [
      | inl (x, e) ↦ rw (e, try_reassign_away_from_self) (inl refl)
      | inr (ip, e) ↦ elim (Bool-cases (node_is_assigned self ip || is_zero ip.targeted_to)) [
        | inl t ↦
            rw (e, t, try_reassign_away_from_self)
              (touched m ip (
                try_reassign-Written m ip (away_filters self) w (away_filters-Keeps cloud p self)
                  (away_filters-Lives cloud self)))
        | inr t ↦ rw (e, t, try_reassign_away_from_self) (inl refl)
      ]
    ]
