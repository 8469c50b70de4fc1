-- ===== src/ControlPlane/Reassign.antt =====
-- cherry/fip_controlplane_reconciliation.go: which node receives the floating IP, and when the
-- reconciliation leaves everything as it is.
use cloud_provider_cherry.Prelude.{
  String, Bool, true, Option, none, some, List, [], ◌∷◌, string_eq, nat_eq, if◌then◌else◌, ◌≡◌,
  refl, sym, ◌∙◌, ap, any, all, find, find-passes, Bool-cases, all-perm,
}
use mathlib.Core.Logic.{inl, inr}
use mathlib.Core.List.{Perm}
use cloud_provider_cherry.Effect.{
  Error, message, Result, ok, err, Action, Result-cases, ok-ne-err, wrapping-eq-ok,
}
use cloud_provider_cherry.Reservations.{IpAddress}
use cloud_provider_cherry.ControlPlane.{
  NodeAddress, Node, Manager, Cloud, NodeSet, run_filters, to_list, filter_set, is_zero,
  endpoint_health_url,
}
use cloud_provider_cherry.ControlPlane.Manage.{
  is_healthy, assign, reassign_addresses, reassign_nodes, reassign, collect, potential_nodes,
  try_reassign,
}
use cloud_provider_cherry.ControlPlane.Filters.{is_live, values, all-add_node_list, all-collect}

module _ {W : Type 0} (cloud : Cloud W) where
  -- A node with an address whose health check answers 200.
  abbrev pub has_health : Manager → String → W → Node → Bool
  has_health m url w n = any (is_healthy cloud m url w) n.addresses

  abbrev pub no_candidate : Error
  no_candidate = message "ccm didn't find a good candidate for IP allocation. Cluster is unhealthy"

  abbrev pub no_port : Error
  no_port =
      message
        "control plane node apiserver port not yet determined, cannot reassign, will try again on next loop"

  -- The floating IP goes to the node that was found.
  abbrev pub assign_found : IpAddress → Option Node → Action W Unit
  assign_found ip none w = (err no_candidate, w)
  assign_found ip (some n) w = assign cloud n ip w

  reassign_addresses-eq :
      (m : Manager) (ip : IpAddress) (url : String) (n : Node) (addresses : List NodeAddress)
      (rest : Action W Unit) (w : W)
      → reassign_addresses cloud m ip url n addresses rest w
        ≡ (if any (is_healthy cloud m url w) addresses then assign cloud n ip w else rest w)
  unfolding reassign_addresses
  reassign_addresses-eq m ip url n [] rest w = refl
  reassign_addresses-eq m ip url n (a ∷ others) rest w =
      elim (Bool-cases (is_healthy cloud m url w a)) [
        | inl e ↦ rw e refl
        | inr e ↦ rw e (reassign_addresses-eq m ip url n others rest w)
      ]

  reassign_nodes-eq :
      (m : Manager) (ip : IpAddress) (url : String) (nodes : List Node) (w : W)
      → reassign_nodes cloud m ip url nodes w ≡ assign_found ip (find (has_health m url w) nodes) w
  unfolding reassign_nodes
  reassign_nodes-eq m ip url [] w = refl
  reassign_nodes-eq m ip url (n ∷ ns) w =
      reassign_addresses-eq m ip url n n.addresses (reassign_nodes cloud m ip url ns) w
      ∙ elim (Bool-cases (has_health m url w n)) [
        | inl e ↦ rw e refl
        | inr e ↦ rw e (reassign_nodes-eq m ip url ns w)
      ]

  -- reassign: without a known API server port nothing is done; otherwise the first node that has a
  -- healthy address receives the floating IP, and without such a node there is an error and the
  -- world is as before.
  pub reassign_lem :
      (m : Manager) (nodes : List Node) (ip : IpAddress) (url : String) (w : W)
      → reassign cloud m nodes ip url w ≡ (
          if is_zero m.node_api_server_port
          then (err no_port, w)
          else assign_found ip (find (has_health m url w) nodes) w)
  unfolding reassign
  reassign_lem m nodes ip url w = elim (Bool-cases (is_zero m.node_api_server_port)) [
    | inl e ↦ rw e refl
    | inr e ↦ rw e (reassign_nodes-eq m ip url nodes w)
  ]

  assign_found-eq-ok :
      (ip : IpAddress) (found : Option Node) (w : W) {w' : W}
      → assign_found ip found w ≡ (ok tt, w')
      → (n : Node) × (found ≡ some n) × (assign cloud n ip w ≡ (ok tt, w'))
  assign_found-eq-ok ip none w {w'} h = ok-ne-err (ap (λ (r : Result Unit × W). r.0) h)
  assign_found-eq-ok ip (some n) w {w'} h = (n, refl, h)

  reassign-eq-ok :
      (m : Manager) (nodes : List Node) (ip : IpAddress) (url : String) (w : W) {w' : W}
      → reassign cloud m nodes ip url w ≡ (ok tt, w')
      → (n : Node) × (find (has_health m url w) nodes ≡ some n)
        × (assign cloud n ip w ≡ (ok tt, w'))
  reassign-eq-ok m nodes ip url w {w'} h = elim (Bool-cases (is_zero m.node_api_server_port)) [
    | inl e ↦
        ok-ne-err (ap (λ (r : Result Unit × W). r.0) (rw (reassign_lem m nodes ip url w, e) at h))
    | inr e ↦
        assign_found-eq-ok ip (find (has_health m url w) nodes) w
          (rw (reassign_lem m nodes ip url w, e) at h)
  ]

  -- The node that receives the floating IP: it is not being deleted, one of its addresses answers
  -- its health check, and it passes the test `p`.
  abbrev pub Received : Manager → IpAddress → (Node → Bool) → W → W → Type 0
  Received m ip p w w' =
      (n : Node) × (is_live n ≡ true)
      × (p n ≡ true)
      × (has_health m (endpoint_health_url m ip) w n ≡ true)
      × (assign cloud n ip w ≡ (ok tt, w'))

  received :
      (m : Manager) (ip : IpAddress) (p : Node → Bool) (w : W) {w' : W} (nodes : List Node)
      → all is_live nodes ≡ true
      → all p nodes ≡ true
      → (n : Node) × (find (has_health m (endpoint_health_url m ip) w) nodes ≡ some n)
        × (assign cloud n ip w ≡ (ok tt, w'))
      → Received m ip p w w'
  received m ip p w {w'} nodes alive good (n, found, done) =
      let health = has_health m (endpoint_health_url m ip) w in
      let live = find-passes health is_live nodes alive found in
      let kept = find-passes health p nodes good found in (n, live.1, kept.1, kept.0, done)

  -- What the callers' filters have in common.
  abbrev pub Keeps : (Node → Bool) → List (List Node → List Node) → Type 0
  Keeps p fs = (nodes : List Node) → all p nodes ≡ true → all p (run_filters fs nodes) ≡ true

  abbrev pub Lives : List (List Node → List Node) → Type 0
  Lives fs = (nodes : List Node) → all is_live (run_filters fs nodes) ≡ true

  module _ (range : List Node → List Node)
      (reorders : (nodes : List Node) → Perm nodes (range nodes)) where
    pub all-to_list :
        (p : Node → Bool) (set : NodeSet)
        → all p (values set) ≡ true
        → all p (to_list range set) ≡ true
    unfolding to_list
    all-to_list p set h = sym (all-perm p (reorders (values set))) ∙ h

    pub all-potential_nodes :
        (p : Node → Bool) (fs : List (List Node → List Node)) (set : NodeSet)
        → all p (run_filters fs (to_list range set)) ≡ true
        → all p (potential_nodes cloud range fs set) ≡ true
    unfolding potential_nodes filter_set
    all-potential_nodes p fs set h =
        all-to_list p _ (all-add_node_list p (run_filters fs (to_list range set)) [] h refl)

    -- The same filters, over the nodes that were listed.
    pub try_reassign-of_set :
        (m : Manager) (ip : IpAddress) (fs : List (List Node → List Node)) (p : Node → Bool) (w : W)
        {w' : W} (set : NodeSet)
        → collect cloud m.selectors [] w ≡ ok set
        → Lives fs
        → all p (run_filters fs (to_list range set)) ≡ true
        → try_reassign cloud range m ip fs w ≡ (ok tt, w')
        → Received m ip p w w'
    unfolding try_reassign
    try_reassign-of_set m ip fs p w {w'} set e lives good h =
        received m ip p w (potential_nodes cloud range fs set)
          (all-potential_nodes is_live fs set (lives _)) (all-potential_nodes p fs set good)
          (reassign-eq-ok m (potential_nodes cloud range fs set) ip (endpoint_health_url m ip) w (
            wrapping-eq-ok "failed to assign the control plane endpoint"
              (reassign cloud m (potential_nodes cloud range fs set) ip (endpoint_health_url m ip))
              w (rw (e, try_reassign) at h)))

    pub try_reassign-eq-ok :
        (m : Manager) (ip : IpAddress) (fs : List (List Node → List Node)) (p : Node → Bool) (w : W)
        {w' : W}
        → Keeps p fs
        → Lives fs
        → ((s : String) (nodes : List Node) → cloud.list_nodes s w ≡ ok nodes → all p nodes ≡ true)
        → try_reassign cloud range m ip fs w ≡ (ok tt, w')
        → Received m ip p w w'
    unfolding try_reassign
    try_reassign-eq-ok m ip fs p w {w'} keeps lives listed h =
        elim (Result-cases (collect cloud m.selectors [] w)) [
          | inl (x, e) ↦ ok-ne-err (ap (λ (r : Result Unit × W). r.0) (rw (e, try_reassign) at h))
          | inr (set, e) ↦
              try_reassign-of_set m ip fs p w set e lives
                (keeps _
                  (all-to_list p set (all-collect cloud p w listed m.selectors [] set refl e)))
                h
        ]
