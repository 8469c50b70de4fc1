-- ===== src/ControlPlane/Manage.antt =====
-- cherry/fip_controlplane_reconciliation.go: reassign, tryReassign, tryReassignAwayFromSelf,
-- doHealthCheck and the ports that syncService keeps.
use cloud_provider_cherry.Prelude.{
  String, Bool, false, ◌&&◌, ◌||◌, none, some, List, [], ◌∷◌, ◌==◌, ◌!=◌, nat_eq, string_eq,
  if◌then◌else◌, format_int,
}
use cloud_provider_cherry.Effect.{
  message, wrapped, Result, ok, err, wrap, Action, fail, lift, wrapping, ◌>>=◌,
}
use cloud_provider_cherry.Instances.{server_id_from_provider_id}
use cloud_provider_cherry.Reservations.{IpAddress, ip_reservation_by_all_tags}
use cloud_provider_cherry.ControlPlane.{
  NodeAddress, Node, Manager, Cloud, node_is_assigned, NodeSet, add_node_list, health_url, is_zero,
  endpoint_health_url, health_filters, away_filters, to_list, filter_set,
}

module _ {W : Type 0} (cloud : Cloud W) where
  -- Lines 264 to 289: whether the health check of this address answers 200.
  unfoldable pub is_healthy : Manager → String → W → NodeAddress → Bool
  unfolding health_url
  is_healthy m fip_url w a =
      if a.type == "Hostname"
      then false
      else (let url = health_url a.address m.node_api_server_port in
          if url == fip_url then false else elim (cloud.new_request url) [
            | some e ↦ false
            | none ↦ elim (cloud.get url w) [ err e ↦ false | ok status ↦ status == 200 ]
          ])

  -- Lines 290 to 298: the node receives the floating IP.
  unfoldable pub assign : Node → IpAddress → Action W Unit
  assign node ip = do
    id ← lift (server_id_from_provider_id node.provider_id)
    cloud.update_ip ip.id (format_int id)

  -- The loop over the addresses of one node, and what follows it.
  unfoldable pub reassign_addresses :
      Manager → IpAddress → String → Node → List NodeAddress → Action W Unit → Action W Unit
  unfolding is_healthy assign
  reassign_addresses m ip fip_url node [] rest w = rest w
  reassign_addresses m ip fip_url node (a ∷ others) rest w =
      if is_healthy m fip_url w a
      then assign node ip w
      else reassign_addresses m ip fip_url node others rest w

  unfoldable pub reassign_nodes : Manager → IpAddress → String → List Node → Action W Unit
  unfolding reassign_addresses
  reassign_nodes m ip fip_url [] =
      fail (message "ccm didn't find a good candidate for IP allocation. Cluster is unhealthy")
  reassign_nodes m ip fip_url (n ∷ ns) =
      reassign_addresses m ip fip_url n n.addresses (reassign_nodes m ip fip_url ns)

  unfoldable pub reassign : Manager → List Node → IpAddress → String → Action W Unit
  unfolding reassign_nodes
  reassign m nodes ip fip_url =
      if is_zero m.node_api_server_port
      then fail (
          message
            "control plane node apiserver port not yet determined, cannot reassign, will try again on next loop")
      else reassign_nodes m ip fip_url nodes

  unfoldable pub get_reservation : Manager → W → Result IpAddress
  get_reservation m w = elim (cloud.list_ips w) [
    | err e ↦ err e
    | ok ips ↦ elim (ip_reservation_by_all_tags ((m.fip_tag_key, m.fip_tag_value) ∷ []) ips) [
      | none ↦
          err (message "floating IP not found. Please verify you have one with the expected tag")
      | some ip ↦ ok ip
    ]
  ]

  -- The control plane nodes that the selectors find.
  unfoldable pub collect : List String → NodeSet → W → Result NodeSet
  unfolding add_node_list
  collect [] set w = ok set
  collect (s ∷ ss) set w = elim (cloud.list_nodes s w) [
    | err e ↦ err (wrapped "failed to list control plane nodes with labelselector" e)
    | ok nodes ↦ collect ss (add_node_list nodes set) w
  ]

  module _ (range : List Node → List Node) where
    unfoldable pub potential_nodes : List (List Node → List Node) → NodeSet → List Node
    potential_nodes filters set = to_list range (filter_set range filters set)

    unfoldable pub try_reassign : Manager → IpAddress → List (List Node → List Node) → Action W Unit
    try_reassign m ip filters w = elim (collect m.selectors [] w) [
      | err e ↦ (err e, w)
      | ok set ↦
          wrapping "failed to assign the control plane endpoint"
            (reassign m (potential_nodes filters set) ip (endpoint_health_url m ip)) w
    ]

    unfoldable pub try_reassign_away_from_self : Manager → Node → Action W Unit
    try_reassign_away_from_self m self w =
        elim (wrap "failed to get the control plane endpoint for the cluster"
          (get_reservation m w)) [
            | err e ↦ (err e, w)
            | ok ip ↦
                if node_is_assigned self ip || is_zero ip.targeted_to
                then try_reassign m ip (away_filters self) w
                else (ok tt, w)
          ]

    -- Lines 568 to 573: the last external address that is not the floating IP.
    unfoldable pub host_url : Manager → IpAddress → List NodeAddress → String → String
    unfolding health_url
    host_url m ip [] url = url
    host_url m ip (a ∷ others) url = host_url m ip others (
        if a.type == "ExternalIP" && a.address != ip.address
        then health_url a.address m.node_api_server_port
        else url)

    unfoldable pub check_url : Manager → IpAddress → Node → String
    unfolding host_url
    check_url m ip node =
        if m.use_host_ip
        then host_url m ip node.addresses (endpoint_health_url m ip)
        else endpoint_health_url m ip

    unfoldable pub answers : String → W → Bool
    answers url w = elim (cloud.get url w) [ err e ↦ false | ok status ↦ status == 200 ]

    unfoldable pub check_assigned : Manager → IpAddress → Node → Action W Unit
    unfolding answers try_reassign check_url
    check_assigned m ip node w = elim (cloud.new_request (check_url m ip node)) [
      | some e ↦ (err (wrapped "error constructing GET request" e), w)
      | none ↦
          if answers (check_url m ip node) w then (ok tt, w) else try_reassign m ip health_filters w
    ]

    unfoldable pub do_health_check : Manager → Node → Action W Unit
    unfolding check_assigned
    do_health_check m node w =
        elim (wrap "failed to get the control plane endpoint for the cluster"
          (get_reservation m w)) [
            | err e ↦ (err e, w)
            | ok ip ↦
                if is_zero ip.targeted_to
                then try_reassign m ip health_filters w
                else (if node_is_assigned node ip then check_assigned m ip node w else (ok tt, w))
          ]
