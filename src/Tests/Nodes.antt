-- ===== src/Tests/Nodes.antt =====
-- The control plane's floating IP, at a concrete cluster.
use cloud_provider_cherry.Prelude.{
  ℕ, String, ◌≡◌, refl, split, atoi, format_int, format_nat, true, false, ◌&&◌, none, some, List,
  [], ◌∷◌, ◌==◌, ◌!=◌, string_eq, if◌then◌else◌, ℤ, pos, filter, any, find,
}
use mathlib.Core.List.{Perm}
use mathlib.Core.List.Perm
use cloud_provider_cherry.Effect.{message, Result, ok, err}
use cloud_provider_cherry.Instances.{server_id_from_provider_id}
use cloud_provider_cherry.Reservations.{IpAddress, ip_reservation_by_all_tags}
use cloud_provider_cherry.ControlPlane.{
  to_list, filter_set, try_filter_self, try_filter_unschedulable_nodes, filter_deleting_nodes, Node,
  NodeAddress, Manager, Cloud, is_zero, is_control_plane_node, node_is_assigned, health_filters,
  away_filters, run_filters, endpoint_health_url,
}
use cloud_provider_cherry.ControlPlane.Manage.{
  reassign, collect, potential_nodes, try_reassign, do_health_check, try_reassign_away_from_self,
  get_reservation, answers,
}
use cloud_provider_cherry.ControlPlane.Filters.{
  is_live, is_best, health_filters_lem, away_filters_lem,
}
use cloud_provider_cherry.ControlPlane.Reassign.{has_health, assign_found, no_port, reassign_lem}
use cloud_provider_cherry.ControlPlane.HealthCheck.{
  do_health_check-elsewhere, do_health_check-healthy,
}
use cloud_provider_cherry.ControlPlane.Sync.{Services, sync_services, sync_services-keep}

abbrev address : String → String → NodeAddress
address type ip = record { type = type; address = ip }

abbrev node : String → String → String → Node
node name provider_id ip = record {
  name = name;
  provider_id = provider_id;
  labels = ("node-role.kubernetes.io/control-plane", "") ∷ [];
  addresses = address "Hostname" name ∷ address "InternalIP" ip ∷ [];
  unschedulable = false;
  deleting = false;
}

abbrev pub first_node : Node
first_node = node "node-1" "cherryservers://101" "10.0.0.1"

abbrev pub second_node : Node
second_node = node "node-2" "cherryservers://102" "10.0.0.2"

abbrev pub ip : ℤ → IpAddress
ip target = record {
  id = "fip-1";
  address = "5.199.0.1";
  type = "floating-ip";
  cidr = "5.1.1.1/32";
  targeted_to = target;
  tags = some (("cluster", "main") ∷ []);
}

abbrev pub manager : Manager
manager = record {
  api_server_port = pos 6443;
  node_api_server_port = pos 6443;
  fip_tag_key = "cluster";
  fip_tag_value = "main";
  selectors = "node-role.kubernetes.io/control-plane" ∷ [];
  use_host_ip = false;
}

-- The world is the server that the floating IP was last given to, and the target that the API shows.
abbrev cloud : ℤ → (String → Result ℕ) → Cloud String
cloud target answer = record {
  list_ips = λ w. ok (ip target ∷ []);
  list_nodes = λ s w. ok (first_node ∷ second_node ∷ []);
  new_request = λ url. none;
  get = λ url w. answer url;
  update_ip = λ id server w. (ok tt, server);
}

abbrev pub answers_second : String → Result ℕ
answers_second url = if url == "https://10.0.0.2:6443/healthz" then ok 200 else ok 500

abbrev pub range : List Node → List Node
range l = l

abbrev pub unassigned : Cloud String
unassigned = cloud (pos 0) answers_second

abbrev assigned : Cloud String
assigned = cloud (pos 101) (λ url. ok 200)

pub reorders : (nodes : List Node) → Perm nodes (range nodes)
reorders nodes = Perm.refl nodes

-- An unassigned floating IP goes to the second node, which is the healthy one.
chosen : do_health_check unassigned range manager first_node "" ≡ (ok tt, "102")
unfolding do_health_check try_reassign_away_from_self get_reservation ip_reservation_by_all_tags
    collect reassign potential_nodes to_list filter_set health_filters away_filters try_filter_self
    try_filter_unschedulable_nodes filter_deleting_nodes format_int format_nat endpoint_health_url
    server_id_from_provider_id split atoi node_is_assigned is_control_plane_node try_reassign
chosen = refl

reassign_lem_example :
    reassign unassigned manager
      (first_node ∷ second_node ∷ [])
      (ip (pos 0))
      "https://5.199.0.1:6443/healthz"
      ""
    ≡ (if is_zero manager.node_api_server_port
        then (err (no_port unassigned), "")
        else assign_found unassigned
            (ip (pos 0))
            (find
              (has_health unassigned manager "https://5.199.0.1:6443/healthz" "")
              (first_node ∷ second_node ∷ []))
            "")
reassign_lem_example =
    reassign_lem unassigned manager (first_node ∷ second_node ∷ []) (ip (pos 0))
      "https://5.199.0.1:6443/healthz" ""

do_health_check-elsewhere_case :
    do_health_check assigned range manager first_node "101" ≡ (ok tt, "101")
unfolding get_reservation ip_reservation_by_all_tags node_is_assigned
do_health_check-elsewhere_case =
    do_health_check-elsewhere assigned range manager "101" (ip (pos 101)) first_node refl refl refl

abbrev holder : Node
holder = record first_node { addresses = address "ExternalIP" "5.199.0.1" ∷ [] }

do_health_check-healthy_case : do_health_check assigned range manager holder "101" ≡ (ok tt, "101")
unfolding get_reservation ip_reservation_by_all_tags answers
do_health_check-healthy_case =
    do_health_check-healthy assigned range manager "101" (ip (pos 101)) holder refl refl refl refl

health_filters_lem_case :
    run_filters health_filters (first_node ∷ record second_node { unschedulable = true } ∷ []) ≡ (
      if any is_best (first_node ∷ record second_node { unschedulable = true } ∷ [])
      then filter is_best (first_node ∷ record second_node { unschedulable = true } ∷ [])
      else filter is_live (first_node ∷ record second_node { unschedulable = true } ∷ []))
health_filters_lem_case =
    health_filters_lem (first_node ∷ record second_node { unschedulable = true } ∷ [])

away_filters_lem_case :
    run_filters (away_filters first_node) (first_node ∷ second_node ∷ [])
    ≡ filter (λ n. is_best n && (n.name != first_node.name)) (first_node ∷ second_node ∷ [])
away_filters_lem_case = away_filters_lem first_node (first_node ∷ second_node ∷ []) refl

abbrev pub services : Services String
services = record {
  apply_service = λ service w. (ok tt, w);
  apply_status = λ status w. (err (message "conflict"), w);
}

sync_services-keep_example :
    (sync_services assigned services
      ((pos 6443 ∷ []) ∷ [] ∷ (pos 443 ∷ []) ∷ [])
      (manager, "")).0.api_server_port
    ≡ pos 6443
sync_services-keep_example =
    sync_services-keep assigned services ((pos 6443 ∷ []) ∷ [] ∷ (pos 443 ∷ []) ∷ []) manager ""
      refl
