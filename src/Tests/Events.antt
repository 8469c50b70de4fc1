-- ===== src/Tests/Events.antt =====
-- The events of the control plane, at concrete clusters.
use cloud_provider_cherry.Prelude.{
  String, true, false, Bool, all, [], ◌∷◌, ◌≡◌, refl, sym, ap, ◌==◌, string_eq, eq_iff, pos, split,
  atoi, format_int, format_nat,
}
use cloud_provider_cherry.Effect.{ok, ok_inj}
use cloud_provider_cherry.Instances.{server_id_from_provider_id}
use cloud_provider_cherry.Reservations.{IpAddress, ip_reservation_by_all_tags}
use cloud_provider_cherry.ControlPlane.{
  to_list, filter_set, try_filter_unschedulable_nodes, filter_deleting_nodes, try_filter_self, Node,
  NodeSet, Manager, Cloud, is_control_plane_node, node_is_assigned, health_filters, away_filters,
  endpoint_health_url,
}
use cloud_provider_cherry.ControlPlane.Manage.{
  assign, reassign, collect, potential_nodes, try_reassign, do_health_check,
  try_reassign_away_from_self, get_reservation,
}
use cloud_provider_cherry.ControlPlane.Writes.{AllListed}
use cloud_provider_cherry.ControlPlane.Sync.{
  learn_ports, apply_external, sync_service, node_filter, on_node_update, on_node_delete,
}
use cloud_provider_cherry.ControlPlane.Endpoints.{on_service}
use cloud_provider_cherry.ControlPlane.Events.{
  Outside, node_updated, node_deleted, service_seen, Reach, here, then_on,
}
use cloud_provider_cherry.ControlPlane.Events.Assigned.{IsKept, Reach-kept}
use cloud_provider_cherry.Tests.Nodes.{
  first_node, second_node, manager, unassigned, range, reorders, services,
}

abbrev outside : Cloud String → Outside String
outside cloud = record {
  cloud = cloud;
  services = services;
  apply_endpoints = λ config w. (ok tt, w);
  range = range;
}

-- A cluster whose control plane is the second node.
abbrev second_only : Cloud String
second_only = record unassigned { list_nodes = λ s w. ok (second_node ∷ []) }

abbrev is_second : Node → Bool
is_second n = n.provider_id == "cherryservers://102"

only_second : AllListed second_only is_second
only_second w s nodes e = ap (all is_second) (sym (ok_inj e))

-- The floating IP was not given to the server 101.
abbrev NotFirst : String → Type 0
NotFirst w = (w == "101") ≡ false

given_to_second :
    (n : Node) (address : IpAddress) (w : String)
    → is_second n ≡ true
    → (assign second_only n address w).1 ≡ "102"
unfolding assign server_id_from_provider_id split atoi format_int format_nat
given_to_second n address w e = rw ((eq_iff n.provider_id "cherryservers://102").0 e, assign) refl

not_first : IsKept (outside second_only) is_second NotFirst
not_first = record {
  of_endpoints = λ config w h. h;
  of_service = λ service w h. h;
  of_status = λ status w h. h;
  of_assign = λ m address n w live good healthy h.
      ap (λ (v : String). v == "101") (given_to_second n address w good);
}

-- The service shows the port, the first node is updated, and the second one is deleted.
three_events : Reach (outside second_only) (manager, "") (manager, "102")
unfolding do_health_check try_reassign_away_from_self get_reservation ip_reservation_by_all_tags
    collect reassign potential_nodes to_list filter_set health_filters away_filters try_filter_self
    try_filter_unschedulable_nodes filter_deleting_nodes format_int format_nat endpoint_health_url
    server_id_from_provider_id split atoi node_is_assigned is_control_plane_node try_reassign
    learn_ports apply_external sync_service node_filter on_node_update on_node_delete on_service
three_events =
    then_on {t = (manager, "")} (service_seen "default" "kubernetes" (pos 6443 ∷ []) refl) (
      then_on {t = (manager, "102")} (node_updated first_node first_node refl refl refl)
        (then_on {t = (manager, "102")} (node_deleted second_node refl refl) here))

Reach-kept_example : NotFirst "102"
Reach-kept_example =
    Reach-kept (outside second_only) is_second NotFirst not_first reorders only_second refl
      three_events

-- A manager that has not seen the service yet.
abbrev unaware : Manager
unaware = record manager { api_server_port = pos 0; node_api_server_port = pos 0 }

abbrev both_nodes : NodeSet
both_nodes = ("node-1", first_node) ∷ ("node-2", second_node) ∷ []
