-- ===== src/Tests/Controller.antt =====
-- The controller of load balancers and the BGP of servers, at concrete calls.
use cloud_provider_cherry.Prelude.{
  String, true, none, some, List, [], ◌∷◌, ◌++◌, ◌≡◌, refl, string_eq, nat_eq, Labels, lookup, sort,
  pos, replace_once, format_nat,
}
use cloud_provider_cherry.Effect.{message, wrapped, ok, err}
use cloud_provider_cherry.Reservations.{IpAddress, ip_reservation_by_all_tags}
use cloud_provider_cherry.LoadBalancers.{Service, Node, Lb}
use cloud_provider_cherry.LoadBalancers.KubeVip.{kube_vip}
use cloud_provider_cherry.Bgp.{NodeBgpInfo}
use cloud_provider_cherry.Controller.{
  KubeNode, Templates, Calls, LoadBalancers, service_rep, service_tags, reservation_of,
  is_service_managed,
}
use cloud_provider_cherry.Controller.Nodes.{nodes_to_add, sort_peers, peer_annotations}
use cloud_provider_cherry.Controller.Nodes.Described.{AreDescribed, nodes_to_add_lem}
use cloud_provider_cherry.Controller.Nodes.Annotations.{peer_annotations_keep}
use cloud_provider_cherry.Controller.Services.{ensure_load_balancer_deleted}
use cloud_provider_cherry.Controller.Services.Deletion.{deletion_not_finished}
use cloud_provider_cherry.Controller.Tags.{reservations_of_one_service, created_is_found}

abbrev pub service : Labels → Service
service annotations = record {
  namespace = "default";
  name = "web";
  annotations = annotations;
  load_balancer_ip = "";
}

abbrev reserved : IpAddress
reserved = record {
  id = "ip-7";
  address = "5.1.1.1";
  cidr = "5.1.1.1/32";
  type = "floating-ip";
  targeted_to = pos 0;
  tags = some (
      ("service", "default/web")
      ∷ ("cluster", "main")
      ∷ ("usage", "cloud-provider-cherry-auto")
      ∷ []);
}

-- The world is what the API lists, and the calls that were made, the last one first.
abbrev pub World : Type 0
World = List IpAddress × List String

abbrev pub calls : Calls World
calls = record {
  list_ips = λ w. (ok w.0, w);
  create_ip = λ region tags w. (ok reserved, (reserved ∷ w.0, "create" ∷ w.1));
  remove_ip = λ id w. (ok tt, ([], id ∷ w.1));
  get_service = λ namespace name w. (ok (some (service [])), w);
  update_service = λ svc w. (ok tt, (w.0, "update" ∷ w.1));
  patch_node = λ name annotations w. (ok tt, (w.0, name ∷ w.1));
  write_annotations = λ node annotations w. (ok tt, w);
}

abbrev pub info : NodeBgpInfo
info = record {
  source_ip = "5.2.2.2";
  local_asn = 65000;
  remote_asn = 65001;
  peers =
      record { address = "10.0.0.2"; port = 179 }
      ∷ record { address = "10.0.0.1"; port = 179 }
      ∷ [];
}

abbrev pub templates : Templates
templates = record {
  local_asn = "cherryservers.com/bgp-peers-{{n}}-node-asn";
  peer_asn = "cherryservers.com/bgp-peers-{{n}}-peer-asn";
  peer_ip = "cherryservers.com/bgp-peers-{{n}}-peer-ip";
  src_ip = "cherryservers.com/bgp-peers-{{n}}-src-ip";
  multi_hop = "cherryservers.com/bgp-peers-{{n}}-peer-multi-hop";
}

abbrev controller : Lb World → LoadBalancers World
controller implementor = record {
  calls = calls;
  region = "LT-Siauliai";
  cluster_id = "main";
  implementor = implementor;
  templates = templates;
  fip_region_annotation = "cherryservers.com/fip-region";
  selects = λ labels. true;
  ensure_node_bgp_enabled = λ id w. (ok info, w);
  service_hash = λ rep. rep;
}

abbrev nodes : List KubeNode
nodes =
    record { name = "node-1"; provider_id = "cherryservers://1"; labels = []; annotations = none }
    ∷ record { name = "node-2"; provider_id = ""; labels = []; annotations = none }
    ∷ []

abbrev unmanaged : Service
unmanaged = service (("cherryservers.com/loadbalancer-managed", "false") ∷ [])

reservations_of_one_service_example :
    (controller kube_vip).service_hash (service_rep (some (service [])))
    ≡ (controller kube_vip).service_hash (service_rep (some unmanaged))
unfolding service_tags ip_reservation_by_all_tags
reservations_of_one_service_example =
    reservations_of_one_service (controller kube_vip) (service []) unmanaged (reserved ∷ [])
      (reserved ∷ []) reserved refl refl

created_is_found_example :
    reservation_of (controller kube_vip) (service []) ([] ++ reserved ∷ []) ≡ some reserved
unfolding service_tags ip_reservation_by_all_tags
created_is_found_example =
    created_is_found (controller kube_vip) (service []) [] [] reserved refl refl

peer_annotations_keep_case :
    lookup {K = String} "kubernetes.io/role"
      (peer_annotations templates info (("kubernetes.io/role", "worker") ∷ []))
    ≡ lookup {K = String} "kubernetes.io/role" (("kubernetes.io/role", "worker") ∷ [])
unfolding replace_once sort_peers sort format_nat
peer_annotations_keep_case =
    peer_annotations_keep templates info (("kubernetes.io/role", "worker") ∷ [])
      "kubernetes.io/role"
      (refl, (refl, (refl, (refl, (refl, (refl, (refl, (refl, (refl, (refl, tt))))))))))

nodes_to_add_lem_example :
    (described : List Node) × (w' : World) × (nodes_to_add (controller kube_vip) nodes ([], [])
      ≡ (ok described, w'))
    × AreDescribed (controller kube_vip) nodes described
nodes_to_add_lem_example = nodes_to_add_lem (controller kube_vip) nodes ([], [])

-- An implementor that cannot remove services.
abbrev failing : Lb World
failing = record kube_vip { remove_service = λ namespace name ip w. (err (message "refused"), w) }

deletion_not_finished_example :
    (ensure_load_balancer_deleted (controller failing) (service []) (reserved ∷ [], [])
      ≡ (err (wrapped "error removing IP from configmap" (message "refused")), ([], "ip-7" ∷ [])))
    × (ensure_load_balancer_deleted (controller failing) (service []) ([], "ip-7" ∷ [])
        ≡ (ok tt, ([], "ip-7" ∷ [])))
unfolding is_service_managed service_tags ip_reservation_by_all_tags lookup
deletion_not_finished_example =
    deletion_not_finished (controller failing) (service []) (reserved ∷ []) [] reserved
      (message "refused") (reserved ∷ [], []) (reserved ∷ [], []) ([], "ip-7" ∷ [])
      ([], "ip-7" ∷ []) ([], "ip-7" ∷ []) refl refl refl refl refl refl refl
