-- ===== src/ControlPlane.antt =====
-- cherry/fip_controlplane_reconciliation.go: the floating IP in front of the control plane, and the
-- node that it is assigned to. The Kubernetes client, the HTTP client and the API of the provider
-- are the record Cloud; Go's unspecified order of ranging over a map is the parameter `range`.
pub mod Manage
pub mod Filters
pub mod Reassign
pub mod HealthCheck
pub mod Sync
pub mod Endpoints
pub mod Start
pub mod Writes
pub mod Events
use cloud_provider_cherry.Prelude.{
  ℕ, String, ◌<>◌, Bool, true, false, not, ◌&&◌, ◌||◌, Option, none, some, List, [], ◌∷◌, ◌++◌, map,
  ◌==◌, ◌!=◌, nat_eq, string_eq, if◌then◌else◌, ℤ, pos, negsuc, format_int, Labels, lookup, insert,
  filter, length, ltb,
}
use cloud_provider_cherry.Effect.{
  Error, message, Result, ok, err, wrap, Action, pure, fail, lift, wrapping, ◌>>=◌, ◌>>◌,
}
use cloud_provider_cherry.Instances.{server_id_from_provider_id}
use cloud_provider_cherry.Reservations.{IpAddress, ip_reservation_by_all_tags}

pub record NodeAddress : Type 0 where
  pub type : String
  pub address : String

-- The fields of v1.Node that the code reads; `deleting` is a deletion timestamp that is set.
pub record Node : Type 0 where
  pub name : String
  pub provider_id : String
  pub labels : Labels
  pub addresses : List NodeAddress
  pub unschedulable : Bool
  pub deleting : Bool

-- controlPlaneEndpointManager, without its clients and locks. The selectors are the labels that
-- each of them asks for.
pub record Manager : Type 0 where
  pub api_server_port : ℤ
  pub node_api_server_port : ℤ
  pub fip_tag_key : String
  pub fip_tag_value : String
  pub selectors : List String
  pub use_host_ip : Bool

-- What the manager calls. `new_request` is the error of http.NewRequest for a URL; `get` is the
-- status of the answer.
pub record Cloud (W : Type 0) : Type 0 where
  pub list_ips : W → Result (List IpAddress)
  pub list_nodes : String → W → Result (List Node)
  pub new_request : String → Option Error
  pub get : String → W → Result ℕ
  pub update_ip : String → String → Action W Unit

abbrev pub control_plane_labels : List String
control_plane_labels =
    "node-role.kubernetes.io/master" ∷ "node-role.kubernetes.io/control-plane" ∷ []

unfoldable pub has_any_label : List String → Labels → Bool
unfolding lookup
has_any_label [] labels = false
has_any_label (l ∷ ls) labels = elim (lookup l labels) [
  | none ↦ has_any_label ls labels
  | some v ↦ true
]

unfoldable pub is_control_plane_node : Node → Bool
unfolding has_any_label
is_control_plane_node node = has_any_label control_plane_labels node.labels

unfoldable pub has_address : String → List NodeAddress → Bool
has_address ip [] = false
has_address ip (a ∷ rest) = a.address == ip || has_address ip rest

unfoldable pub node_is_assigned : Node → IpAddress → Bool
unfolding has_address
node_is_assigned node ip = has_address ip.address node.addresses

-- The end of tryFilterSelf and of tryFilterUnschedulableNodes: what was filtered, unless nothing is left of it.
unfoldable pub unless_empty : List Node → List Node → List Node
unless_empty remaining nodes = if ltb 0 (length remaining) then remaining else nodes

unfoldable pub try_filter_self : Node → List Node → List Node
unfolding unless_empty
try_filter_self self nodes = unless_empty (filter (λ n. n.name != self.name) nodes) nodes

unfoldable pub filter_deleting_nodes : List Node → List Node
filter_deleting_nodes nodes = filter (λ n. not n.deleting) nodes

unfoldable pub try_filter_unschedulable_nodes : List Node → List Node
unfolding unless_empty
try_filter_unschedulable_nodes nodes = unless_empty (filter (λ n. not n.unschedulable) nodes) nodes

abbrev pub NodeSet : Type 0
NodeSet = List (String × Node)

unfoldable pub add : Node → NodeSet → NodeSet
unfolding lookup insert
add node set = elim (lookup node.name set) [ none ↦ insert node.name node set | some n ↦ set ]

-- addNodeList, and newNodeSet when the set is empty.
unfoldable pub add_node_list : List Node → NodeSet → NodeSet
unfolding add
add_node_list [] set = set
add_node_list (n ∷ ns) set = add_node_list ns (add n set)

unfoldable pub run_filters : List (List Node → List Node) → List Node → List Node
run_filters [] nodes = nodes
run_filters (f ∷ fs) nodes = run_filters fs (f nodes)

unfoldable pub health_url : String → ℤ → String
health_url address port = "https://" <> address <> ":" <> format_int port <> "/healthz"

abbrev pub is_zero : ℤ → Bool
is_zero (pos n) = n == 0
is_zero (negsuc n) = false

-- healthURLFromControlPlaneEndpoint
unfoldable pub endpoint_health_url : Manager → IpAddress → String
unfolding health_url
endpoint_health_url m ip = health_url ip.address m.api_server_port

-- The filters of tryReassign's callers.
unfoldable pub health_filters : List (List Node → List Node)
health_filters = filter_deleting_nodes ∷ try_filter_unschedulable_nodes ∷ []

unfoldable pub away_filters : Node → List (List Node → List Node)
away_filters self =
    filter_deleting_nodes ∷ try_filter_unschedulable_nodes ∷ try_filter_self self ∷ []

module _ (range : List Node → List Node) where
  unfoldable pub to_list : NodeSet → List Node
  to_list set = range (map (λ p. p.1) set)

  unfoldable pub filter_set : List (List Node → List Node) → NodeSet → NodeSet
  unfolding to_list add_node_list run_filters
  filter_set filters set = add_node_list (run_filters filters (to_list set)) []
