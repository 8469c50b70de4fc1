-- ===== src/Tests/Endpoints.antt =====
-- The endpoints of a cluster, for the theorem on syncEndpoints, and the tag of a floating IP.
use cloud_provider_cherry.Prelude.{none, some, List, [], ◌∷◌, ◌≡◌, refl, map, string_eq, pos}
use cloud_provider_cherry.Effect.{Action, ok, wrapping}
use cloud_provider_cherry.ControlPlane.Sync.{external_service_name, external_service_namespace}
use cloud_provider_cherry.ControlPlane.Endpoints.{
  EndpointAddress, EndpointsApply, Endpoints, sync_endpoints, split_tag,
}
use cloud_provider_cherry.ControlPlane.Endpoints.Applied.{subset_applied, sync_endpoints_lem}

abbrev api_server : EndpointAddress
api_server = record {
  hostname = "cp-1";
  ip = "10.0.0.1";
  target_ref = some (record {
    api_version = "v1";
    field_path = "";
    kind = "Node";
    name = "cp-1";
    namespace = "default";
    resource_version = "7";
    uid = "f3";
  });
  node_name = none;
}

abbrev cluster_endpoints : Endpoints
cluster_endpoints = record {
  name = "kubernetes";
  namespace = "default";
  subsets =
      record {
        addresses = api_server ∷ [];
        not_ready_addresses = [];
        ports =
            record {
              name = "https";
              port = pos 6443;
              protocol = "TCP";
              app_protocol = some "https";
            }
            ∷ [];
      }
      ∷ [];
}

-- An API server that keeps what is applied.
abbrev apply_to_list : EndpointsApply → Action (List EndpointsApply) (Unit {0})
apply_to_list config w = (ok tt, config ∷ w)

sync_endpoints_lem_example :
    (config : EndpointsApply) × (sync_endpoints apply_to_list cluster_endpoints []
      ≡ wrapping "failed to apply endpoint" (apply_to_list config) [])
    × (map subset_applied config.subsets ≡ cluster_endpoints.subsets)
    × ((config.name ≡ external_service_name) × (config.namespace ≡ external_service_namespace))
sync_endpoints_lem_example = sync_endpoints_lem apply_to_list cluster_endpoints []

split_tag_run : split_tag "fip=a=b" ≡ ("fip", "a=b")
unfolding split_tag
split_tag_run = refl

split_tag_bare : split_tag "fip" ≡ ("fip", "")
unfolding split_tag
split_tag_bare = refl
