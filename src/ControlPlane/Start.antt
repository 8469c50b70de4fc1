-- ===== src/ControlPlane/Start.antt =====
-- cherry/fip_controlplane_reconciliation.go: the construction of the manager, and serverNameFromConfig.
-- The goroutine that waits for the end, and the informers, which deliver the events of ControlPlane/Sync
-- and ControlPlane/Endpoints, are left out.
pub mod Tag
use cloud_provider_cherry.Prelude.{
  String, Bool, true, false, ◌||◌, Option, none, some, List, [], ◌∷◌, ◌++◌, ◌==◌, string_eq,
  if◌then◌else◌, ℤ, pos,
}
use cloud_provider_cherry.Effect.{Error, Result, ok, err, wrap, wrapped}
use cloud_provider_cherry.ControlPlane.{Manager, control_plane_labels}
use cloud_provider_cherry.ControlPlane.Endpoints.{split_tag}

-- The scheme and the host name of a URL.
pub record HostUrl : Type 0 where
  pub scheme : String
  pub hostname : String

-- Code of others: url.Parse; net.SplitHostPort, of which the host is read; the errors of
-- rest.HTTPClientFor with a server name and of labels.NewRequirement of a label.
pub record Network : Type 0 where
  pub parse_url : String → Result HostUrl
  pub split_host_port : String → Result String
  pub http_client_for : String → Option Error
  pub new_requirement : String → Option Error

abbrev host_or : String → Result String → String
host_or host (ok h) = h
host_or host (err e) = host

abbrev url_host : String → Result HostUrl → String
url_host host (ok url) =
    if url.scheme == "http" || url.scheme == "https" then url.hostname else host
url_host host (err e) = host

abbrev pub present : Result Manager → Result (Option Manager)
present (ok m) = ok (some m)
present (err e) = err e

module _ (net : Network) where
  unfoldable pub server_name_from_config : String → String
  server_name_from_config host =
      let name = url_host host (net.parse_url host) in host_or name (net.split_host_port name)

  -- The loop over the labels of control planes.
  unfoldable pub add_selectors : Manager → List String → Result Manager
  add_selectors m [] = ok m
  add_selectors m (label ∷ labels) = elim (net.new_requirement label) [
    | some e ↦ err e
    | none ↦ add_selectors (record m { selectors = m.selectors ++ label ∷ [] }) labels
  ]

  -- newControlPlaneEndpointManager, of the host of the API server, the tag, the port of the API
  -- server and the choice of the address for health checks; none is the nil manager.
  unfoldable pub new_manager : String → String → ℤ → Bool → Result (Option Manager)
  unfolding server_name_from_config add_selectors split_tag
  new_manager host fip_tag port use_host_ip =
      if fip_tag == "" then ok none else elim (net.http_client_for (server_name_from_config host)) [
        | some e ↦ err (wrapped "failed to build http client from rest config" e)
        | none ↦
            let (key, value) = split_tag fip_tag in
            present (
              add_selectors
                (record {
                  api_server_port = port;
                  node_api_server_port = pos 0;
                  fip_tag_key = key;
                  fip_tag_value = value;
                  selectors = [];
                  use_host_ip = use_host_ip;
                })
                control_plane_labels)
      ]
