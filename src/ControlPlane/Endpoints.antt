-- ===== src/ControlPlane/Endpoints.antt =====
-- cherry/fip_controlplane_reconciliation.go: syncEndpoints, the handlers of events of endpoints and
-- services, and the tag of the floating IP; and cherry/ssa-helpers.go, the conversions of endpoints
-- to what is applied. A field of an apply configuration is none unless it is set.
pub mod Applied
pub mod Handled
use Prim.Native.Char.{code}
use cloud_provider_cherry.Prelude.{
  ℕ, String, Bool, true, false, not, ◌&&◌, ◌||◌, ◌==◌, ◌!=◌, nat_eq, string_eq, Option, none, some,
  List, [], ◌∷◌, ◌++◌, map, if◌then◌else◌, ℤ,
}
use cloud_provider_cherry.Effect.{Error, Result, ok, err, Action, pure, wrapping, ◌>>=◌}
use cloud_provider_cherry.ControlPlane.{Manager, Cloud}
use cloud_provider_cherry.ControlPlane.Sync.{
  external_service_name, external_service_namespace, Services, sync_service,
}

-- The types of k8s.io/api/core/v1.
pub record ObjectReference : Type 0 where
  pub api_version : String
  pub field_path : String
  pub kind : String
  pub name : String
  pub namespace : String
  pub resource_version : String
  pub uid : String

pub record EndpointAddress : Type 0 where
  pub hostname : String
  pub ip : String
  pub target_ref : Option ObjectReference
  pub node_name : Option String

pub record EndpointPort : Type 0 where
  pub name : String
  pub port : ℤ
  pub protocol : String
  pub app_protocol : Option String

pub record EndpointSubset : Type 0 where
  pub addresses : List EndpointAddress
  pub not_ready_addresses : List EndpointAddress
  pub ports : List EndpointPort

-- Their apply configurations.
pub record ReferenceApply : Type 0 where
  pub api_version : Option String
  pub field_path : Option String
  pub kind : Option String
  pub name : Option String
  pub namespace : Option String
  pub resource_version : Option String
  pub uid : Option String

pub record AddressApply : Type 0 where
  pub hostname : Option String
  pub ip : Option String
  pub target_ref : Option ReferenceApply
  pub node_name : Option String

pub record PortApply : Type 0 where
  pub name : Option String
  pub port : Option ℤ
  pub protocol : Option String
  pub app_protocol : Option String

pub record SubsetApply : Type 0 where
  pub addresses : List AddressApply
  pub not_ready_addresses : List AddressApply
  pub ports : List PortApply

pub record EndpointsApply : Type 0 where
  pub name : String
  pub namespace : String
  pub subsets : List SubsetApply

unfoldable pub object_reference_apply_configuration : Option ObjectReference → Option ReferenceApply
object_reference_apply_configuration none = none
object_reference_apply_configuration (some ref) = some (record {
  api_version = some ref.api_version;
  field_path = some ref.field_path;
  kind = some ref.kind;
  name = some ref.name;
  namespace = some ref.namespace;
  resource_version = some ref.resource_version;
  uid = some ref.uid;
})

unfoldable pub endpoint_address_apply_config : EndpointAddress → AddressApply
unfolding object_reference_apply_configuration
endpoint_address_apply_config addr = record {
  hostname = some addr.hostname;
  ip = some addr.ip;
  target_ref = object_reference_apply_configuration addr.target_ref;
  node_name = elim addr.node_name [ none ↦ none | some name ↦ some name ];
}

unfoldable pub endpoint_port_apply_config : EndpointPort → PortApply
endpoint_port_apply_config port = record {
  name = some port.name;
  port = some port.port;
  protocol = some port.protocol;
  app_protocol = elim port.app_protocol [ none ↦ none | some protocol ↦ some protocol ];
}

unfoldable pub endpoint_subset_apply_config : EndpointSubset → SubsetApply
unfolding endpoint_address_apply_config endpoint_port_apply_config
endpoint_subset_apply_config subset = record {
  addresses = map endpoint_address_apply_config subset.addresses;
  not_ready_addresses = map endpoint_address_apply_config subset.not_ready_addresses;
  ports = map endpoint_port_apply_config subset.ports;
}

-- The loop of syncEndpoints.
unfoldable pub with_subsets : EndpointsApply → List EndpointSubset → EndpointsApply
unfolding endpoint_subset_apply_config
with_subsets config [] = config
with_subsets config (subset ∷ subsets) =
    with_subsets
      (record config { subsets = config.subsets ++ endpoint_subset_apply_config subset ∷ [] })
      subsets

-- Endpoints of the Kubernetes API, with the fields that are read.
pub record Endpoints : Type 0 where
  pub name : String
  pub namespace : String
  pub subsets : List EndpointSubset

module _ {W : Type 0} (apply_endpoints : EndpointsApply → Action W Unit) where
  unfoldable pub sync_endpoints : Endpoints → Action W Unit
  unfolding with_subsets
  sync_endpoints endpoints = wrapping "failed to apply endpoint" (
      apply_endpoints (
        with_subsets
          (record {
            name = external_service_name;
            namespace = external_service_namespace;
            subsets = [];
          })
          endpoints.subsets))

  -- The filter of the informer, and AddFunc and UpdateFunc behind it; an error is only logged.
  unfoldable pub on_endpoints : Endpoints → W → W
  unfolding sync_endpoints
  on_endpoints endpoints w =
      if endpoints.namespace != "default" && endpoints.name != "kubernetes"
      then w
      else if endpoints.namespace != "default" || endpoints.name != "kubernetes"
      then w
      else (sync_endpoints endpoints w).1

-- The same for services, of the service's namespace, name and target ports.
unfoldable pub on_service :
    {W : Type 0} → Cloud W → Services W → String → String → List ℤ → Manager × W → Manager × W
unfolding sync_service
on_service cloud services namespace name targets mw =
    if namespace != "default" && name != "kubernetes"
    then mw
    else if namespace != "default" || name != "kubernetes"
    then mw
    else (sync_service cloud services targets mw).1

-- `strings.SplitN(fipTag, "=", 2)`: the key, and the value where there is one.
unfoldable pub split_tag : String → String × String
split_tag String.[] = ("", "")
split_tag (String.◌∷◌ c s) =
    let (key, value) = split_tag s in if code c == b'=' then ("", s) else (String.◌∷◌ c key, value)
