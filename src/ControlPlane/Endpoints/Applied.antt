-- ===== src/ControlPlane/Endpoints/Applied.antt =====
-- What syncEndpoints applies is what the endpoints of default/kubernetes are.
use cloud_provider_cherry.Prelude.{
  String, Option, none, some, List, [], ◌∷◌, ◌++◌, ◌≡◌, refl, ap, sym, ◌∙◌, map, string_eq, ℤ, pos,
}
use mathlib.Core.List.{append-nil}
use cloud_provider_cherry.Effect.{Action, wrapping}
use cloud_provider_cherry.ControlPlane.Endpoints.{
  ObjectReference, EndpointAddress, EndpointPort, EndpointSubset, ReferenceApply, AddressApply,
  PortApply, SubsetApply, EndpointsApply, Endpoints, object_reference_apply_configuration,
  endpoint_address_apply_config, endpoint_port_apply_config, endpoint_subset_apply_config,
  with_subsets, sync_endpoints,
}
use cloud_provider_cherry.ControlPlane.Sync.{external_service_name, external_service_namespace}

-- What the API server makes of an apply configuration: the zero value for a field that is not set.
abbrev text : Option String → String
text none = ""
text (some t) = t

abbrev number : Option ℤ → ℤ
number none = pos 0
number (some n) = n

abbrev reference_applied : Option ReferenceApply → Option ObjectReference
reference_applied none = none
reference_applied (some r) = some (record {
  api_version = text r.api_version;
  field_path = text r.field_path;
  kind = text r.kind;
  name = text r.name;
  namespace = text r.namespace;
  resource_version = text r.resource_version;
  uid = text r.uid;
})

abbrev address_applied : AddressApply → EndpointAddress
address_applied a = record {
  hostname = text a.hostname;
  ip = text a.ip;
  target_ref = reference_applied a.target_ref;
  node_name = a.node_name;
}

abbrev port_applied : PortApply → EndpointPort
port_applied p = record {
  name = text p.name;
  port = number p.port;
  protocol = text p.protocol;
  app_protocol = p.app_protocol;
}

abbrev pub subset_applied : SubsetApply → EndpointSubset
subset_applied s = record {
  addresses = map address_applied s.addresses;
  not_ready_addresses = map address_applied s.not_ready_addresses;
  ports = map port_applied s.ports;
}

reference_back :
    (r : Option ObjectReference) → reference_applied (object_reference_apply_configuration r) ≡ r
unfolding object_reference_apply_configuration
reference_back none = refl
reference_back (some r) = refl

option_back : (o : Option String) → (elim o [ none ↦ none | some t ↦ some t ]) ≡ o
option_back none = refl
option_back (some t) = refl

address_back : (a : EndpointAddress) → address_applied (endpoint_address_apply_config a) ≡ a
unfolding endpoint_address_apply_config
address_back a =
    ap
      (λ (r : Option ObjectReference). record a {
        target_ref = r;
        node_name = (endpoint_address_apply_config a).node_name;
      })
      (reference_back a.target_ref)
    ∙ ap (λ (n : Option String). record a { node_name = n }) (option_back a.node_name)

port_back : (p : EndpointPort) → port_applied (endpoint_port_apply_config p) ≡ p
unfolding endpoint_port_apply_config
port_back p = ap (λ (o : Option String). record p { app_protocol = o }) (option_back p.app_protocol)

map_back :
    {A B : Type 0} (f : A → B) (g : B → A)
    → ((x : A) → g (f x) ≡ x)
    → (xs : List A) → map g (map f xs) ≡ xs
map_back f g h [] = refl
map_back f g h (x ∷ xs) =
    ap (λ (y : _). y ∷ map g (map f xs)) (h x) ∙ ap (λ (ys : List _). x ∷ ys) (map_back f g h xs)

subset_back : (s : EndpointSubset) → subset_applied (endpoint_subset_apply_config s) ≡ s
unfolding endpoint_subset_apply_config
subset_back s =
    rw
      (
        map_back endpoint_address_apply_config address_applied address_back s.addresses,
        map_back endpoint_address_apply_config address_applied address_back s.not_ready_addresses,
        map_back endpoint_port_apply_config port_applied port_back s.ports,
      )
      refl

map-snoc :
    {A B : Type 0} (f : A → B) (x : A) (ys : List B) (xs : List A)
    → map f (xs ++ x ∷ []) ++ ys ≡ map f xs ++ f x ∷ ys
map-snoc f x ys [] = refl
map-snoc {A} {B} f x ys (z ∷ zs) = ap (λ (l : List B). f z ∷ l) (map-snoc f x ys zs)

with_subsets_keep :
    (config : EndpointsApply) (subsets : List EndpointSubset)
    → ((with_subsets config subsets).name ≡ config.name)
      × ((with_subsets config subsets).namespace ≡ config.namespace)
unfolding with_subsets
with_subsets_keep config [] = (refl, refl)
with_subsets_keep config (s ∷ ss) =
    with_subsets_keep
      (record config { subsets = config.subsets ++ endpoint_subset_apply_config s ∷ [] }) ss

subsets_back :
    (config : EndpointsApply) (subsets : List EndpointSubset)
    → map subset_applied (with_subsets config subsets).subsets
      ≡ map subset_applied config.subsets ++ subsets
unfolding with_subsets
subsets_back config [] = sym (append-nil (map subset_applied config.subsets))
subsets_back config (s ∷ ss) =
    subsets_back (record config { subsets = config.subsets ++ endpoint_subset_apply_config s ∷ [] })
      ss
    ∙ map-snoc subset_applied (endpoint_subset_apply_config s) ss config.subsets
    ∙ ap (λ (x : EndpointSubset). map subset_applied config.subsets ++ x ∷ ss) (subset_back s)

-- syncEndpoints applies the endpoints of the external name, and their subsets, with the zero value
-- for what is not set, are those of the endpoints that it was given.
pub sync_endpoints_lem :
    {W : Type 0} (apply_endpoints : EndpointsApply → Action W Unit) (endpoints : Endpoints) (w : W)
    → (config : EndpointsApply) × (sync_endpoints apply_endpoints endpoints w
        ≡ wrapping "failed to apply endpoint" (apply_endpoints config) w)
      × (map subset_applied config.subsets ≡ endpoints.subsets)
      × ((config.name ≡ external_service_name) × (config.namespace ≡ external_service_namespace))
unfolding sync_endpoints
sync_endpoints_lem apply_endpoints endpoints w = (
  with_subsets start endpoints.subsets,
  refl,
  subsets_back start endpoints.subsets,
  with_subsets_keep start endpoints.subsets,
)
  where
    start : EndpointsApply
    start = record {
      name = external_service_name;
      namespace = external_service_namespace;
      subsets = [];
    }
