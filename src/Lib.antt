-- ===== src/Lib.antt =====
-- The cloud controller manager of Cherry Servers for Kubernetes (cherry/ of the repository): it finds
-- the servers behind the nodes, keeps the floating IP of the control plane on a healthy node, and
-- configures MetalLB's BGP peers and address pools for the services of type LoadBalancer. With it
-- stands a test server of the provider's API (cherry/server/).
--
-- The files, and the code that each is about:
--   Prelude        Go's maps, strings, sorting and integers, and the lemmas on lists
--   Effect         functions that return an error, and functions that act on the world
--   ProviderConfig cherry/config.go
--   Reservations   cherry/ipreservations.go
--   Instances      cherry/instances.go: provider IDs, Instances/RoundTrip the proof that they are read
--                  back; Instances/Lookup the rest of it, and cherry/server_ip.go
--   ControlPlane   cherry/fip_controlplane_reconciliation.go: nodes, filters and the node set;
--                  ControlPlane/Manage its reassign, tryReassign, tryReassignAwayFromSelf and
--                  doHealthCheck; ControlPlane/Sync its syncService and the handlers of node events;
--                  ControlPlane/Endpoints syncEndpoints, the handlers of endpoints and services, and
--                  cherry/ssa-helpers.go; ControlPlane/Start the construction of the manager;
--                  ControlPlane/Events the events that the informers deliver, as steps;
--                  ControlPlane/Filters, Reassign, HealthCheck, Writes and the modules below Events
--                  the proofs
--   Bgp            cherry/bgp.go; Bgp/Laws the proof
--   LoadBalancers  cherry/loadbalancers/node.go and interface.go; LoadBalancers/KubeVip and Empty
--                  kubevip/kubevip.go and empty/empty.go below it
--   Controller     cherry/loadbalancers.go: the tags and selectors; Controller/Nodes what it does to
--                  nodes, Controller/Services its operations on services, Controller/Choice
--                  newLoadBalancers; Controller/Tags, and the
--                  modules below Nodes and Services, the proofs
--   Metallb        cherry/loadbalancers/metallb/: Resource (resource.go); Config (config.go: the types),
--                  Config/Peers, Config/Changes and Config/Pools (its operations on peers and pools),
--                  Config/Compare, Requirements and Selectors (its comparisons of pools, match
--                  expressions, and selectors and peers); Services (Peer.Services, AddService and
--                  RemoveService, and their twins in crd.go); Peers (bgp_peers.go); Api (the objects
--                  and the client that crd.go uses); Crd (crd.go: the conversions), Crd/Peers and
--                  Crd/Pools (its operations on peers and pools), Crd/Configured (it fills the
--                  record Configurer); ConfigMap (configmap.go); Lb (metallb.go). The modules
--                  below these are the proofs
--   Store          cherry/server/store/memory.go; Store/Handlers cherry/server/server.go; Store/Ids
--                  the proof that IDs are new
--   Startup        cherry/cloud.go and cloudInitializer of main.go
--   Tests          concrete inputs
--
-- How they interact: ControlPlane asks Instances for the server of a node and Reservations for the
-- floating IP. Controller asks Reservations for the reservation of a service, is told of a node by
-- Bgp, and calls a load balancer of the interface Lb, which Metallb/Lb, KubeVip and Empty fill.
-- Metallb/Crd changes the peers' services by Metallb/Services. Store/Handlers is a client of Store.
-- Every call of another program is an operation of a record that the functions take: Cloud and
-- Services (ControlPlane), Kind (Metallb/Api), Configurer (Metallb/Lb), Client (Bgp), Calls
-- (Controller), Libraries (Controller/Choice), Network (ControlPlane/Start), Api and Netip
-- (Instances/Lookup), ConfigMaps and Yaml (Metallb/ConfigMap). What the theorems need of the
-- Kubernetes API is the record IsLawful of Metallb/Api, and of config maps that of
-- Metallb/ConfigMap/Stored, its documented behaviour, and, where several kinds are used, that a call
-- on one kind of object leaves the objects of another kind.
--
-- Names are those of the source in snake_case. A function that acts on the world takes the world and
-- returns it, also beside an error (Effect.Action). A pointer that may be nil is an Option. Go's maps
-- are association lists, whose order stands for the order of a range; where a map is ranged over for
-- its effects the order is a parameter. Integers of the API are natural numbers or integers; IDs of
-- the store wrap around at 2^63. sort.Sort is Go's insertion sort, which is what it is on at most
-- twelve elements; on more, with a comparison that is no order, Go may leave another order. There is
-- no fuel: every loop goes over a list or counts down.
--
-- Not modelled: logging and contexts; the mutexes, since a handler that holds one is one step here;
-- when the informers deliver events; JSON, of which only success or failure is a parameter, and a
-- merge patch is its object of data; the texts that are formatted into error messages; slices that
-- two peers of the configuration file share; pointers that two entries of the store share, which
-- UpdateServer makes when it is called with another ID than the server's own; the router of the test
-- server; main, which sets up flags, logs and the command of the library.
pub mod Prelude
pub mod Effect
pub mod ProviderConfig
pub mod Reservations
pub mod Instances
pub mod ControlPlane
pub mod Bgp
pub mod LoadBalancers
pub mod Controller
pub mod Metallb
pub mod Store
pub mod Startup
pub mod Tests
