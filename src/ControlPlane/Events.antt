-- ===== src/ControlPlane/Events.antt =====
-- cherry/fip_controlplane_reconciliation.go: the events that the informers deliver to the manager of
-- the control plane, as steps of a state machine. The handlers of nodes are called for nodes that
-- pass the filter of the informer, an update of a node for its old and its new state; which events
-- come, and in which order, is left open. The mutexes make each handler one step.
pub mod Assigned
pub mod Progress
use cloud_provider_cherry.Prelude.{String, Bool, true, List, ◌≡◌, ℤ}
use cloud_provider_cherry.Effect.{Action}
use cloud_provider_cherry.ControlPlane.{Node, Manager, Cloud}
use cloud_provider_cherry.ControlPlane.Sync.{Services, node_filter, on_node_update, on_node_delete}
use cloud_provider_cherry.ControlPlane.Endpoints.{
  EndpointsApply, Endpoints, on_endpoints, on_service,
}

-- The manager, and the world.
abbrev pub State : Type 0 → Type 0
State W = Manager × W

-- What the handlers call.
pub record Outside (W : Type 0) : Type 0 where
  pub cloud : Cloud W
  pub services : Services W
  pub apply_endpoints : EndpointsApply → Action W (Unit {0})
  pub range : List Node → List Node

pub data Step {W : Type 0} (o : Outside W) : State W → State W → Type 0 where
  node_updated :
      {s t : State W} (old new : Node)
      → node_filter s.0 old ≡ true
      → node_filter s.0 new ≡ true
      → t ≡ (s.0, on_node_update o.cloud o.range s.0 old new s.1)
      → Step o s t
  node_deleted :
      {s t : State W} (node : Node)
      → node_filter s.0 node ≡ true
      → t ≡ (s.0, on_node_delete o.cloud o.range s.0 node s.1)
      → Step o s t
  endpoints_seen :
      {s t : State W} (endpoints : Endpoints)
      → t ≡ (s.0, on_endpoints o.apply_endpoints endpoints s.1)
      → Step o s t
  service_seen :
      {s t : State W} (namespace name : String) (targets : List ℤ)
      → t ≡ on_service o.cloud o.services namespace name targets s
      → Step o s t

pub data Reach {W : Type 0} (o : Outside W) : State W → State W → Type 0 where
  here : {s : State W} → Reach o s s
  then_on : {s t u : State W} → Step o s t → Reach o t u → Reach o s u
