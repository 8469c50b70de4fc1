-- ===== src/ControlPlane/Events/Progress.antt =====
-- A floating IP that no server has is given to a node.
use cloud_provider_cherry.Prelude.{bool_eq, string_eq, List}
