-- ===== src/Core.antt =====
-- The messages of the core's gRPC server and the conversions of internal/server/grpc_server.go between
-- them and the records of internal/domain. The enumerations of both sides are numbers.
use enxame.Base.{ℕ, String, Bool, List, ◌==◌, if◌then◌else◌}
use enxame.Nodes.Types.{Identity, Node}
pub mod Server
pub mod Answers
mod Tests

-- pbNodeTypeToDomain: what is not a type of the protocol is NodeTypeUnspecified.
unfoldable pub pb_node_type_to_domain : ℕ → ℕ
pb_node_type_to_domain t =
    if t == 1 then 1 else if t == 2 then 2 else if t == 3 then 3 else if t == 4 then 4 else 0

unfoldable pub pb_node_status_to_domain : ℕ → ℕ
pb_node_status_to_domain s =
    if s == 1 then 1 else if s == 2 then 2 else if s == 3 then 3 else if s == 4 then 4 else 0

unfoldable pub domain_node_type_to_pb : ℕ → ℕ
domain_node_type_to_pb t =
    if t == 1 then 1 else if t == 2 then 2 else if t == 3 then 3 else if t == 4 then 4 else 0

unfoldable pub domain_node_status_to_pb : ℕ → ℕ
domain_node_status_to_pb s =
    if s == 1 then 1 else if s == 2 then 2 else if s == 3 then 3 else if s == 4 then 4 else 0

unfoldable pub domain_event_type_to_pb : ℕ → ℕ
domain_event_type_to_pb t =
    if t == 1
    then 1
    else if t == 2
    then 2
    else if t == 3
    then 3
    else if t == 4
    then 4
    else if t == 5
    then 5
    else 0

-- pbv1.NodeInfo
pub record NodeInfo : Type 0 where
  pub identity : Identity
  pub node_type : ℕ
  pub status : ℕ
  pub endpoints : List String
  pub version : String
  pub capabilities : List String
  pub region : String
  pub registered_at : ℕ
  pub last_seen : ℕ

unfoldable pub domain_node_to_pb : Node → NodeInfo
unfolding domain_node_type_to_pb domain_node_status_to_pb
domain_node_to_pb n = record {
  identity = n.identity;
  node_type = domain_node_type_to_pb n.node_type;
  status = domain_node_status_to_pb n.status;
  endpoints = n.endpoints;
  version = n.version;
  capabilities = n.capabilities;
  region = n.region;
  registered_at = n.registered_at;
  last_seen = n.last_seen;
}

-- pbv1.RegisterNodeRequest; the identity is there, since the interceptor has looked at it.
pub record RegisterNodeRequest : Type 0 where
  pub identity : Identity
  pub node_type : ℕ
  pub endpoints : List String
  pub version : String
  pub capabilities : List String
  pub region : String

-- The message of an answer is left out.
pub record RegisterNodeResponse : Type 0 where
  pub success : Bool
  pub heartbeat_interval_seconds : ℕ
  pub suggested_relays : List NodeInfo

pub record HeartbeatResponse : Type 0 where
  pub success : Bool
  pub next_heartbeat_seconds : ℕ

-- pbv1.CheckForUpdateResponse
pub record CheckForUpdateResponse : Type 0 where
  pub available : Bool
  pub version : String
  pub url : String
