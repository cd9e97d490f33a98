-- ===== src/Core/Server.antt =====
-- The handlers of internal/server/grpc_server.go with the interceptors of interceptors.go around them, and
-- internal/server/health_check.go and update_server.go.
use enxame.Base.{
  ℕ, String, Bool, true, false, not, ◌||◌, ◌⊎◌, inl, inr, List, [], Option, some, if◌then◌else◌,
  map,
}
use enxame.Base.Text.{◌==◌}
use enxame.Base.Exec.{Outcome, ok, err, panic, Exec}
use enxame.Auth.{
  Claims, Metadata, Context, NodeIdentity, register_node, Status, internal, unary,
  register_node_method,
}
use enxame.Nodes.Types.{Identity, Node, Registration, CoreError}
use enxame.Nodes.Database.{Machine}
use enxame.Nodes.Service
use enxame.Nodes.Service.{Platform, Service, heartbeat, active_relays_of}
use enxame.Core.{
  pb_node_type_to_domain, pb_node_status_to_domain, domain_node_to_pb, NodeInfo,
  RegisterNodeRequest, RegisterNodeResponse, HeartbeatResponse, CheckForUpdateResponse,
}

-- RecoveryInterceptor: a panic becomes the status Internal; what was written stays written.
abbrev pub recovered : {A : Type 0} → Outcome Status A → Outcome Status A
recovered (ok a) = ok a
recovered (err e) = err e
recovered panic = err internal

abbrev pub refused_response : RegisterNodeResponse
refused_response = record { success = false; heartbeat_interval_seconds = 0; suggested_relays = [] }

abbrev pub registration_of : RegisterNodeRequest → Registration
registration_of req = record {
  identity = req.identity;
  node_type = pb_node_type_to_domain req.node_type;
  endpoints = req.endpoints;
  version = req.version;
  capabilities = req.capabilities;
  region = req.region;
}

abbrev pub caller_of : Identity → NodeIdentity
caller_of i = record { node_id = i.node_id; public_key = i.public_key; signature = i.signature }

module _ {Store : Type 0} (p : Platform Store) (interval : ℕ) where
  -- An error of the service is an answer with Success false.
  abbrev pub register_response :
      Outcome CoreError (Node × List Node) → Outcome Status RegisterNodeResponse
  register_response (ok (node, relays)) = ok (record {
    success = true;
    heartbeat_interval_seconds = interval;
    suggested_relays = map domain_node_to_pb relays;
  })
  register_response (err e) = ok refused_response
  register_response panic = panic

  unfoldable pub answer_register_node :
      Machine → RegisterNodeRequest → Exec (Service.World Store) Status RegisterNodeResponse
  answer_register_node machine req w =
      let done = Service.register_node p machine (registration_of req) w in
      (register_response done.0, done.1)

  abbrev pub heartbeat_response : Outcome CoreError ℕ → Outcome Status HeartbeatResponse
  heartbeat_response (ok next) = ok (record { success = true; next_heartbeat_seconds = next })
  heartbeat_response (err e) = ok (record { success = false; next_heartbeat_seconds = 0 })
  heartbeat_response panic = panic

  unfoldable pub answer_heartbeat :
      Machine → String → ℕ → Exec (Service.World Store) Status HeartbeatResponse
  answer_heartbeat machine id status w =
      let done = heartbeat p machine id (pb_node_status_to_domain status) w in
      (heartbeat_response done.0, done.1)

  -- Here an error is an error.
  abbrev pub relays_response : Outcome CoreError (List Node) → Outcome Status (List NodeInfo)
  relays_response (ok relays) = ok (map domain_node_to_pb relays)
  relays_response (err e) = err internal
  relays_response panic = panic

  unfoldable pub answer_active_relays :
      Machine → String → ℕ → List String → Exec (Service.World Store) Status (List NodeInfo)
  answer_active_relays machine region limit excluded w =
      let done = active_relays_of p machine region limit excluded w in
      (relays_response done.0, done.1)

  abbrev pub guarded :
      {A : Type 0}
      → Status ⊎ Context
      → Exec (Service.World Store) Status A
      → Exec (Service.World Store) Status A
  guarded (inl refusal) m w = (err refusal, w)
  guarded (inr ctx) m w = (recovered (m w).0, (m w).1)

  -- RegisterNode behind ChainUnaryInterceptor.
  unfoldable pub call_register_node :
      (String → Option Claims)
      → Option Metadata
      → Machine
      → RegisterNodeRequest
      → Exec (Service.World Store) Status RegisterNodeResponse
  call_register_node validate_jwt md machine req =
      guarded
        (unary p.crypto validate_jwt md register_node_method
          (register_node (some (caller_of req.identity))))
        (answer_register_node machine req)

-- HealthChecker, with the status that the health server reports for the service.
pub record HealthChecker : Type 0 where
  pub healthy : Bool
  pub serving : Bool

unfoldable pub new_health_checker : HealthChecker
new_health_checker = record { healthy = true; serving = true }

-- Check, where Redis and PostgreSQL answer their ping or not.
unfoldable pub check : Bool → Bool → HealthChecker → Bool × HealthChecker
check redis postgres hc =
    if not redis || not postgres
    then (false, record { healthy = false; serving = false })
    else (true, record { healthy = true; serving = true })

-- CheckForUpdate with the two settings of the environment.
unfoldable pub check_for_update : String → String → String → CheckForUpdateResponse
check_for_update latest url current =
    if latest == "" || url == ""
    then record { available = false; version = ""; url = "" }
    else if not (current == latest)
    then record { available = true; version = latest; url = url }
    else record { available = false; version = ""; url = "" }
