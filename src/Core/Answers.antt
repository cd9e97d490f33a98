-- ===== src/Core/Answers.antt =====
-- What the answers of the gRPC server show.
use enxame.Base.{
  ℕ, String, ◌≡◌, ◌≢◌, ◌⊎◌, inl, inr, refl, true, List, Option, some, arith, length, map, ◌<◌,
}
use enxame.Base.Exec.{Outcome, ok, err, panic}
use enxame.Crypto.{derive_node_id}
use enxame.Auth.{Claims, Metadata, Context, Status, register_node, unary, register_node_method}
use enxame.Auth.Rules.{unary-register_node}
use enxame.Nodes.Types.{Node, CoreError}
use enxame.Nodes.Database.{Machine}
use enxame.Nodes.Service
use enxame.Nodes.Service.{Platform}
use enxame.Core.{
  domain_node_to_pb, RegisterNodeRequest, RegisterNodeResponse, pb_node_type_to_domain,
  domain_node_type_to_pb,
}
use enxame.Core.Server.{
  registration_of, answer_register_node, caller_of, guarded, call_register_node,
}

-- A type of the protocol survives the way to the domain and back.
domain_node_type_to_pb-pb_node_type_to_domain :
    (t : ℕ) → t < 5 → domain_node_type_to_pb (pb_node_type_to_domain t) ≡ t
unfolding domain_node_type_to_pb pb_node_type_to_domain
domain_node_type_to_pb-pb_node_type_to_domain t h = ground arith

module _ {Store : Type 0} (p : Platform Store) (interval : ℕ) where
  -- What the interceptor says of a registration.
  abbrev gate : (String → Option Claims) → Option Metadata → RegisterNodeRequest → Status ⊎ Context
  gate validate_jwt md req =
      unary p.crypto validate_jwt md register_node_method
        (register_node (some (caller_of req.identity)))

  -- The identity of a request, as the rules of Crypto have it.
  abbrev pub IsGenuine : RegisterNodeRequest → Type 0
  IsGenuine req =
      (req.identity.node_id ≢ "")
      × (req.identity.node_id ≡ derive_node_id p.crypto req.identity.public_key)
      × (length req.identity.public_key ≡ 32)
      × (length req.identity.signature ≡ 64)
      × (p.crypto.verify req.identity.public_key req.identity.node_id req.identity.signature ≡ true)

  gate_context :
      (validate_jwt : String → Option Claims) (md : Option Metadata) (req : RegisterNodeRequest)
      (ctx : Context)
      → gate validate_jwt md req ≡ inr ctx
      → IsGenuine req
  unfolding unary
  gate_context validate_jwt md req ctx h =
      (unary-register_node validate_jwt p.crypto md (caller_of req.identity)).0 (ground (arith, h))

  -- A success that the handler answers with is a success of the service.
  answer_register_node_lem :
      (machine : Machine) (req : RegisterNodeRequest) (w : Service.World Store)
      (answer : RegisterNodeResponse)
      → (answer_register_node p interval machine req w).0 ≡ ok answer
      → answer.success ≡ true
      → (node : Node) × (relays : List Node) × ((Service.register_node p machine
            (registration_of req)
            w).0
          ≡ ok (node, relays))
        × (answer.suggested_relays ≡ map domain_node_to_pb relays)
  unfolding answer_register_node
  answer_register_node_lem machine req w answer h k =
      by_service (Service.register_node p machine (registration_of req) w).0 refl
    where
      by_service :
          (o : Outcome CoreError (Node × List Node))
          → (Service.register_node p machine (registration_of req) w).0 ≡ o
          → (node : Node) × (relays : List Node) × ((Service.register_node p machine
                (registration_of req)
                w).0
              ≡ ok (node, relays))
            × (answer.suggested_relays ≡ map domain_node_to_pb relays)
      by_service (ok (node, relays)) e = (node, relays, e, ground (arith, e, h))
      by_service (err x) e = ground (arith, e, h, k)
      by_service panic e = ground (arith, e, h, k)

  -- Where the answer of a call of RegisterNode reports a success, the id of the node is derived from its
  -- key of 32 bytes, with a signature of 64 bytes that Ed25519 accepts, the service has registered the
  -- node, and the relays of the answer are those that the service suggests.
  pub call_register_node_lem :
      (validate_jwt : String → Option Claims) (md : Option Metadata) (machine : Machine)
      (req : RegisterNodeRequest) (w : Service.World Store) (answer : RegisterNodeResponse)
      → (call_register_node p interval validate_jwt md machine req w).0 ≡ ok answer
      → answer.success ≡ true
      → IsGenuine req
        × ((node : Node) × (relays : List Node) × ((Service.register_node p machine
                (registration_of req)
                w).0
              ≡ ok (node, relays))
            × (answer.suggested_relays ≡ map domain_node_to_pb relays))
  unfolding call_register_node
  call_register_node_lem validate_jwt md machine req w answer h k =
      by_gate (gate validate_jwt md req) refl h
    where
      by_gate :
          (g : Status ⊎ Context)
          → gate validate_jwt md req ≡ g
          → (guarded p interval g (answer_register_node p interval machine req) w).0 ≡ ok answer
          → IsGenuine req
            × ((node : Node) × (relays : List Node) × ((Service.register_node p machine
                    (registration_of req)
                    w).0
                  ≡ ok (node, relays))
                × (answer.suggested_relays ≡ map domain_node_to_pb relays))
      by_gate (inl refusal) g h = ground (arith, h)
      by_gate (inr ctx) g h = (
        gate_context validate_jwt md req ctx g,
        answer_register_node_lem machine req w answer (ground (arith, h)) k,
      )
