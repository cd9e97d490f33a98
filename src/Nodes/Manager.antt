-- ===== src/Nodes/Manager.antt =====
-- The nodes that are online: internal/repository/redis/node_manager.go. Each method is its function;
-- Redis and encoding/json come as parameters.
use enxame.Base.{ℕ, ◌*◌, String, Bool, false, List, [], Option, none, some, if◌then◌else◌}
use enxame.Base.Exec.{Outcome, ok, err, panic, Exec, ◌>>=◌, ◌>>◌, pure, fail}
use enxame.Nodes.Types.{
  Node, ModerationEvent, CoreError, json_failed, redis_failed, node_not_found, is_relay, unix,
}
use enxame.Nodes.Redis.{Reply, failed, missing, found, Redis}
use Prim.Native.String

-- What is stored for a node; the times are in seconds.
pub record NodeData : Type 0 where
  pub node_id : String
  pub public_key : List ℕ
  pub node_type : ℕ
  pub status : ℕ
  pub endpoints : List String
  pub version : String
  pub capabilities : List String
  pub region : String
  pub registered_at : ℕ
  pub last_seen : ℕ

-- json.Marshal and json.Unmarshal on these types; `none` is an error.
pub record NodeJson : Type 0 where
  pub marshal : NodeData → Option (List ℕ)
  pub unmarshal : List ℕ → Option NodeData
  pub marshal_event : ModerationEvent → Option (List ℕ)

abbrev pub node_key : String → String
node_key id = String.◌++◌ "node:" id

abbrev pub active_relays : String
active_relays = "active_relays"

abbrev pub data_of : ℕ → Node → NodeData
data_of now n = record {
  node_id = n.identity.node_id;
  public_key = n.identity.public_key;
  node_type = n.node_type;
  status = n.status;
  endpoints = n.endpoints;
  version = n.version;
  capabilities = n.capabilities;
  region = n.region;
  registered_at = unix n.registered_at;
  last_seen = unix now;
}

-- time.Unix(seconds, 0); the signature is not stored.
abbrev pub node_of : NodeData → Node
node_of d = record {
  identity = record { node_id = d.node_id; public_key = d.public_key; signature = [] };
  node_type = d.node_type;
  status = d.status;
  endpoints = d.endpoints;
  version = d.version;
  capabilities = d.capabilities;
  region = d.region;
  registered_at = d.registered_at * 1000000000;
  last_seen = d.last_seen * 1000000000;
}

module _ {Store : Type 0} (redis : Redis Store) (json : NodeJson) where
  abbrev pub Manager : Type 0 → Type 0
  Manager A = Exec Store CoreError A

  -- A command that answers with an error or not.
  abbrev pub command : (Store → Bool × Store) → Manager Unit
  command c s = (if (c s).0 then ok tt else err redis_failed, (c s).1)

  abbrev decode : Reply → Outcome CoreError (Option NodeData)
  decode failed = err redis_failed
  decode missing = ok none
  decode (found bytes) = elim (json.unmarshal bytes) [
    | none ↦ err json_failed
    | some d ↦ ok (some d)
  ]

  unfoldable pub get_data : ℕ → String → Store → Outcome CoreError (Option NodeData)
  get_data now id s = decode (redis.get now (node_key id) s)

  -- A node, or nil without an error.
  abbrev node_outcome : Outcome CoreError (Option NodeData) → Outcome CoreError (Option Node)
  node_outcome (ok none) = ok none
  node_outcome (ok (some d)) = ok (some (node_of d))
  node_outcome (err e) = err e
  node_outcome panic = panic

  unfoldable pub find_node : ℕ → String → Store → Outcome CoreError (Option Node)
  unfolding get_data
  find_node now id s = node_outcome (get_data now id s)

  -- Whether the node is found and is a relay; an error of GET is ignored.
  abbrev found_relay : Outcome CoreError (Option Node) → Bool
  found_relay (ok (some n)) = is_relay n
  found_relay _ = false

  unfoldable pub remove_node : ℕ → String → Manager Unit
  unfolding find_node
  remove_node now id s =
      command (redis.del (node_key id))
        (if found_relay (find_node now id s) then (redis.zrem active_relays id s).1 else s)

  abbrev publish_data : Option (List ℕ) → Manager Unit
  publish_data none = fail json_failed
  publish_data (some bytes) = command (redis.publish "moderation_events" bytes)

  unfoldable pub publish_moderation_event : ModerationEvent → Manager Unit
  publish_moderation_event event = publish_data (json.marshal_event event)

  module _ (ttl : ℕ) where
    abbrev pub set_data : ℕ → String → Option (List ℕ) → Manager Unit
    set_data now id none = fail json_failed
    set_data now id (some bytes) = command (redis.set now (node_key id) bytes ttl)

    unfoldable pub register : ℕ → Node → Manager Unit
    register now node = do
      set_data now node.identity.node_id (json.marshal (data_of now node))
      if is_relay node
          then command (redis.zadd active_relays (unix now) node.identity.node_id)
          else pure tt

    unfoldable pub refresh_data : ℕ → String → ℕ → Option NodeData → Manager Unit
    refresh_data now id status none = fail node_not_found
    refresh_data now id status (some d) =
        set_data now id (json.marshal (record d { status = status; last_seen = unix now }))

    -- The metrics of a heartbeat are not stored.
    unfoldable pub refresh_heartbeat : ℕ → String → ℕ → Manager Unit
    unfolding refresh_data get_data
    refresh_heartbeat now id status = do
      stored ← (λ s. (get_data now id s, s))
      refresh_data now id status stored
