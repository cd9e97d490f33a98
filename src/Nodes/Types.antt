-- ===== src/Nodes/Types.antt =====
-- The records of internal/domain/node.go and internal/domain/moderation.go. The enumerations are Go
-- integers, and stay numbers; a time is a number of nanoseconds.
use enxame.Base.{
  ℕ, ◌/◌, String, Bool, false, List, Option, none, some, ◌==◌, ltb, any, is_some, not,
}
use enxame.Base.Text.{◌==◌ as text_eq}

pub record Identity : Type 0 where
  pub node_id : String
  pub public_key : List ℕ
  pub signature : List ℕ

abbrev pub node_type_relay : ℕ
node_type_relay = 2

abbrev pub node_status_online : ℕ
node_status_online = 1

pub record Node : Type 0 where
  pub identity : Identity
  pub node_type : ℕ
  pub status : ℕ
  pub endpoints : List String
  pub version : String
  pub capabilities : List String
  pub region : String
  pub registered_at : ℕ
  pub last_seen : ℕ

pub record Registration : Type 0 where
  pub identity : Identity
  pub node_type : ℕ
  pub endpoints : List String
  pub version : String
  pub capabilities : List String
  pub region : String

abbrev pub is_relay : Node → Bool
is_relay n = n.node_type == node_type_relay

unfoldable pub has_capability : Node → String → Bool
has_capability n c = any (λ d. text_eq d c) n.capabilities

-- `none` is a nil time: the ban is permanent.
pub record NodeBan : Type 0 where
  pub banned_node_id : String
  pub reason : String
  pub duration_seconds : ℕ
  pub banned_at : ℕ
  pub expires_at : Option ℕ
  pub moderator_id : String

unfoldable pub is_permanent : NodeBan → Bool
is_permanent b = not (is_some b.expires_at)

unfoldable pub is_ban_expired : ℕ → NodeBan → Bool
is_ban_expired now b = elim b.expires_at [ none ↦ false | some e ↦ ltb e now ]

pub record ContentBan : Type 0 where
  pub content_hash : String
  pub reason : String
  pub category : String
  pub banned_at : ℕ
  pub moderator_id : String

pub record GlobalModerator : Type 0 where
  pub moderator_id : String
  pub public_key : List ℕ
  pub name : String
  pub created_at : ℕ
  pub active : Bool

pub record ModerationAction : Type 0 where
  pub action_id : String
  pub event_type : ℕ
  pub target_id : String
  pub reason : String
  pub duration : ℕ
  pub moderator : GlobalModerator
  pub signature : List ℕ
  pub created_at : ℕ

pub record GlobalAlert : Type 0 where
  pub alert_id : String
  pub title : String
  pub message : String
  pub severity : String
  pub info_url : String
  pub created_at : ℕ

pub data Payload : Type 0 where
  node_banned : NodeBan → Payload
  content_banned : ContentBan → Payload
  global_alert : GlobalAlert → Payload

pub record ModeratorSignature : Type 0 where
  pub moderator_id : String
  pub public_key : List ℕ
  pub signature : List ℕ
  pub signed_at : ℕ

pub record ModerationEvent : Type 0 where
  pub event_id : String
  pub event_type : ℕ
  pub timestamp : ℕ
  pub payload : Payload
  pub moderator_signature : ModeratorSignature

-- The errors of the services. Errors of Redis, PostgreSQL and encoding/json are told apart, their texts
-- are not kept; a ban carries its reason.
pub data CoreError : Type 0 where
  json_failed redis_failed database_failed : CoreError
  invalid_identity node_not_found : CoreError
  node_is_banned : String → CoreError
  unauthorized_moderator invalid_moderation_sign : CoreError

-- Time.Unix
abbrev pub unix : ℕ → ℕ
unix t = t / 1000000000
