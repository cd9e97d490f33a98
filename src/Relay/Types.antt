-- ===== src/Relay/Types.antt =====
-- The state of pkg/relay/session_manager.go, and the messages that pass through it
-- (pkg/pb/v1/relay.pb.go). Go's pointers to sessions are addresses into a heap, since a stream keeps
-- its session after the manager has replaced it.
use enxame.Base.{ℕ, String, Bool, List, [], Option, none}
use enxame.Base.Dict.{Dict}

-- The enumeration MessageType is its number, and the timestamp a number of nanoseconds.
pub record Envelope : Type 0 where
  pub message_id : String
  pub sender_node_id : String
  pub target_node_id : String
  pub encrypted_payload : List ℕ
  pub nonce : List ℕ
  pub sender_signature : List ℕ
  pub timestamp : ℕ
  pub message_type : ℕ

-- A Go channel with a buffer.
pub record Chan : Type 0 where
  pub buffer : List Envelope
  pub closed : Bool

-- make(chan *pbv1.Envelope, 100)
abbrev pub buffer_size : ℕ
buffer_size = 100

pub record Session : Type 0 where
  pub node_id : String
  pub public_key : List ℕ
  pub session_id : String
  pub connected_at : ℕ
  pub last_activity : ℕ
  pub send_chan : Chan

pub record SessionManager : Type 0 where
  pub heap : ℕ → Option Session
  pub next : ℕ
  pub sessions : Dict ℕ
  pub blacklist : Dict ℕ
  pub channels : Dict (Dict Bool)
  pub active_connections : ℕ
  pub messages_relayed : ℕ

unfoldable pub new_session_manager : SessionManager
new_session_manager = record {
  heap = λ a. none;
  next = 0;
  sessions = [];
  blacklist = [];
  channels = [];
  active_connections = 0;
  messages_relayed = 0;
}

-- The errors of pkg/relay/errors.go, and the three that StreamMessages returns besides: a first
-- message without a sender, an encoding error, and an error of the stream.
pub data Error : Type 0 where
  node_blacklisted target_not_connected buffer_full invalid_signature session_not_found : Error
  sender_required invalid_command stream_failed : Error
