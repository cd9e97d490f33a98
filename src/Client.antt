-- ===== src/Client.antt =====
-- The client of the network: pkg/client_sdk/client.go, with the connection to a relay in
-- pkg/relay/client.go.
use enxame.Base.{ℕ, String, Bool, ◌||◌, List, ◌∷◌, ◌++◌, Option, none, some, if◌then◌else◌}
use enxame.Base.Text.{has_prefix}
use enxame.Base.Dict.{Dict}
use enxame.Base.Exec.{Outcome, ok, err, panic, Exec, ◌>>=◌, ◌>>◌, pure, fail, modify}
use enxame.E2e
use enxame.E2e.{KeyPair}
use enxame.Relay.Types.{Envelope}
use enxame.Relay.Server.{RelayCommand}
use enxame.Storage.{
  Storage, StorageError, Database, Statement, WikiPage, ChannelConfig, ChannelTag, MessageTag,
}
use enxame.Storage
pub mod Outbox
pub mod Keys
pub mod Handlers
pub mod Updates
pub mod Dispatch
pub mod Sending
pub mod Hub
pub mod Core
pub mod Files
pub mod Chunks
pub mod Transfer
pub mod Wire
pub mod Handshake
pub mod Delivery
pub mod Calls
pub mod Kept
pub mod Roles
pub mod Permissions
pub mod Channels
pub mod Sessions
pub mod Governance
mod Tests
use Prim.Native.String

pub data MessageType : Type 0 where
  key_exchange_init key_exchange_ack chat join_request key_response : MessageType
  sync_request sync_response file_manifest chunk_request chunk_response : MessageType
  file wiki_update metadata_update tag_created tag_added unknown_type : MessageType

pub record E2ePayload : Type 0 where
  pub kind : MessageType
  pub content : List ℕ

pub record ChunkMeta : Type 0 where
  pub index : ℕ
  pub hash : String

pub record FileManifest : Type 0 where
  pub file_id : String
  pub name : String
  pub size : ℕ
  pub chunks : List ChunkMeta
  pub sender_id : String

-- The body of a chunk response.
pub record ChunkResponse : Type 0 where
  pub file_id : String
  pub index : String
  pub bytes : List ℕ

pub record MessageEvent : Type 0 where
  pub id : String
  pub sender_id : String
  pub target_id : String
  pub content : String
  pub timestamp : ℕ
  pub is_channel : Bool

pub record SessionE2e : Type 0 where
  pub shared_key : List ℕ
  pub created_at : ℕ

-- The connection to a relay, with the envelopes that were given to its stream.
pub record RelayClient : Type 0 where
  pub connected : Bool
  pub sent : List Envelope

-- The files are those under the directory chunks and those that were saved, by their paths.
pub record EnxameClient : Type 0 where
  pub node_id : String
  pub private_key : List ℕ
  pub relay_client : RelayClient
  pub storage : Storage
  pub e2e_sessions : Dict SessionE2e
  pub e2e_pending_keys : Dict KeyPair
  pub current_channel : String
  pub channel_keys : Dict (List ℕ)
  pub manifests : Dict FileManifest
  pub files : Dict (List ℕ)
  pub events : List MessageEvent
  pub auth_token : String
  pub vault_token : String

-- encoding/json on one type.
pub record Json (A : Type 0) : Type 0 where
  pub marshal : A → List ℕ
  pub unmarshal : List ℕ → Option A

-- The packages that the client calls: those of E2e, Ed25519, JSON, the conversions between a string and
-- its bytes, filepath.Join with the directory of chunks, and filepath.Base.
pub record Library : Type 0 where
  pub e2e : E2e.Primitives
  pub sign : List ℕ → List ℕ → List ℕ
  pub payloads : Json E2ePayload
  pub pages : Json WikiPage
  pub configs : Json ChannelConfig
  pub tags : Json ChannelTag
  pub message_tags : Json MessageTag
  pub manifests : Json FileManifest
  pub chunk_responses : Json ChunkResponse
  pub commands : RelayCommand → List ℕ
  pub to_bytes : String → List ℕ
  pub to_text : List ℕ → String
  pub chunk_path : String → String
  pub base_name : String → String

-- What a call meets: the time, what crypto/rand supplies, the statements and the stream that fail, and
-- the files that cannot be written.
pub record World : Type 0 where
  pub now : ℕ
  pub private_key : Option (List ℕ)
  pub nonce : Option (List ℕ)
  pub fails : Statement → Bool
  pub send_fails : Bool
  pub write_fails : String → Bool

pub data ClientError : Type 0 where
  not_connected no_channel_key initiating_handshake encrypt_failed decrypt_failed : ClientError
  malformed no_session stopped permission_denied storage_failed key_not_found : ClientError
  open_failed file_too_large read_failed manifest_not_found missing_chunk hash_mismatch
        create_failed :
      ClientError
  invalid_role call_failed refused : ClientError

abbrev pub Client : Type 0 → Type 0
Client A = Exec EnxameClient ClientError A

abbrev pub machine_of : World → Storage.Machine
machine_of w = record { now = w.now; fails = w.fails }

-- A statement whose error is ignored.
abbrev pub ignoring : {A : Type 0} → Database A → Client Unit
ignoring m c = (ok tt, record c { storage = (m c.storage).1 })

abbrev storage_outcome : {A : Type 0} → Outcome StorageError A → Outcome ClientError A
storage_outcome (ok a) = ok a
storage_outcome (err e) = err storage_failed
storage_outcome panic = panic

-- A statement whose error is returned.
abbrev pub checking : {A : Type 0} → Database A → Client A
checking m c = (storage_outcome (m c.storage).0, record c { storage = (m c.storage).1 })

abbrev pub value_of : {A : Type 0} → Outcome StorageError A → Option A
value_of (ok a) = some a
value_of (err e) = none
value_of panic = none

-- The result of a query, if there is one.
abbrev pub query : {A : Type 0} → Database A → EnxameClient → Option A
query m c = value_of (m c.storage).0

abbrev pub is_channel : String → Bool
is_channel target = has_prefix target "#"

abbrev pub notify : MessageEvent → Client Unit
notify event = modify λ c. record c { events = event ∷ c.events }
