-- ===== src/Client/Tests.antt =====
-- Two clients, over libraries that do not hide what they encrypt.
use enxame.Base.{
  ℕ, zero, suc, String, true, false, ◌≡◌, refl, ap, List, [], ◌∷◌, ◌++◌, Option, none, some,
}
use enxame.Base.Dict.{Dict, lookup}
use enxame.E2e
use enxame.E2e.Laws.{IsLawful}
use enxame.E2e.{derive_shared_secret}
use enxame.Relay.Types.{Envelope}
use enxame.Storage.{Storage, new_storage}
use enxame.Storage.History.{row_of}
use enxame.Client.{
  EnxameClient, SessionE2e, MessageType, E2ePayload, Json, Library, World, key_exchange_init,
  key_exchange_ack, chat, join_request, key_response, sync_request, sync_response, file_manifest,
  chunk_request, chunk_response, file, wiki_update, metadata_update, tag_created, tag_added,
  unknown_type,
}
use enxame.Client.Outbox.{message_id, get_dm_channel_id, initiate_handshake}
use enxame.Client.Keys.{session_key}
use enxame.Client.Dispatch.{handle_message}
use enxame.Client.Wire.{IsCodec}
use enxame.Client.Handshake.{handshake_lem}
use enxame.Client.Delivery.{stored, handle_message-send_message}
mod Transfers
mod Channels

abbrev eight : List ℕ
eight = 1 ∷ 2 ∷ 3 ∷ 4 ∷ 5 ∷ 6 ∷ 7 ∷ 8 ∷ []

abbrev nonce : List ℕ
nonce = 9 ∷ 9 ∷ 9 ∷ 9 ∷ eight

abbrev pub key : List ℕ
key = eight ++ eight ++ eight ++ eight

abbrev pub ciphers : E2e.Primitives
ciphers = record {
  public_key = λ a. a;
  is_public_key = λ p. true;
  ecdh = λ a p. some [];
  sha256 = λ xs. key;
  gcm_seal = λ k n xs. xs;
  gcm_open = λ k n xs. some xs;
}

ciphers-IsLawful : IsLawful ciphers
ciphers-IsLawful = record {
  open-seal = λ k n xs. refl;
  is_public_key-public_key = λ a. refl;
  ecdh-public_key = λ a b s h. h;
  length-sha256 = λ xs. refl;
}

abbrev pub number_of : MessageType → ℕ
number_of key_exchange_init = 0
number_of key_exchange_ack = 1
number_of chat = 2
number_of join_request = 3
number_of key_response = 4
number_of sync_request = 5
number_of sync_response = 6
number_of file_manifest = 7
number_of chunk_request = 8
number_of chunk_response = 9
number_of file = 10
number_of wiki_update = 11
number_of metadata_update = 12
number_of tag_created = 13
number_of tag_added = 14
number_of unknown_type = 15

abbrev at : ℕ → List MessageType → MessageType
at k [] = unknown_type
at zero (t ∷ ts) = t
at (suc k) (t ∷ ts) = at k ts

abbrev type_of : ℕ → MessageType
type_of k = at k (
    key_exchange_init ∷ key_exchange_ack ∷ chat ∷ join_request ∷ key_response ∷ sync_request
    ∷ sync_response ∷ file_manifest ∷ chunk_request ∷ chunk_response ∷ file ∷ wiki_update
    ∷ metadata_update ∷ tag_created ∷ tag_added ∷ [])

type_of-number_of : (t : MessageType) → type_of (number_of t) ≡ t
type_of-number_of key_exchange_init = refl
type_of-number_of key_exchange_ack = refl
type_of-number_of chat = refl
type_of-number_of join_request = refl
type_of-number_of key_response = refl
type_of-number_of sync_request = refl
type_of-number_of sync_response = refl
type_of-number_of file_manifest = refl
type_of-number_of chunk_request = refl
type_of-number_of chunk_response = refl
type_of-number_of file = refl
type_of-number_of wiki_update = refl
type_of-number_of metadata_update = refl
type_of-number_of tag_created = refl
type_of-number_of tag_added = refl
type_of-number_of unknown_type = refl

abbrev decode_payload : List ℕ → Option E2ePayload
decode_payload [] = none
decode_payload (k ∷ ks) = some (record { kind = type_of k; content = ks })

abbrev no_json : {A : Type 0} → Json A
no_json = record { marshal = λ a. []; unmarshal = λ bs. none }

abbrev pub lib : Library
lib = record {
  e2e = ciphers;
  sign = λ k m. m;
  payloads = record { marshal = λ p. number_of p.kind ∷ p.content; unmarshal = decode_payload };
  pages = no_json;
  configs = no_json;
  tags = no_json;
  message_tags = no_json;
  manifests = no_json;
  chunk_responses = no_json;
  commands = λ c. [];
  to_bytes = λ s. [];
  to_text = λ bs. "#a|00ff";
  chunk_path = λ s. s;
  base_name = λ s. s;
}

pub codec : IsCodec lib.payloads
codec p = ap (λ k. some (record { kind = k; content = p.content })) (type_of-number_of p.kind)

abbrev pub world : List ℕ → World
world priv = record {
  now = 1000;
  private_key = some priv;
  nonce = some nonce;
  fails = λ st. false;
  send_fails = false;
  write_fails = λ path. false;
}

abbrev pub client : String → Dict SessionE2e → Storage → EnxameClient
client id sessions storage = record {
  node_id = id;
  private_key = [];
  relay_client = record { connected = true; sent = [] };
  storage = storage;
  e2e_sessions = sessions;
  e2e_pending_keys = [];
  current_channel = "";
  channel_keys = [];
  manifests = [];
  files = [];
  events = [];
  auth_token = "";
  vault_token = "";
}

abbrev session : SessionE2e
session = record { shared_key = key; created_at = 0 }

abbrev pub ana : EnxameClient
ana = client "ana" [] new_storage

abbrev eva : EnxameClient
eva = client "eva" [] new_storage

abbrev pub ana_with_eva : EnxameClient
ana_with_eva = client "ana" (("eva", session) ∷ []) new_storage

abbrev eva_with_ana : EnxameClient
eva_with_ana = client "eva" (("ana", session) ∷ []) new_storage

secret : derive_shared_secret ciphers (1 ∷ []) (2 ∷ []) ≡ some key
unfolding derive_shared_secret
secret = refl

handshake_lem_example :
    (ack : Envelope) × (session_key "eva"
        (handle_message lib (world []) ack (initiate_handshake lib (world (1 ∷ [])) "eva" ana).1).1
      ≡ some key)
handshake_lem_example =
    let agreed =
      handshake_lem lib (world (1 ∷ [])) (world (2 ∷ [])) (world []) (1 ∷ []) (2 ∷ []) key ana eva
        ciphers-IsLawful codec refl refl secret (refl, refl) (refl, refl) in
    (agreed.1, agreed.4.0)

handle_message-send_message_example :
    (env : Envelope) × (stored (handle_message lib (world []) env eva_with_ana).1
      ≡ row_of 1000
          (message_id (world []))
          "ana"
          (get_dm_channel_id lib "ana" "eva")
          "#a|00ff"
          new_storage
        ∷ [])
unfolding lookup
handle_message-send_message_example =
    let sent =
      handle_message-send_message lib (world []) (world []) "#a|00ff" key nonce ana_with_eva
        eva_with_ana ciphers-IsLawful codec refl refl refl refl refl refl refl (refl, refl) refl
        refl refl refl in
    (sent.0, sent.4)
