-- ===== src/Client/Tests/Channels.antt =====
-- A client and its channels, with the core server and nodes that it does not know.
use enxame.Base.{true, false, ◌≡◌, refl, [], ◌∷◌, none, some, inr}
use enxame.Base.Dict.{lookup}
use enxame.Base.Exec.{ok, err}
use enxame.E2e.{encrypt}
use enxame.Channel
use enxame.Channel.{Services, known, ChannelServer, is_expired, elapsed, role_in}
use enxame.Crypto.Keys.{hex_bytes}
use enxame.Relay.Types.{Envelope}
use enxame.Storage.{new_storage}
use enxame.Storage.Queries.{get_channel_key}
use enxame.Client.{
  EnxameClient, MessageType, Library, key_exchange_init, chat, key_response, permission_denied,
  no_channel_key, encrypt_failed,
}
use enxame.Client.Outbox.{send_payload}
use enxame.Client.Keys.{channel_key}
use enxame.Client.Handlers.{cut}
use enxame.Client.Dispatch.{handle_message}
use enxame.Client.Sending.{send_message}
use enxame.Client.Hub.{set_channel_config}
use enxame.Client.Calls.{receives, joins, run}
use enxame.Client.Permissions.{run_refused}
use enxame.Client.Channels.{send_message_twice, handle_message-key_response}
use enxame.Client.Sessions.{send_message-invalid_key}
use enxame.Client.Core
use enxame.Client.Governance.{KnowsKey, answer_of, promote_user_accepted}
use enxame.Client.Tests.{ana, client, ciphers, number_of, key, lib, world, codec}

-- A client that has stored the key of a channel.
abbrev with_key : EnxameClient
with_key = client "ana" [] (record new_storage {
  channels = ("#a", record { key_hex = "00112233445566778899aabbccddeeff"; avatar = none }) ∷ [];
})

sent_once : (send_message lib (world []) "#a" "first" with_key).0 ≡ ok tt
unfolding send_message channel_key get_channel_key lookup hex_bytes encrypt send_payload
sent_once = refl

send_message_twice_example :
    let d = (send_message lib (world []) "#a" "first" with_key).1 in
    send_message lib (world []) "#a" "second" d ≡ (err no_channel_key, d)
send_message_twice_example =
    send_message_twice lib (world []) (world []) "#a" "first" "second" with_key refl sent_once

-- A message of a third node.
abbrev from_bob : MessageType → Envelope
from_bob kind = record {
  message_id = "m1";
  sender_node_id = "bob";
  target_node_id = "ana";
  encrypted_payload = number_of kind ∷ [];
  nonce = [];
  sender_signature = [];
  timestamp = 0;
  message_type = 1;
}

parts : cut "#a|00ff" ≡ some ("#a", "00ff")
unfolding cut
parts = refl

handle_message-key_response_example :
    lookup "#a" (handle_message lib (world []) (from_bob key_response) with_key).1.channel_keys
    ≡ some (hex_bytes "00ff")
handle_message-key_response_example =
    handle_message-key_response lib (world []) (from_bob key_response)
      (record { kind = key_response; content = [] }) "#a" "00ff" with_key codec refl refl parts

-- Libraries that accept no public key.
abbrev strict : Library
strict = record lib { e2e = record ciphers { is_public_key = λ p. false } }

send_message-invalid_key_example :
    let d = (handle_message strict (world []) (from_bob key_exchange_init) ana).1 in
    send_message strict (world []) "bob" "hello" d ≡ (err encrypt_failed, d)
send_message-invalid_key_example =
    send_message-invalid_key strict (world []) (world []) (from_bob key_exchange_init)
      (record { kind = key_exchange_init; content = [] }) [] "hello" ana codec refl refl refl refl
      refl refl

run_refused_example :
    let d = run lib ((world [], joins "a") ∷ (world [], receives (from_bob chat)) ∷ []) ana in
    set_channel_config lib (world []) "#a" "avatar" "x" d ≡ (err permission_denied, d)
run_refused_example =
    (run_refused lib ((world [], joins "a") ∷ (world [], receives (from_bob chat)) ∷ []) (world [])
        ana refl).0
      "#a" "avatar" "x"

-- A core server that knows a key of the client.
abbrev services : Services
services = record { get_node = λ id. known key; verify = λ k m s. true }

ana-KnowsKey : KnowsKey lib services ana
ana-KnowsKey = (key, refl, refl, λ m. refl)

abbrev channel : Channel.ChannelData
channel = record {
  id = "#a";
  name = "a";
  owner_id = "ana";
  members = [];
  roles = ("ana", "ADMIN") ∷ [];
  avatar = "";
  created_at = 0;
}

abbrev server : ChannelServer
server = record { channels = ("#a", channel) ∷ []; audit = [] }

fresh : is_expired 1000 1000 ≡ false
unfolding is_expired elapsed
fresh = refl

found_channel : lookup "#a" server.channels ≡ some channel
unfolding lookup
found_channel = refl

admin : role_in channel "ana" ≡ "ADMIN"
unfolding lookup
admin = refl

promote_user_accepted_example :
    Core.promote_user lib
      (world [])
      (λ r signed. answer_of (Channel.promote_user services 1000 r signed server).0)
      "bob"
      "MODERATOR"
      "#a"
      ana
    ≡ (ok tt, ana)
promote_user_accepted_example =
    ((promote_user_accepted lib services 1000 (world []) "bob" "MODERATOR" "#a" ana server channel
        ana-KnowsKey fresh (inr refl) found_channel).0
      admin).0
