-- ===== src/Client/Handlers.antt =====
-- What a client does with the messages of other nodes: the handlers of client.go but those of files. An
-- error is where a handler returns early; no caller sees it. The events are what the callback onMessage
-- is called with.
use enxame.Base.{ℕ, String, true, List, [], Option, none, some, if◌then◌else◌, ◌==◌ as nat_eq}
use enxame.Base.Dict.{lookup, insert, delete}
use enxame.Base.Exec.{choose, ◌>>=◌, ◌>>◌, pure, fail, abort, gets, modify}
use enxame.Crypto.{hex_encode}
use enxame.Crypto.Keys.{hex_bytes}
use enxame.E2e.{KeyPair, generate_key_exchange_pair, derive_shared_secret, encrypt, decrypt}
use enxame.Relay.Types.{Envelope}
use enxame.Storage.{store_message, save_channel_key, upsert_dm_session, upsert_member}
use enxame.Client.{
  EnxameClient, SessionE2e, MessageType, Library, World, Client, key_exchange_ack, key_response,
  stopped, malformed, decrypt_failed, machine_of, ignoring, is_channel, notify,
}
use enxame.Client.Outbox.{
  get_dm_channel_id, send_payload, initiate_handshake, subscribe_to_relay_channel,
}
use enxame.Client.Keys.{stored_nonempty, channel_key, channel_key_or_empty, session_key, found}
use Prim.Native.String
use Prim.Native.Char.{Char, code}

-- An error of ecdh leaves a nil slice.
abbrev pub bytes_or_nil : Option (List ℕ) → List ℕ
bytes_or_nil none = []
bytes_or_nil (some bs) = bs

abbrev pub skip : Client Unit
skip = pure tt

-- strings.SplitN(s, "|", 2), where there are two parts.
abbrev with_head : Char → Option (String × String) → Option (String × String)
with_head c none = none
with_head c (some (a, b)) = some (String.◌∷◌ c a, b)

unfoldable pub cut : String → Option (String × String)
cut String.[] = none
cut (String.◌∷◌ c s) = if nat_eq (code c) 124 then some (String.[], s) else with_head c (cut s)

abbrev pub session_with : World → List ℕ → SessionE2e
session_with w key = record { shared_key = key; created_at = w.now }

module _ (lib : Library) where
  -- sendSecureMessage: a failed encryption sends an empty content.
  unfoldable pub send_secure_message : World → String → MessageType → List ℕ → Client Unit
  send_secure_message w target kind content c = elim (session_key target c) [
    | none ↦ initiate_handshake lib w target c
    | some key ↦
        (do
          id ←
              send_payload lib w target (record {
                kind = kind;
                content = bytes_or_nil (encrypt lib.e2e w.nonce key content);
              })
          pure tt)
          c
  ]

  unfoldable pub handle_key_exchange_init : World → String → List ℕ → Client Unit
  handle_key_exchange_init w sender peer_pub =
      elim (generate_key_exchange_pair lib.e2e w.private_key) [
        | none ↦ abort
        | some pair ↦ do
          modify λ c. record c {
            e2e_sessions =
                insert sender
                  (session_with w
                    (bytes_or_nil (derive_shared_secret lib.e2e pair.private peer_pub)))
                  c.e2e_sessions;
          }
          id ← send_payload lib w sender (record { kind = key_exchange_ack; content = pair.public })
          pure tt
      ]

  abbrev complete : World → String → List ℕ → Option KeyPair → Client Unit
  complete w sender peer_pub none = fail stopped
  complete w sender peer_pub (some pair) = modify λ c. record c {
    e2e_sessions =
        insert sender
          (session_with w (bytes_or_nil (derive_shared_secret lib.e2e pair.private peer_pub)))
          c.e2e_sessions;
    e2e_pending_keys = delete sender c.e2e_pending_keys;
  }

  unfoldable pub handle_key_exchange_ack : World → String → List ℕ → Client Unit
  handle_key_exchange_ack w sender peer_pub = do
    pending ← gets λ c. lookup sender c.e2e_pending_keys
    complete w sender peer_pub pending

  -- decryptPayload
  unfoldable pub decrypt_payload : World → String → String → List ℕ → Client (List ℕ)
  decrypt_payload w sender target ciphertext = do
    stored ← choose (is_channel target) (channel_key_or_empty w target) (gets (session_key sender))
    key ← found stored
    elim (decrypt lib.e2e key ciphertext) [ none ↦ fail decrypt_failed | some plain ↦ pure plain ]

  -- Where a chat is stored: its channel, or the conversation of the two nodes.
  abbrev pub storage_target : String → String → EnxameClient → String
  storage_target peer target c =
      if is_channel target then target else get_dm_channel_id lib c.node_id peer

  abbrev pub record_chat : World → Envelope → List ℕ → Client Unit
  record_chat w env plain = do
    place ← gets (storage_target env.sender_node_id env.target_node_id)
    choose (is_channel env.target_node_id) skip
        (ignoring (upsert_dm_session (machine_of w) place env.sender_node_id))
    ignoring
        (store_message (machine_of w) env.message_id env.sender_node_id place (lib.to_text plain))
    choose (is_channel env.target_node_id)
        (ignoring (upsert_member (machine_of w) env.target_node_id env.sender_node_id "MEMBER"))
        skip
    notify (record {
      id = env.message_id;
      sender_id = env.sender_node_id;
      target_id = place;
      content = lib.to_text plain;
      timestamp = env.timestamp;
      is_channel = is_channel env.target_node_id;
    })

  abbrev pub take_chat : World → Envelope → Option (List ℕ) → Client Unit
  take_chat w env none = fail decrypt_failed
  take_chat w env (some plain) = record_chat w env plain

  unfoldable pub handle_chat_message : World → Envelope → List ℕ → Client Unit
  handle_chat_message w env ciphertext = do
    stored ←
        choose (is_channel env.target_node_id) (channel_key w env.target_node_id)
          (gets (session_key env.sender_node_id))
    key ← found stored
    take_chat w env (decrypt lib.e2e key ciphertext)

  -- The key of a channel, which a stored one does not become.
  abbrev shared_key_of : World → String → EnxameClient → Option (List ℕ)
  shared_key_of w channel c = elim (lookup channel c.channel_keys) [
    | some key ↦ some key
    | none ↦ elim (stored_nonempty w channel c) [
      | none ↦ none
      | some key_hex ↦ some (hex_bytes key_hex)
    ]
  ]

  unfoldable pub handle_channel_join_request : World → String → List ℕ → Client Unit
  handle_channel_join_request w sender content = do
    key ← gets (shared_key_of w (lib.to_text content))
    ignoring (upsert_member (machine_of w) (lib.to_text content) sender "MEMBER")
    elim key [
      | none ↦ skip
      | some bytes ↦
          send_secure_message w sender key_response
            (lib.to_bytes (String.◌++◌ (lib.to_text content) (String.◌++◌ "|" (hex_encode bytes))))
    ]

  abbrev take_key : World → Option (String × String) → Client Unit
  take_key w none = fail malformed
  take_key w (some (channel, key_hex)) = do
    ignoring (save_channel_key (machine_of w) channel key_hex)
    modify λ c. record c { channel_keys = insert channel (hex_bytes key_hex) c.channel_keys }
    subscribe_to_relay_channel lib w channel
    notify (record {
      id = "";
      sender_id = "";
      target_id = channel;
      content = String.◌++◌ "Joined " channel;
      timestamp = 0;
      is_channel = true;
    })

  -- The sender plays no part.
  unfoldable pub handle_channel_key_response : World → List ℕ → Client Unit
  handle_channel_key_response w content = take_key w (cut (lib.to_text content))
