-- ===== src/Client/Outbox.antt =====
-- What a client sends to its relay: the envelopes of client.go, and Send in pkg/relay/client.go.
use enxame.Base.{ℕ, String, not, ◌||◌, [], ◌∷◌, ◌++◌, none, some, if◌then◌else◌, take}
use enxame.Base.Dict.{insert}
use enxame.Base.Word.{format_int}
use enxame.Base.Exec.{panic, ◌>>=◌, ◌>>◌, pure, modify}
use enxame.Crypto.{hex_encode}
use enxame.E2e.{generate_key_exchange_pair}
use enxame.Relay.Types.{Envelope}
use enxame.Storage.Order.{is_after}
use enxame.Client.{EnxameClient, Library, World, Client, E2ePayload, key_exchange_init}
use Prim.Native.String

-- RelayClient.Send; an error of the encoding counts as one of the stream.
unfoldable pub send : World → Envelope → EnxameClient → EnxameClient
send w env c = if not c.relay_client.connected || w.send_fails then c else record c {
  relay_client = record c.relay_client { sent = c.relay_client.sent ++ env ∷ [] };
}

-- fmt.Sprintf("msg-%d", now)
unfoldable pub message_id : World → String
unfolding format_int
message_id w = String.◌++◌ "msg-" (format_int w.now)

-- pbv1.MessageType_MESSAGE_TYPE_CHAT and MESSAGE_TYPE_CONTROL
abbrev type_chat : ℕ
type_chat = 1

abbrev pub type_control : ℕ
type_control = 6

module _ (lib : Library) where
  -- The ids in their order, whoever began.
  unfoldable pub get_dm_channel_id : String → String → String
  get_dm_channel_id node_id target =
      let ids =
        if is_after node_id target
        then String.◌++◌ target (String.◌++◌ ":" node_id)
        else String.◌++◌ node_id (String.◌++◌ ":" target) in
      String.◌++◌ "dm_" (hex_encode (take 16 (lib.e2e.sha256 (lib.to_bytes ids))))

  abbrev pub envelope_of : World → String → E2ePayload → EnxameClient → Envelope
  envelope_of w target payload c = record {
    message_id = message_id w;
    sender_node_id = c.node_id;
    target_node_id = target;
    encrypted_payload = lib.payloads.marshal payload;
    nonce = [];
    sender_signature = lib.sign c.private_key (lib.payloads.marshal payload);
    timestamp = w.now;
    message_type = type_chat;
  }

  -- The id of the message is the result, sent or not.
  unfoldable pub send_payload : World → String → E2ePayload → Client String
  send_payload w target payload = do
    modify λ c. send w (envelope_of w target payload c) c
    pure (message_id w)

  -- A nil pair is stored before its use panics.
  unfoldable pub initiate_handshake : World → String → Client Unit
  initiate_handshake w target = elim (generate_key_exchange_pair lib.e2e w.private_key) [
    | none ↦ (λ c. (panic, c))
    | some pair ↦ do
      modify λ c. record c { e2e_pending_keys = insert target pair c.e2e_pending_keys }
      id ← send_payload w target (record { kind = key_exchange_init; content = pair.public })
      pure tt
  ]

  unfoldable pub subscribe_to_relay_channel : World → String → Client Unit
  unfolding format_int
  subscribe_to_relay_channel w channel = modify λ c.
      let payload = lib.commands (record { command = "subscribe"; channel = channel }) in
      send w
        (record {
          message_id = String.◌++◌ "ctrl-" (format_int w.now);
          sender_node_id = c.node_id;
          target_node_id = "RELAY";
          encrypted_payload = payload;
          nonce = [];
          sender_signature = lib.sign c.private_key payload;
          timestamp = w.now;
          message_type = type_control;
        })
        c
