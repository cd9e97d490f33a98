-- ===== src/Client/Dispatch.antt =====
-- handleMessage in client.go, and the loop of pkg/relay/client.go that calls it.
use enxame.Base.{ℕ, false, List, [], ◌∷◌, if◌then◌else◌}
use enxame.Base.Exec.{Outcome, ok, err, panic, ◌>>=◌, fail}
use enxame.Relay.Types.{Envelope}
use enxame.Relay.Server.{Decoded, decoded, ignored, malformed}
use enxame.Client.{
  MessageType, Library, World, Client, ClientError, not_connected, key_exchange_init,
  key_exchange_ack, chat, join_request, key_response, sync_request, sync_response, file_manifest,
  chunk_request, chunk_response, file, wiki_update, metadata_update, tag_created, tag_added,
  unknown_type, stopped,
}
use enxame.Client.Handlers.{
  skip, handle_key_exchange_init, handle_key_exchange_ack, handle_chat_message,
  handle_channel_join_request, handle_channel_key_response,
}
use enxame.Client.Updates.{
  handle_wiki_update, handle_metadata_update, handle_tag_created, handle_tag_added,
  handle_file_payload, handle_chunk_request, handle_chunk_response, parsed,
}

-- What stream.Recv and CommandToEnvelope give the loop.
pub data Received : Type 0 where
  received : World → Decoded → Received
  ended : Received

module _ (lib : Library) where
  -- The handlers of synchronisation and of loose manifests are empty.
  unfoldable pub dispatch : World → Envelope → MessageType → List ℕ → Client Unit
  dispatch w env key_exchange_init bytes = handle_key_exchange_init lib w env.sender_node_id bytes
  dispatch w env key_exchange_ack bytes = handle_key_exchange_ack lib w env.sender_node_id bytes
  dispatch w env chat bytes = handle_chat_message lib w env bytes
  dispatch w env join_request bytes = handle_channel_join_request lib w env.sender_node_id bytes
  dispatch w env key_response bytes = handle_channel_key_response lib w bytes
  dispatch w env sync_request bytes = skip
  dispatch w env sync_response bytes = skip
  dispatch w env file_manifest bytes = skip
  dispatch w env chunk_request bytes = handle_chunk_request lib w env.sender_node_id bytes
  dispatch w env chunk_response bytes = handle_chunk_response lib w bytes
  dispatch w env file bytes = handle_file_payload lib w env bytes
  dispatch w env wiki_update bytes =
      handle_wiki_update lib w env.sender_node_id env.target_node_id bytes
  dispatch w env metadata_update bytes =
      handle_metadata_update lib w env.sender_node_id env.target_node_id bytes
  dispatch w env tag_created bytes =
      handle_tag_created lib w env.sender_node_id env.target_node_id bytes
  dispatch w env tag_added bytes =
      handle_tag_added lib w env.sender_node_id env.target_node_id bytes
  dispatch w env unknown_type bytes = skip

  unfoldable pub handle_message : World → Envelope → Client Unit
  handle_message w env = do
    payload ← parsed (lib.payloads.unmarshal env.encrypted_payload)
    dispatch w env payload.kind payload.content

  -- A panic of the handler ends the program; an early return does not end the loop.
  abbrev handled : Outcome ClientError Unit → Client Unit → Client Unit
  handled (ok u) rest c = rest c
  handled (err e) rest c = rest c
  handled panic rest c = (panic, c)

  abbrev disconnect : Client Unit
  disconnect c =
      (err stopped, record c { relay_client = record c.relay_client { connected = false } })

  unfoldable pub receive_all : List Received → Client Unit
  receive_all [] c = disconnect c
  receive_all (ended ∷ rs) c = disconnect c
  receive_all (received w (decoded env) ∷ rs) c =
      handled (handle_message w env c).0 (receive_all rs) (handle_message w env c).1
  receive_all (received w ignored ∷ rs) c = receive_all rs c
  receive_all (received w malformed ∷ rs) c = receive_all rs c

  -- ReceiveLoop, up to the first error of the stream.
  unfoldable pub receive_loop : List Received → Client Unit
  receive_loop rs c = if c.relay_client.connected then receive_all rs c else fail not_connected c
