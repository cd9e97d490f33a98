-- ===== src/Client/Kept/Handled.antt =====
-- The handlers that leave the members of a client's channels as they are.
use enxame.Base.{ℕ, String, List, arith}
use enxame.Relay.Types.{Envelope}
use enxame.Storage.{Member, ChannelTag}
use enxame.Storage
use enxame.Client.{Library, World}
use enxame.Client.Outbox.{send, send_payload, initiate_handshake, subscribe_to_relay_channel}
use enxame.Client.Handlers.{
  send_secure_message, handle_key_exchange_init, handle_key_exchange_ack,
  handle_channel_key_response,
}
use enxame.Client.Updates
use enxame.Client.Kept.{Keeps, decrypt_payload-Keeps}

module _ (lib : Library) (w : World) where
  pub handle_key_exchange_init-Keeps :
      (sender : String) (bytes : List ℕ) → Keeps (handle_key_exchange_init lib w sender bytes)
  unfolding handle_key_exchange_init send_payload send
  handle_key_exchange_init-Keeps sender bytes c = ground arith

  pub handle_channel_key_response-Keeps :
      (bytes : List ℕ) → Keeps (handle_channel_key_response lib w bytes)
  unfolding handle_channel_key_response subscribe_to_relay_channel send Storage.save_channel_key
  handle_channel_key_response-Keeps bytes c = ground arith

  pub handle_wiki_update-Keeps :
      (sender target : String) (bytes : List ℕ)
      → Keeps (Updates.handle_wiki_update lib w sender target bytes)
  unfolding Updates.handle_wiki_update Storage.save_wiki_page
  handle_wiki_update-Keeps sender target bytes c =
      ground (arith, decrypt_payload-Keeps lib w sender target bytes c)

  pub handle_key_exchange_ack-Keeps :
      (sender : String) (bytes : List ℕ) → Keeps (handle_key_exchange_ack lib w sender bytes)
  unfolding handle_key_exchange_ack
  handle_key_exchange_ack-Keeps sender bytes c = ground arith

  pub handle_metadata_update-Keeps :
      (sender target : String) (bytes : List ℕ)
      → Keeps (Updates.handle_metadata_update lib w sender target bytes)
  unfolding Updates.handle_metadata_update Storage.set_channel_config Storage.update_channel_avatar
  handle_metadata_update-Keeps sender target bytes c =
      ground (arith, decrypt_payload-Keeps lib w sender target bytes c)

  pub handle_tag_created-Keeps :
      (sender target : String) (bytes : List ℕ)
      → Keeps (Updates.handle_tag_created lib w sender target bytes)
  unfolding Updates.handle_tag_created Storage.create_tag
  handle_tag_created-Keeps sender target bytes c =
      ground (arith, decrypt_payload-Keeps lib w sender target bytes c)

  pub handle_tag_added-Keeps :
      (sender target : String) (bytes : List ℕ)
      → Keeps (Updates.handle_tag_added lib w sender target bytes)
  unfolding Updates.handle_tag_added Storage.add_message_tag
  handle_tag_added-Keeps sender target bytes c =
      ground (arith, decrypt_payload-Keeps lib w sender target bytes c)

  pub handle_file_payload-Keeps :
      (env : Envelope) (bytes : List ℕ) → Keeps (Updates.handle_file_payload lib w env bytes)
  unfolding Updates.handle_file_payload Storage.store_message Storage.put_message
  handle_file_payload-Keeps env bytes c = ground arith

  pub handle_chunk_request-Keeps :
      (sender : String) (bytes : List ℕ) → Keeps (Updates.handle_chunk_request lib w sender bytes)
  unfolding Updates.handle_chunk_request send_secure_message initiate_handshake send_payload send
  handle_chunk_request-Keeps sender bytes c = ground arith

  pub handle_chunk_response-Keeps :
      (bytes : List ℕ) → Keeps (Updates.handle_chunk_response lib w bytes)
  unfolding Updates.handle_chunk_response
  handle_chunk_response-Keeps bytes c = ground arith
