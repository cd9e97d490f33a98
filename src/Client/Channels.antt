-- ===== src/Client/Channels.antt =====
-- The keys of channels: when a client can use one, and who can replace it.
use enxame.Base.{
  ℕ, String, ◌≡◌, refl, ap, ◌∙◌, true, List, some, arith, eq_refl, Option-cases, inl, inr,
}
use enxame.Base.Dict.{lookup, has, lookup-insert}
use enxame.Base.Exec.{ok, err}
use enxame.Crypto.Keys.{hex_bytes}
use enxame.Relay.Types.{Envelope}
use enxame.Storage
use enxame.Storage.{replace_channel, save_channel_key}
use enxame.Client.{
  EnxameClient, E2ePayload, Library, World, key_response, no_channel_key, is_channel,
}
use enxame.Client.Outbox.{send, send_payload, subscribe_to_relay_channel}
use enxame.Client.Keys.{channel_key, stored_nonempty}
use enxame.Client.Handlers.{cut, handle_channel_key_response}
use enxame.Client.Sending.{send_message}
use enxame.Client.Dispatch.{dispatch, handle_message}
use enxame.Client.Wire.{IsCodec, handle_message_lem}

module _ (lib : Library) where
  send_message_remembered :
      (w : World) (target message : String) (c : EnxameClient)
      → is_channel target ≡ true
      → c.relay_client.connected ≡ true
      → has target c.channel_keys ≡ true
      → send_message lib w target message c ≡ (err no_channel_key, c)
  unfolding send_message
  send_message_remembered w target message c channel connected known =
      rw (connected, channel, known) refl

  send_message_remembers :
      (w : World) (target message : String) (c : EnxameClient)
      → is_channel target ≡ true
      → (send_message lib w target message c).0 ≡ ok tt
      → (has target (send_message lib w target message c).1.channel_keys ≡ true)
        × ((send_message lib w target message c).1.relay_client.connected ≡ true)
  unfolding send_message channel_key send_payload send Storage.store_message Storage.put_message
  send_message_remembers w target message c channel h =
      elim (Option-cases (lookup target c.channel_keys)) [
        | inr (key, known) ↦ ground (arith, channel, known, h)
        | inl new ↦ elim (Option-cases (stored_nonempty w target c)) [
          | inl missing ↦ ground (arith, channel, new, missing, h)
          | inr (key_hex, stored) ↦ ground (
            arith,
            channel,
            new,
            stored,
            h,
            lookup-insert target target (hex_bytes key_hex) c.channel_keys,
            eq_refl target,
          )
        ]
      ]

  -- A channel takes one message: after a client has sent one to a channel, every further one is
  -- refused for lack of a key and changes nothing.
  pub send_message_twice :
      (w v : World) (target first second : String) (c : EnxameClient)
      → is_channel target ≡ true
      → (send_message lib w target first c).0 ≡ ok tt
      → let d = (send_message lib w target first c).1 in
        send_message lib v target second d ≡ (err no_channel_key, d)
  send_message_twice w v target first second c channel h =
      let after = send_message_remembers w target first c channel h in
      send_message_remembered v target second (send_message lib w target first c).1 channel after.1
        after.0

  handle_channel_key_response_lem :
      (w : World) (bytes : List ℕ) (channel key_hex : String) (c : EnxameClient)
      → cut (lib.to_text bytes) ≡ some (channel, key_hex)
      → lookup channel (handle_channel_key_response lib w bytes c).1.channel_keys
        ≡ some (hex_bytes key_hex)
  unfolding handle_channel_key_response subscribe_to_relay_channel send
  handle_channel_key_response_lem w bytes channel key_hex c h =
      ground (
        arith,
        h,
        lookup-insert channel channel (hex_bytes key_hex) c.channel_keys,
        eq_refl channel,
      )

  -- A key response in plain text replaces the key of any channel, whoever sent it and whatever sessions
  -- and keys there are.
  pub handle_message-key_response :
      (w : World) (env : Envelope) (payload : E2ePayload) (channel key_hex : String)
      (c : EnxameClient)
      → IsCodec lib.payloads
      → env.encrypted_payload ≡ lib.payloads.marshal payload
      → payload.kind ≡ key_response
      → cut (lib.to_text payload.content) ≡ some (channel, key_hex)
      → lookup channel (handle_message lib w env c).1.channel_keys ≡ some (hex_bytes key_hex)
  unfolding dispatch
  handle_message-key_response w env payload channel key_hex c codec e kind parts =
      ap (λ x. lookup channel x.1.channel_keys)
        (handle_message_lem lib w env payload c codec e
          ∙ ap (λ k. dispatch lib w env k payload.content c) kind)
      ∙ handle_channel_key_response_lem w payload.content channel key_hex c parts
